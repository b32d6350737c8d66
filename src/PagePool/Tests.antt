-- ===== src/PagePool/Tests.antt =====
-- Runs of the functions of src/pagepool/pagepool.c on a pool of two regions.
use lua_sharedtable.Base.{
  ◌/◌, ◌%◌, ◌*◌, [], ◌∷◌, get_or, Memory, ℕ, zero, suc, ◌+◌, ◌≤◌, ◌<◌, ◌≡◌, ◌≢◌, refl, ◌⊎◌, ◌↔◌,
  inl, inr, arith, pos, negsuc, to_int16, ◌+ℤ◌, true, false, Option, some, Ret, ok, done,
}
use lua_sharedtable.PagePool.{
  Pool, cmp_region_addr, add_region, remove_region, get_region, page_to_addr, addr_to_page,
}
use lua_sharedtable.PagePool.Regions.{IsPool, Located, get_region-Located}
use lua_sharedtable.PagePool.Change.{Holds, Free, add_region-IsPool}
use lua_sharedtable.PagePool.Drop.{remove_region-IsPool}
use lua_sharedtable.PagePool.Pages.{
  Page, PageState, PageType, free, allocated, master, slave, split_pages, merge_pages,
}
use lua_sharedtable.PagePool.Tiled.{Block, IsBlock, Tiled, kind_at}
use lua_sharedtable.PagePool.Split.{SplitAt, split_pages-SplitAt}
use lua_sharedtable.PagePool.Merge.{Around, merge_pages-Tiled}
use lua_sharedtable.PagePool.Setup.{align, init}
use lua_sharedtable.PagePool.Layout.{init-IsLayout}
use lua_sharedtable.Bits.{not64}
use lua_sharedtable.PagePool.Address.{IsLayout, addr_to_page-page_to_addr}

-- The regions at 10000 and at 30000.
abbrev addresses : ℕ → ℕ
addresses zero = 10000
addresses (suc i) = 30000

abbrev pool : Pool
pool = record {
  regions = record {
    slots = addresses;
    has_space = true;
    element_size = 8;
    current_cnt = 2;
    total_cnt = 1024;
    dynamic = false;
    compare = some cmp_region_addr;
    inited = true;
  };
  page_size = 512;
  region_size = 4096;
  pages_per_region = 6;
  space_base_offset = 1024;
}

addresses-apart : (i j : ℕ) → i < j → j < 2 → addresses i + 4096 ≤ addresses j
addresses-apart zero zero lt l = absurd (omega arith)
addresses-apart zero (suc j) lt l = omega arith
addresses-apart (suc i) j lt l = absurd (omega arith)

IsPool-pool : IsPool pool
IsPool-pool = record {
  inited = refl;
  static = refl;
  compare = refl;
  fits = omega arith;
  size_pos = omega arith;
  apart = addresses-apart;
}

IsLayout-pool : IsLayout pool
IsLayout-pool = record { page_pos = omega arith; inside = omega arith }

Holds-second : Holds pool 30000
Holds-second = (1, omega arith, refl)

get_region-Located_example :
    (r : Ret × Option ℕ) × (get_region pool 30001 ≡ done r) × Located pool 30001 r
get_region-Located_example = get_region-Located pool 30001 IsPool-pool

between : Free pool 20000
between zero l = inl (omega arith)
between (suc i) l = inr (omega arith)

add_region-IsPool_example :
    (new : Pool) × (add_region pool 20000 ≡ done (new, ok))
    × IsPool new
    × ((r : ℕ) → Holds new r ↔ (Holds pool r ⊎ (r ≡ 20000)))
add_region-IsPool_example = add_region-IsPool pool 20000 IsPool-pool (omega arith) between

remove_region-IsPool_example :
    (new : Pool) × (remove_region pool 30000 ≡ done (new, ok))
    × IsPool new
    × ((r : ℕ) → Holds new r ↔ (Holds pool r × (r ≢ 30000)))
remove_region-IsPool_example = remove_region-IsPool pool 30000 IsPool-pool Holds-second

addr_to_page-page_to_addr_example :
    (page_to_addr 100 (some pool) 30200 30000 false ≡ (ok, 32048))
    × (addr_to_page 100 (some pool) 32048 false ≡ done (ok, 30200))
addr_to_page-page_to_addr_example =
    addr_to_page-page_to_addr pool 100 30000 2 IsPool-pool IsLayout-pool (omega arith) (omega arith)
      Holds-second (omega arith)

-- Six pages: two free, two in use, two free.
abbrev six_pages : Memory Page
six_pages i =
    get_or
      (page free master
        ∷ page free slave
        ∷ page allocated master
        ∷ page allocated slave
        ∷ page free master
        ∷ page free slave
        ∷ [])
      i (page free slave)
  where
    page : PageState → PageType → Page
    page s t = record { state = s; kind = t; compound_page_cnt = pos 2 }

abbrev free_two : Block
free_two = record { cnt = 2; state = free }

abbrev used_two : Block
used_two = record { cnt = 2; state = allocated }

-- Two pages that agree with a run of two are that run.
IsBlock-two :
    (i : ℕ) (s : PageState)
    → six_pages (i + 0) ≡ (record { state = s; kind = master; compound_page_cnt = pos 2 })
    → six_pages (i + 1) ≡ (record { state = s; kind = slave; compound_page_cnt = pos 2 })
    → IsBlock six_pages i (record { cnt = 2; state = s })
IsBlock-two i s one two = record { some_page = omega arith; small = omega arith; page_at = at }
  where
    at :
        (k : ℕ)
        → k < 2
        → six_pages (i + k) ≡ (record { state = s; kind = kind_at k; compound_page_cnt = pos 2 })
    at zero l = one
    at (suc zero) l = two
    at (suc (suc k)) l = absurd (omega arith)

between_free : Around six_pages [] (some free_two) used_two (some free_two) [] 0 2 6 6
between_free = record {
  front = refl;
  before = (IsBlock-two 0 free refl refl, refl);
  run = IsBlock-two 2 allocated refl refl;
  behind = (IsBlock-two 4 free refl refl, refl);
  back = refl;
  no_before = λ e. cc;
  no_behind = λ e. refl;
}

merge_pages-Tiled_example :
    (new : Memory Page) × (merge_pages 6 six_pages 2 ≡ done (new, 0, 0 ∷ 4 ∷ []))
    × Tiled new 0 ((record { cnt = 6; state = free }) ∷ []) 6
merge_pages-Tiled_example =
    merge_pages-Tiled six_pages [] (some free_two) used_two (some free_two) [] 0 2 6 6 between_free
      (omega arith)

-- Of 40000 pages an `int16_t` holds a negative count.
wraps_around : to_int16 (pos 15000 +ℤ pos 10000 +ℤ pos 15000) ≡ negsuc 25535
wraps_around = refl

split_pages-SplitAt_example : SplitAt six_pages 4 1 free_two [] 6 (split_pages six_pages 4 1)
split_pages-SplitAt_example =
    split_pages-SplitAt six_pages 4 1 free_two [] 6 (IsBlock-two 4 free refl refl) refl
      (omega arith) (omega arith) refl

-- Regions of sixteen pages of 4096 bytes, with control blocks of 200 bytes.
init-IsLayout_example :
    (new : Pool) × (init 200 0 0 65536 addresses (some pool) 4096 ≡ done (some new, ok))
    × IsPool new
    × IsLayout new
    × (new.page_size ≡ 4096)
    × (new.region_size ≡ 65536)
    × (new.pages_per_region ≡ 15)
    × (200 * new.pages_per_region ≤ new.space_base_offset)
    × (new.space_base_offset < 200 * new.pages_per_region + 4096)
    × (new.space_base_offset % 4096 ≡ 0)
    × (new.regions.current_cnt ≡ 0)
    × (new.regions.total_cnt ≡ 1024)
init-IsLayout_example =
    init-IsLayout 200 65536 12 16 addresses pool (omega arith) (omega arith) refl (omega arith)
      (omega arith)

-- If the page size does not divide the size of a region, the last page ends behind the region.
ends_outside : (12288 < align (200 * 1) 8192 + 1 * 8192) × (12288 / (200 + 8192) ≡ 1)
unfolding align not64
ends_outside = (omega arith, refl)
