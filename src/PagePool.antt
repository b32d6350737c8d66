-- ===== src/PagePool.antt =====
-- src/pagepool/pagepool.c and pagepool.h: the pool of pages. This file has its state and the addresses of
-- its regions in an array that is sorted by address. An address is a number; the mutexes make each function
-- one step.
pub mod Regions
pub mod Change
pub mod Drop
pub mod Address
pub mod Pages
pub mod Tiled
pub mod Runs
pub mod Remain
pub mod Split
pub mod Merge
pub mod Setup
pub mod Layout
mod Tests
use lua_sharedtable.Base.{
  ℕ, zero, suc, ◌+◌, ◌-◌, ◌*◌, ◌/◌, ◌%◌, ◌<◌, Bool, true, false, not, ◌&&◌, ◌||◌, Option, none,
  some, if◌then◌else◌, ltb, leb, ◌==◌, Memory, Ret, ok, arg_invalid, not_found, out_of_range, Run,
  done, abort, ◌>>=◌,
}
use lua_sharedtable.Bits.{word64}
use lua_sharedtable.Array.{Sign, below, same, above, Compare, StArray, insert_many, remove_many}
use lua_sharedtable.Array.Search.{bsearch_left, bsearch_right}

-- `st_cmp`, and `st_pagepool_cmp_region_addr`
abbrev pub cmp_region_addr : Compare ℕ
cmp_region_addr a b = if ltb b a then above else if ltb a b then below else same

abbrev pub max_region_cnt : ℕ
max_region_cnt = 1024

-- The part of `st_pagepool_s` that the functions on regions and addresses use.
pub record Pool : Type 0 where
  pub regions : StArray ℕ
  pub page_size : ℕ
  pub region_size : ℕ
  pub pages_per_region : ℕ
  pub space_base_offset : ℕ

-- A static array never calls `realloc`.
abbrev pub no_realloc : Memory ℕ → ℕ → Option (Memory ℕ)
no_realloc m bytes = none

-- The pool with the array that a function on it leaves.
abbrev pub with_regions : Pool → Option (StArray ℕ) × Ret → Pool × Ret
with_regions pool (none, ret) = (pool, ret)
with_regions pool (some a, ret) = (record pool { regions = a }, ret)

unfoldable pub add_region : Pool → (region : ℕ) → Run (Pool × Ret)
unfolding bsearch_right insert_many
add_region pool region = bsearch_right (some pool.regions) (some region) none >>= λ (ret, idx).
    elim ret [
      | ok ↦ abort
      | not_found ↦ done (
          with_regions pool (insert_many no_realloc (some pool.regions) idx (some (λ i. region)) 1))
      | e ↦ done (pool, e)
    ]

unfoldable pub remove_region : Pool → (region : ℕ) → Run (Pool × Ret)
unfolding bsearch_left remove_many
remove_region pool region = bsearch_left (some pool.regions) (some region) none >>= λ (ret, idx).
    elim ret [
      | ok ↦ remove_many (some pool.regions) idx 1 >>= λ a. done (record pool { regions = a }, ok)
      | e ↦ done (pool, e)
    ]

-- The part of `st_pagepool_get_region` behind a search that finds no region at `addr`.
abbrev pub region_before : Pool → (addr idx : ℕ) → Option ℕ
region_before pool addr zero = none
region_before pool addr (suc i) =
    let reg = pool.regions.slots i in
    if ltb reg addr && ltb addr (reg + pool.region_size) then some reg else none

abbrev pub or_not_found : Option ℕ → Ret × Option ℕ
or_not_found none = (not_found, none)
or_not_found (some r) = (ok, some r)

-- The return code, and what is stored in `*region`.
unfoldable pub get_region : Pool → (addr : ℕ) → Run (Ret × Option ℕ)
unfolding bsearch_left
get_region pool addr = bsearch_left (some pool.regions) (some addr) none >>= λ (ret, idx).
    elim ret [
      | ok ↦ done (ok, some addr)
      | not_found ↦ done (or_not_found (region_before pool addr idx))
      | e ↦ done (e, none)
    ]

module _ (sizeof_page : ℕ) where
  -- `page` is the address of a page's control block, `region` its field of that name. The
  -- difference of the two is a signed number that the division takes as a `size_t`.
  unfoldable pub page_to_addr : Option Pool → (page region : ℕ) → (addr_is_null : Bool) → Ret × ℕ
  page_to_addr none page region addr_is_null = (arg_invalid, 0)
  page_to_addr (some pool) page region addr_is_null =
      if (page == 0) || addr_is_null
      then (arg_invalid, 0)
      else (let offset = if ltb page region then page + word64 - region else page - region in
          let idx = offset / sizeof_page in
          (ok, region + pool.space_base_offset + idx * pool.page_size))

  abbrev pub page_in : Pool → (addr region : ℕ) → Ret × ℕ
  page_in pool addr region =
      let base = region + pool.space_base_offset in
      if ltb addr base
      then (out_of_range, 0)
      else if not ((addr - base) % pool.page_size == 0)
      then (arg_invalid, 0)
      else (ok, region + (addr - base) / pool.page_size * sizeof_page)

  abbrev pub when_found : Pool → ℕ → Ret × Option ℕ → Ret × ℕ
  when_found pool addr (ret, none) = (ret, 0)
  when_found pool addr (ret, some region) = page_in pool addr region

  unfoldable pub addr_to_page : Option Pool → (addr : ℕ) → (page_is_null : Bool) → Run (Ret × ℕ)
  unfolding get_region
  addr_to_page none addr page_is_null = done (arg_invalid, 0)
  addr_to_page (some pool) addr page_is_null =
      if (addr == 0) || page_is_null
      then done (arg_invalid, 0)
      else (get_region pool addr >>= λ found. done (when_found pool addr found))
