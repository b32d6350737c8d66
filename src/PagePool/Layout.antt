-- ===== src/PagePool/Layout.antt =====
-- The layout of the regions of a new pool.
use native.Mathlib.Nat.{
  one-le-pow, pow-le-pow_right, mod-eq_of_lt, div-mul-le_self, le-div_iff_mul-le, pow-suc,
  mul-mod_left, div-add-mod, mod-lt,
}
use lua_sharedtable.Base.{
  ℕ, zero, suc, ◌+◌, ◌-◌, ◌*◌, ◌/◌, ◌%◌, ◌^◌, ◌≤◌, ◌<◌, ◌≡◌, refl, ap, ◌∙◌, arith, true, false, not,
  ◌||◌, some, leb, ◌==◌, Bool-cases, inl, inr, Memory, ok, done,
}
use lua_sharedtable.Bits.{bit_and, not64, word64}
use lua_sharedtable.Bits.Laws.{bit-bit_and, bit-complement, bit-ones, bit-mul_pow, bit-div_pow}
use lua_sharedtable.Bits.Extent.{bits-ext, bit_and-lt}
use lua_sharedtable.Array.{init_static}
use lua_sharedtable.PagePool.{Pool, cmp_region_addr, max_region_cnt}
use lua_sharedtable.PagePool.Regions.{IsPool}
use lua_sharedtable.PagePool.Address.{IsLayout}
use lua_sharedtable.PagePool.Setup.{align, init}

-- Clearing the low bits rounds down to a multiple of a power of two.
cleared : (y k : ℕ) → y < word64 → k < 64 → bit_and y (not64 (2 ^ k - 1)) ≡ y / 2 ^ k * 2 ^ k
unfolding not64
cleared y k small lt =
    let power : 2 ^ k ≤ 2 ^ 64 =
      pow-le-pow_right {n = 2} (omega arith) {i = k} {j = 64} (omega arith) in
    bits-ext 64 (bit_and y (not64 (2 ^ k - 1))) (y / 2 ^ k * 2 ^ k)
      (bit_and-lt 64 y (not64 (2 ^ k - 1)) small) (omega (arith, div-mul-le_self y (2 ^ k)))
      λ j l. ground (
        arith,
        bit-bit_and y (not64 (2 ^ k - 1)) j,
        bit-complement 64 (2 ^ k - 1) j (omega (arith, power)),
        bit-ones k j,
        bit-mul_pow (y / 2 ^ k) k j,
        bit-div_pow y k (j - k),
      )

align-pow :
    (x k : ℕ) → k < 64 → x + 2 ^ k < word64 → align x (2 ^ k) ≡ (x + (2 ^ k - 1)) / 2 ^ k * 2 ^ k
unfolding align
align-pow x k lt small =
    let pos : 1 ≤ 2 ^ k = one-le-pow k 2 (omega arith) in
    let not_zero : (2 ^ k == 0) ≡ false = ground arith in
    let no_wrap : (x + (2 ^ k - 1)) % word64 ≡ x + (2 ^ k - 1) =
      mod-eq_of_lt {n = x + (2 ^ k - 1)} {m = word64} (omega arith) in
    rw (not_zero, no_wrap) (cleared (x + (2 ^ k - 1)) k (omega arith) lt)

times-le : (a b c : ℕ) → a ≤ b → a * c ≤ b * c
times-le a b c h = grind arith

-- Rounded up to whole pages, what lies before `q` pages of a region of `m` pages still fits.
rounded-fits :
    (a size m q : ℕ)
    → 0 < size
    → a + q * size ≤ m * size
    → (a + (size - 1)) / size * size + q * size ≤ m * size
rounded-fits a size m q pos fits =
    let c : ℕ = (a + (size - 1)) / size in
    elim (Bool-cases (leb (c + q) m)) [
      | inl small ↦ omega (arith, times-le (c + q) m size (ground arith))
      | inr large ↦ absurd (
          omega (
            arith,
            times-le (m + 1) (c + q) size (ground arith),
            div-mul-le_self (a + (size - 1)) size,
          ))
    ]

rounded-up :
    (a size : ℕ)
    → 0 < size
    → (a ≤ (a + (size - 1)) / size * size) × ((a + (size - 1)) / size * size < a + size)
rounded-up a size pos =
    let low = div-mul-le_self (a + (size - 1)) size in
    let whole = div-add-mod (a + (size - 1)) size in
    let part = mod-lt (a + (size - 1)) {m = size} pos in
    (grind (arith, whole, part), omega (arith, low, pos))

sectors : (d : ℕ) → 2 ^ (d + 9) ≡ 2 ^ d * 512
sectors zero = refl
sectors (suc d) =
    ap (λ e. 2 ^ e) (omega arith) ∙ pow-suc 2 (d + 9) ∙ omega (arith, sectors d, pow-suc 2 d)

module _ (sizeof_page reg_size k m : ℕ) (regions_array_data : Memory ℕ) (pool : Pool)
    (least : 9 ≤ k) (most : k < 63) (whole : reg_size ≡ m * 2 ^ k)
    (room : sizeof_page + 2 ^ k ≤ reg_size) (bound : reg_size < 2 ^ 63) where
  abbrev pages_per_region : ℕ
  pages_per_region = reg_size / (sizeof_page + 2 ^ k)

  headers-fit : sizeof_page * pages_per_region + pages_per_region * 2 ^ k ≤ reg_size
  headers-fit = omega (arith, div-mul-le_self reg_size (sizeof_page + 2 ^ k))

  pages-inside :
      align (sizeof_page * pages_per_region) (2 ^ k) + pages_per_region * 2 ^ k ≤ reg_size
  pages-inside =
      let pos : 1 ≤ 2 ^ k = one-le-pow k 2 (omega arith) in
      rw
        (align-pow (sizeof_page * pages_per_region) k (omega arith)
          (omega (arith, headers-fit, room, bound)))
        (omega (
          arith,
          whole,
          rounded-fits (sizeof_page * pages_per_region) (2 ^ k) m pages_per_region pos
              (omega (arith, headers-fit, whole)),
        ))

  -- The space of the pages starts at the first multiple of the page size behind the blocks.
  behind_blocks :
      let offset = align (sizeof_page * pages_per_region) (2 ^ k) in
      (sizeof_page * pages_per_region ≤ offset)
      × (offset < sizeof_page * pages_per_region + 2 ^ k)
      × (offset % 2 ^ k ≡ 0)
  behind_blocks =
      let pos : 1 ≤ 2 ^ k = one-le-pow k 2 (omega arith) in
      let a = sizeof_page * pages_per_region in
      rw (align-pow a k (omega arith) (omega (arith, headers-fit, room, bound))) (
        (rounded-up a (2 ^ k) pos).0,
        (rounded-up a (2 ^ k) pos).1,
        mul-mod_left ((a + (2 ^ k - 1)) / 2 ^ k) (2 ^ k),
      )

  sector_sized : (2 ^ k) % 512 ≡ 0
  sector_sized =
      let power : 2 ^ k ≡ 2 ^ (k - 9) * 512 = ap (λ e. 2 ^ e) (omega arith) ∙ sectors (k - 9) in
      omega (arith, power)

  some_pages : 0 < pages_per_region
  some_pages =
      (le-div_iff_mul-le {k = sizeof_page + 2 ^ k} {x = 1} {y = reg_size}
          (omega (arith, one-le-pow k 2))).1
        (omega (arith, room))

  -- For a page size that is a power of two from 512 on and divides the size of a region, which
  -- holds at least one page with its control block and is below 2 ^ 63, and with locks that can
  -- be initialised, `st_pagepool_init` succeeds with a valid pool without regions and with these
  -- sizes: a region has the pages that fit with their control blocks, their space starts at the
  -- first multiple of the page size that is not below the end of the blocks, and they end inside
  -- the region.
  pub init-IsLayout :
      (new : Pool) × (init sizeof_page 0 0 reg_size regions_array_data (some pool) (2 ^ k)
        ≡ done (some new, ok))
      × IsPool new
      × IsLayout new
      × (new.page_size ≡ 2 ^ k)
      × (new.region_size ≡ reg_size)
      × (new.pages_per_region ≡ reg_size / (sizeof_page + 2 ^ k))
      × (sizeof_page * new.pages_per_region ≤ new.space_base_offset)
      × (new.space_base_offset < sizeof_page * new.pages_per_region + 2 ^ k)
      × (new.space_base_offset % 2 ^ k ≡ 0)
      × (new.regions.current_cnt ≡ 0)
      × (new.regions.total_cnt ≡ max_region_cnt)
  unfolding init init_static
  init-IsLayout =
      let pos : 1 ≤ 2 ^ k = one-le-pow k 2 (omega arith) in
      let real : ((2 ^ k == 0) || not ((2 ^ k) % 512 == 0)) ≡ false =
        ground (arith, sector_sized) in
      let none_empty : (pages_per_region == 0) ≡ false = ground (arith, some_pages) in
      (
        record {
          regions = record {
            slots = regions_array_data;
            has_space = true;
            element_size = 8;
            current_cnt = 0;
            total_cnt = max_region_cnt;
            dynamic = false;
            compare = some cmp_region_addr;
            inited = true;
          };
          page_size = 2 ^ k;
          region_size = reg_size;
          pages_per_region = pages_per_region;
          space_base_offset = align (sizeof_page * pages_per_region) (2 ^ k);
        },
        rw (real, none_empty) refl,
        record {
          inited = refl;
          static = refl;
          compare = refl;
          fits = omega arith;
          size_pos = omega (arith, room, pos);
          apart = λ i j lt l. absurd (omega (arith, l));
        },
        record { page_pos = pos; inside = pages-inside },
        refl,
        refl,
        refl,
        behind_blocks.0,
        behind_blocks.1,
        behind_blocks.2,
        refl,
        refl,
      )
