-- ===== src/PagePool/Address.antt =====
-- `st_pagepool_page_to_addr` and `st_pagepool_addr_to_page`.
use native.Mathlib.Nat.{mul-div_cancel, mul-mod_left, div-eq_of_eq-mul_left}
use lua_sharedtable.Base.{
  ℕ, ◌+◌, ◌-◌, ◌*◌, ◌/◌, ◌%◌, ◌≤◌, ◌<◌, ◌≡◌, refl, sym, ap, ◌∙◌, inl, inr, arith, true, false,
  Bool-cases, ltb, ◌==◌, Option, none, some, Ret, ok, done, ◌>>=◌,
}
use lua_sharedtable.PagePool.{Pool, get_region, page_to_addr, page_in, addr_to_page}
use lua_sharedtable.PagePool.Regions.{IsPool, Located, get_region-Located}
use lua_sharedtable.PagePool.Change.{Holds}

-- The pages of a region, behind the control blocks, end inside it.
pub record IsLayout (pool : Pool) : Type 0 where
  pub page_pos : 0 < pool.page_size
  pub inside : pool.space_base_offset + pool.pages_per_region * pool.page_size ≤ pool.region_size

-- Where the space of page `idx` of a region starts.
abbrev pub space : Pool → (region idx : ℕ) → ℕ
space pool region idx = region + pool.space_base_offset + idx * pool.page_size

module _ (pool : Pool) (v : IsPool pool) (region : ℕ) (held : Holds pool region) where
  -- Two regions of a pool that hold an address are the same.
  same_region :
      (addr : ℕ) (r : Ret × Option ℕ)
      → region ≤ addr
      → addr < region + pool.region_size
      → Located pool addr r
      → r ≡ (ok, some region)
  same_region addr (ret, none) lo hi (code, nowhere) =
      let (i, l, e) = held in absurd (omega (arith, e, hi, nowhere i l (omega (arith, e, lo))))
  same_region addr (ret, some found) lo hi (code, (j, m, f), p, q) =
      let (i, l, e) = held in
      let same_slot : found ≡ region = elim (Bool-cases (ltb i j)) [
        | inl before ↦ absurd (omega (arith, e, f, hi, p, v.apart i j (ground arith) m))
        | inr rest ↦ elim (Bool-cases (i == j)) [
          | inl here ↦ let at : i ≡ j = ground arith in f ∙ ap pool.regions.slots (sym at) ∙ e
          | inr behind ↦ absurd (omega (arith, e, f, lo, q, v.apart j i (ground arith) l))
        ]
      ] in
      cc

  get_region-inside :
      (addr : ℕ)
      → region ≤ addr
      → addr < region + pool.region_size
      → get_region pool addr ≡ done (ok, some region)
  get_region-inside addr lo hi =
      let (r, ran, where_it_is) = get_region-Located pool addr v in
      ran ∙ ap done (same_region addr r lo hi where_it_is)

  module _ (sizeof_page idx : ℕ) (layout : IsLayout pool) (lt : idx < pool.pages_per_region) where
    space_inside : space pool region idx < region + pool.region_size
    space_inside = grind (arith, layout.inside, layout.page_pos)

    page_in-space :
        page_in sizeof_page pool (space pool region idx) region ≡ (ok, region + idx * sizeof_page)
    page_in-space =
        let offset : space pool region idx - (region + pool.space_base_offset)
            ≡ idx * pool.page_size =
          omega arith in
        let high : ltb (space pool region idx) (region + pool.space_base_offset) ≡ false =
          ground arith in
        let exact : ((idx * pool.page_size) % pool.page_size == 0) ≡ true =
          let whole : (idx * pool.page_size) % pool.page_size ≡ 0 =
            mul-mod_left idx pool.page_size in
          rw whole refl in
        let quotient : idx * pool.page_size / pool.page_size ≡ idx =
          mul-div_cancel idx {n = pool.page_size} layout.page_pos in
        rw (high, offset, exact, quotient) refl

-- On a valid pool whose pages end inside their regions, `st_pagepool_page_to_addr` gives the
-- start of the space of a page of a region that the pool holds, and `st_pagepool_addr_to_page`
-- leads from that address back to the page.
pub addr_to_page-page_to_addr :
    (pool : Pool) (sizeof_page region idx : ℕ)
    → IsPool pool
    → IsLayout pool
    → 0 < sizeof_page
    → 0 < region
    → Holds pool region
    → idx < pool.pages_per_region
    → (page_to_addr sizeof_page (some pool) (region + idx * sizeof_page) region false
        ≡ (ok, space pool region idx))
      × (addr_to_page sizeof_page (some pool) (space pool region idx) false
          ≡ done (ok, region + idx * sizeof_page))
unfolding page_to_addr addr_to_page
addr_to_page-page_to_addr pool sizeof_page region idx v layout sizeof_pos region_pos held lt =
    let page_real : (region + idx * sizeof_page == 0) ≡ false = ground arith in
    let addr_real : (space pool region idx == 0) ≡ false = ground arith in
    let quotient : (region + idx * sizeof_page - region) / sizeof_page ≡ idx =
      div-eq_of_eq-mul_left {n = sizeof_page} sizeof_pos (omega arith) in
    let behind : ltb (region + idx * sizeof_page) region ≡ false = ground arith in
    (
      rw (page_real, behind, quotient) refl,
      rw
          (
            addr_real,
            get_region-inside pool v region held (space pool region idx) (omega arith)
                (space_inside pool v region held sizeof_page idx layout lt),
            ◌>>=◌,
          )
          (ap done (page_in-space pool v region held sizeof_page idx layout lt)),
    )
