-- ===== src/PagePool/Regions.antt =====
-- The regions of a pool: which region an address lies in, and how the array changes.
use lua_sharedtable.Base.{
  ℕ, zero, suc, ◌+◌, ◌≤◌, ◌<◌, ◌≡◌, ◌≢◌, refl, sym, inl, inr, arith, true, false, ◌&&◌, Bool-cases,
  ltb, leb, ltb→le, ◌==◌, Option, none, some, Ret, ok, not_found, done, ◌>>=◌,
}
use lua_sharedtable.Array.{below, above}
use lua_sharedtable.Array.Search.{bsearch_left}
use lua_sharedtable.Array.Order.{IsOrdered, LeftSplit, left_code, is_same}
use lua_sharedtable.Array.Bisect.{bsearch_left-LeftSplit}
use lua_sharedtable.PagePool.{Pool, cmp_region_addr, region_before, or_not_found, get_region}

-- The regions are sorted by address and do not overlap.
pub record IsPool (pool : Pool) : Type 0 where
  pub inited : pool.regions.inited ≡ true
  pub static : pool.regions.dynamic ≡ false
  pub compare : pool.regions.compare ≡ some cmp_region_addr
  pub fits : pool.regions.current_cnt ≤ pool.regions.total_cnt
  pub size_pos : 0 < pool.region_size
  pub apart :
      (i j : ℕ)
      → i < j
      → j < pool.regions.current_cnt
      → pool.regions.slots i + pool.region_size ≤ pool.regions.slots j

pub cmp-above : (a b : ℕ) → cmp_region_addr a b ≡ above → b < a
cmp-above a b h = ground arith

pub cmp-below : (a b : ℕ) → cmp_region_addr a b ≡ below → a < b
cmp-below a b h = ground arith

pub above-cmp : (a b : ℕ) → b < a → cmp_region_addr a b ≡ above
above-cmp a b h = ground arith

pub below-cmp : (a b : ℕ) → a < b → cmp_region_addr a b ≡ below
below-cmp a b h = ground arith

pub cmp-not_above : (a b : ℕ) → cmp_region_addr a b ≢ above → a ≤ b
cmp-not_above a b h = ground arith

pub cmp-not_below : (a b : ℕ) → cmp_region_addr a b ≢ below → b ≤ a
cmp-not_below a b h = ground arith

pub cmp-same : (a b : ℕ) → is_same (cmp_region_addr a b) ≡ (a == b)
cmp-same a b = ground arith

module _ (pool : Pool) (v : IsPool pool) where
  pub slot_le :
      (i j : ℕ) → i ≤ j → j < pool.regions.current_cnt → pool.regions.slots i ≤ pool.regions.slots j
  slot_le i j le lt = elim (Bool-cases (i == j)) [
    | inl same_index ↦ let e : i ≡ j = ground arith in rw e (omega arith)
    | inr less ↦ omega (arith, v.apart i j (ground arith) lt)
  ]

  pub regions-IsOrdered :
      (addr : ℕ) → IsOrdered pool.regions.slots cmp_region_addr addr pool.regions.current_cnt
  regions-IsOrdered addr = record {
    above_down = λ i j le lt h.
        above-cmp addr (pool.regions.slots i)
          (omega (arith, slot_le i j le lt, cmp-above addr (pool.regions.slots j) h));
    below_up = λ i j le lt h.
        below-cmp addr (pool.regions.slots j)
          (omega (arith, slot_le i j le lt, cmp-below addr (pool.regions.slots i) h));
  }

-- What `st_pagepool_get_region` returns: the region that holds the address, or that there is none.
abbrev pub Located : Pool → ℕ → Ret × Option ℕ → Type 0
Located pool addr (ret, some region) =
    (ret ≡ ok)
    × ((i : ℕ) × (i < pool.regions.current_cnt) × (region ≡ pool.regions.slots i))
    × (region ≤ addr)
    × (addr < region + pool.region_size)
Located pool addr (ret, none) =
    (ret ≡ not_found)
    × ((i : ℕ)
        → i < pool.regions.current_cnt
        → pool.regions.slots i ≤ addr
        → pool.regions.slots i + pool.region_size ≤ addr)

module _ (pool : Pool) (v : IsPool pool) (addr k : ℕ)
    (split : LeftSplit pool.regions.slots cmp_region_addr addr pool.regions.current_cnt k k) where
  lower : (i : ℕ) → i < k → pool.regions.slots i < addr
  lower i h = cmp-above addr (pool.regions.slots i) (split.lows i h)

  upper : (i : ℕ) → k ≤ i → i < pool.regions.current_cnt → addr ≤ pool.regions.slots i
  upper i h l = cmp-not_above addr (pool.regions.slots i) (split.highs i h l)

  hit-Located :
      k < pool.regions.current_cnt → pool.regions.slots k ≡ addr → Located pool addr (ok, some addr)
  hit-Located lt e = (refl, (k, lt, sym e), omega arith, omega (arith, v.size_pos))

  module _ (miss : k < pool.regions.current_cnt → addr ≢ pool.regions.slots k) where
    beyond : (i : ℕ) → k ≤ i → i < pool.regions.current_cnt → addr < pool.regions.slots i
    beyond i h l =
        let inside : k < pool.regions.current_cnt = omega (arith, h, l) in
        let other : addr ≢ pool.regions.slots k = miss inside in
        omega (arith, slot_le pool v k i h l, upper k (omega arith) inside, other)

    before-Located : (j : ℕ) → k ≡ j → Located pool addr (or_not_found (region_before pool addr j))
    before-Located zero e = (refl, λ i l le. absurd (omega (arith, beyond i (omega (arith, e)) l)))
    before-Located (suc j) e =
        let below_it : pool.regions.slots j < addr = lower j (omega (arith, e)) in
        let bound : j < pool.regions.current_cnt = omega (arith, e, split.inside) in
        elim (Bool-cases (ltb addr (pool.regions.slots j + pool.region_size))) [
          | inl inside ↦
              let yes_it : (ltb (pool.regions.slots j) addr
                    && ltb addr (pool.regions.slots j + pool.region_size))
                  ≡ true =
                ground arith in
              rw yes_it (refl, (j, bound, refl), omega (arith, below_it), ground arith)
          | inr past ↦
              let not_it : (ltb (pool.regions.slots j) addr
                    && ltb addr (pool.regions.slots j + pool.region_size))
                  ≡ false =
                ground arith in
              rw not_it (
                refl,
                λ i l le. elim (Bool-cases (leb i j)) [
                  | inl early ↦ omega (
                    arith,
                    slot_le pool v i j (ground arith) bound,
                    ltb→le addr (pool.regions.slots j + pool.region_size) past,
                  )
                  | inr late ↦ absurd (omega (arith, le, beyond i (ground arith) l))
                ],
              )
        ]

-- The end of `st_pagepool_get_region`, by the code that the search returned.
get_finish :
    (pool : Pool) (addr k : ℕ)
    → IsPool pool
    → LeftSplit pool.regions.slots cmp_region_addr addr pool.regions.current_cnt k k
    → bsearch_left (some pool.regions) (some addr) none
      ≡ done (left_code pool.regions.slots cmp_region_addr addr pool.regions.current_cnt k, k)
    → (r : Ret × Option ℕ) × (get_region pool addr ≡ done r) × Located pool addr r
unfolding get_region
get_finish pool addr k v split ran =
    elim (Bool-cases
      (ltb k pool.regions.current_cnt && is_same (cmp_region_addr addr (pool.regions.slots k)))) [
        | inl hit ↦ (
          (ok, some addr),
          rw (ran, ◌>>=◌, hit) refl,
          hit-Located pool v addr k split (ground arith)
              (ground (arith, cmp-same addr (pool.regions.slots k))),
        )
        | inr miss ↦ (
          or_not_found (region_before pool addr k),
          rw (ran, ◌>>=◌, miss) refl,
          before-Located pool v addr k split
              (λ lt. ground (arith, cmp-same addr (pool.regions.slots k))) k refl,
        )
      ]

-- On a valid pool `st_pagepool_get_region` terminates, and returns the region that holds the
-- address, or `ST_NOT_FOUND` exactly if no region of the pool holds it.
pub get_region-Located :
    (pool : Pool) (addr : ℕ)
    → IsPool pool
    → (r : Ret × Option ℕ) × (get_region pool addr ≡ done r) × Located pool addr r
get_region-Located pool addr v =
    let (k, ran, split) =
      bsearch_left-LeftSplit pool.regions addr none cmp_region_addr v.inited v.compare
        (regions-IsOrdered pool v addr) in
    get_finish pool addr k v split ran
