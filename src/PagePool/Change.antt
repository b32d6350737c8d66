-- ===== src/PagePool/Change.antt =====
-- `st_pagepool_add_region` and `st_pagepool_remove_region`.
use lua_sharedtable.Base.{
  ℕ, ◌+◌, ◌-◌, ◌≤◌, ◌<◌, ◌≡◌, refl, sym, ap, ◌∙◌, ◌⊎◌, ◌↔◌, inl, inr, arith, false, ◌&&◌,
  Bool-cases, ltb, ◌==◌, none, ok, done, ◌>>=◌,
}
use lua_sharedtable.Array.{StArray}
use lua_sharedtable.Array.Order.{RightSplit, is_same}
use lua_sharedtable.Array.One.{OneMore, insert_one}
use lua_sharedtable.Array.Bisect.{bsearch_right-RightSplit}
use lua_sharedtable.PagePool.{Pool, cmp_region_addr, add_region, no_realloc}
use lua_sharedtable.PagePool.Regions.{IsPool, cmp-below, cmp-not_below, cmp-same, regions-IsOrdered}

-- `region` is one of the regions of the pool.
abbrev pub Holds : Pool → ℕ → Type 0
Holds pool region = (i : ℕ) × (i < pool.regions.current_cnt) × (pool.regions.slots i ≡ region)

-- A block of the size of a region overlaps none of the pool.
abbrev pub Free : Pool → ℕ → Type 0
Free pool region =
    (i : ℕ)
    → i < pool.regions.current_cnt
    → (pool.regions.slots i + pool.region_size ≤ region)
      ⊎ (region + pool.region_size ≤ pool.regions.slots i)

abbrev pub with_array : Pool → StArray ℕ → Pool
with_array pool a = record pool { regions = a }

module _ (pool : Pool) (v : IsPool pool) (region k : ℕ) (b : StArray ℕ)
    (more : OneMore pool.regions b k region) (le : k ≤ pool.regions.current_cnt) where
  -- The cells of the new array.
  new_cell :
      (j : ℕ)
      → j < pool.regions.current_cnt + 1
      → ((j < k) × (b.slots j ≡ pool.regions.slots j))
        ⊎ ((j ≡ k) × (b.slots j ≡ region))
        ⊎ ((k < j) × (b.slots j ≡ pool.regions.slots (j - 1)))
  new_cell j l = elim (Bool-cases (ltb j k)) [
    | inl low ↦ inl (ground arith, more.low j (ground arith))
    | inr high ↦ elim (Bool-cases (j == k)) [
      | inl here ↦ let e : j ≡ k = ground arith in inr (inl (e, ap b.slots e ∙ more.here))
      | inr other ↦ inr (
          inr (
            ground arith,
            ap b.slots (ground arith) ∙ more.high (j - 1) (ground arith) (ground arith),
          ))
    ]
  ]

  module _ (lows : (i : ℕ) → i < k → pool.regions.slots i + pool.region_size ≤ region)
      (highs : (i : ℕ)
        → k ≤ i
        → i < pool.regions.current_cnt
        → region + pool.region_size ≤ pool.regions.slots i) where
    new_apart : (i j : ℕ) → i < j → j < b.current_cnt → b.slots i + pool.region_size ≤ b.slots j
    new_apart i j lt l =
        let bound : j < pool.regions.current_cnt + 1 = omega (arith, l, more.count) in
        pairs (new_cell i (omega (arith, lt, bound))) (new_cell j bound)
      where
        pairs :
            (i < k) × (b.slots i ≡ pool.regions.slots i)
              ⊎ ((i ≡ k) × (b.slots i ≡ region))
              ⊎ ((k < i) × (b.slots i ≡ pool.regions.slots (i - 1)))
            → (j < k) × (b.slots j ≡ pool.regions.slots j)
              ⊎ ((j ≡ k) × (b.slots j ≡ region))
              ⊎ ((k < j) × (b.slots j ≡ pool.regions.slots (j - 1)))
            → b.slots i + pool.region_size ≤ b.slots j
        pairs (inl (p, e)) (inl (q, f)) = omega (arith, e, f, v.apart i j lt (omega (arith, q, le)))
        pairs (inl (p, e)) (inr (inl (q, f))) = omega (arith, e, f, lows i p)
        pairs (inl (p, e)) (inr (inr (q, f))) =
            omega (
              arith,
              e,
              f,
              v.apart i (j - 1) (omega (arith, p, q)) (omega (arith, l, q, more.count)),
            )
        pairs (inr (inl (p, e))) (inl (q, f)) = absurd (omega (arith, p, q, lt))
        pairs (inr (inl (p, e))) (inr (inl (q, f))) = absurd (omega (arith, p, q, lt))
        pairs (inr (inl (p, e))) (inr (inr (q, f))) =
            omega (arith, e, f, highs (j - 1) (omega (arith, q)) (omega (arith, l, q, more.count)))
        pairs (inr (inr (p, e))) (inl (q, f)) = absurd (omega (arith, p, q, lt))
        pairs (inr (inr (p, e))) (inr (inl (q, f))) = absurd (omega (arith, p, q, lt))
        pairs (inr (inr (p, e))) (inr (inr (q, f))) = omega (
          arith,
          e,
          f,
          v.apart (i - 1) (j - 1) (omega (arith, p, lt)) (omega (arith, l, q, more.count)),
        )

    new-IsPool : pool.regions.current_cnt < pool.regions.total_cnt → IsPool (with_array pool b)
    new-IsPool room = record {
      inited = more.frame.inited ∙ v.inited;
      static = more.frame.dynamic ∙ v.static;
      compare = more.frame.compare ∙ v.compare;
      fits = omega (arith, more.count, more.frame.total, room);
      size_pos = v.size_pos;
      apart = new_apart;
    }

  new-Holds : (r : ℕ) → Holds (with_array pool b) r ↔ (Holds pool r ⊎ (r ≡ region))
  new-Holds r = (forth, back)
    where
      forth : Holds (with_array pool b) r → Holds pool r ⊎ (r ≡ region)
      forth (j, l, e) = elim (new_cell j (omega (arith, l, more.count))) [
        | inl (p, f) ↦ inl (j, omega (arith, p, le), sym f ∙ e)
        | inr (inl (p, f)) ↦ inr (sym e ∙ f)
        | inr (inr (p, f)) ↦ inl (j - 1, omega (arith, p, l, more.count), sym f ∙ e)
      ]

      back : Holds pool r ⊎ (r ≡ region) → Holds (with_array pool b) r
      back (inr e) = (k, omega (arith, le, more.count), more.here ∙ sym e)
      back (inl (j, l, e)) = elim (Bool-cases (ltb j k)) [
        | inl low ↦ (j, omega (arith, l, more.count), more.low j (ground arith) ∙ e)
        | inr high ↦ (j + 1, omega (arith, l, more.count), more.high j (ground arith) l ∙ e)
      ]

-- Where the search from the right ends, the new region fits between its neighbours.
module _ (pool : Pool) (v : IsPool pool) (region k : ℕ) (unused : Free pool region)
    (split : RightSplit pool.regions.slots cmp_region_addr region pool.regions.current_cnt k
      k) where
  below_it : (i : ℕ) → i < k → pool.regions.slots i + pool.region_size ≤ region
  below_it i h =
      let low : pool.regions.slots i ≤ region =
        cmp-not_below region (pool.regions.slots i) (split.lows i h) in
      elim (unused i (omega (arith, h, split.inside))) [
        | inl before ↦ before
        | inr behind ↦ absurd (omega (arith, low, behind, v.size_pos))
      ]

  above_it :
      (i : ℕ)
      → k ≤ i
      → i < pool.regions.current_cnt
      → region + pool.region_size ≤ pool.regions.slots i
  above_it i h l =
      let high : region < pool.regions.slots i =
        cmp-below region (pool.regions.slots i) (split.highs i h l) in
      elim (unused i l) [ inl before ↦ absurd (omega (arith, high, before)) | inr behind ↦ behind ]

  not_there : (ltb 0 k && is_same (cmp_region_addr region (pool.regions.slots (k - 1)))) ≡ false
  not_there = elim (Bool-cases (ltb 0 k)) [
    | inl some_below ↦
        let low = below_it (k - 1) (ground arith) in
        rw some_below (ground (arith, cmp-same region (pool.regions.slots (k - 1)), v.size_pos))
    | inr none_below ↦ rw none_below refl
  ]

-- On a valid pool with room for a region, and for a block that overlaps none of its regions,
-- `st_pagepool_add_region` terminates with success and leaves a valid pool that holds that block
-- and the regions it held.
pub add_region-IsPool :
    (pool : Pool) (region : ℕ)
    → IsPool pool
    → pool.regions.current_cnt < pool.regions.total_cnt
    → Free pool region
    → (new : Pool) × (add_region pool region ≡ done (new, ok))
      × IsPool new
      × ((r : ℕ) → Holds new r ↔ (Holds pool r ⊎ (r ≡ region)))
unfolding add_region
add_region-IsPool pool region v room unused =
    let (k, ran, split) =
      bsearch_right-RightSplit pool.regions region none cmp_region_addr v.inited v.compare
        (regions-IsOrdered pool v region) in
    let (b, put, more) =
      insert_one pool.regions k v.inited no_realloc region v.static split.inside room in
    (
      with_array pool b,
      rw (ran, ◌>>=◌, not_there pool v region k unused split, put) refl,
      new-IsPool pool v region k b more split.inside (below_it pool v region k unused split)
          (above_it pool v region k unused split) room,
      new-Holds pool v region k b more split.inside,
    )
