-- ===== src/PagePool/Drop.antt =====
-- `st_pagepool_remove_region`.
use lua_sharedtable.Base.{
  ℕ, ◌+◌, ◌-◌, ◌≤◌, ◌<◌, ◌≡◌, ◌≢◌, refl, sym, ap, ◌∙◌, ◌⊎◌, ◌↔◌, inl, inr, arith, true, false, ◌&&◌,
  Bool-cases, ltb, ◌==◌, none, ok, not_found, done, ◌>>=◌,
}
use lua_sharedtable.Array.{StArray}
use lua_sharedtable.Array.Order.{LeftSplit, is_same}
use lua_sharedtable.Array.One.{OneLess, remove_one}
use lua_sharedtable.Array.Bisect.{bsearch_left-LeftSplit}
use lua_sharedtable.PagePool.{Pool, cmp_region_addr, remove_region}
use lua_sharedtable.PagePool.Regions.{
  IsPool, cmp-above, cmp-not_above, cmp-same, regions-IsOrdered, slot_le,
}
use lua_sharedtable.PagePool.Change.{Holds, with_array}

module _ (pool : Pool) (v : IsPool pool) (region k : ℕ)
    (split : LeftSplit pool.regions.slots cmp_region_addr region pool.regions.current_cnt k k) where
  -- A region that the pool holds stands where the search from the left ends.
  held_there : Holds pool region → (k < pool.regions.current_cnt) × (pool.regions.slots k ≡ region)
  held_there (m, l, e) = elim (Bool-cases (ltb m k)) [
    | inl low ↦
        absurd
          (omega (arith, e, cmp-above region (pool.regions.slots m) (split.lows m (ground arith))))
    | inr high ↦
        let bound : k < pool.regions.current_cnt = ground arith in
        (
          bound,
          omega (
            arith,
            e,
            slot_le pool v k m (ground arith) l,
            cmp-not_above region (pool.regions.slots k) (split.highs k (omega arith) bound),
          ),
        )
  ]

  found_code :
      k < pool.regions.current_cnt
      → pool.regions.slots k ≡ region
      → (ltb k pool.regions.current_cnt && is_same (cmp_region_addr region (pool.regions.slots k)))
        ≡ true
  found_code l e = ground (arith, cmp-same region (pool.regions.slots k))

  missing_code :
      ¬ Holds pool region
      → (ltb k pool.regions.current_cnt && is_same (cmp_region_addr region (pool.regions.slots k)))
        ≡ false
  missing_code none_held = elim (Bool-cases (ltb k pool.regions.current_cnt)) [
    | inl bound ↦
        let other : pool.regions.slots k ≢ region = λ e. none_held (k, ground arith, e) in
        rw bound (ground (arith, cmp-same region (pool.regions.slots k), other))
    | inr past ↦ rw past refl
  ]

module _ (pool : Pool) (v : IsPool pool) (region k : ℕ) (b : StArray ℕ)
    (less : OneLess pool.regions b k) (bound : k < pool.regions.current_cnt)
    (there : pool.regions.slots k ≡ region) where
  -- The cells of the new array.
  old_cell :
      (j : ℕ)
      → j < b.current_cnt
      → ((j < k) × (b.slots j ≡ pool.regions.slots j))
        ⊎ ((k ≤ j) × (b.slots j ≡ pool.regions.slots (j + 1)))
  old_cell j l = elim (Bool-cases (ltb j k)) [
    | inl low ↦ inl (ground arith, less.low j (ground arith))
    | inr high ↦ inr (ground arith, less.high j (ground arith) l)
  ]

  less_apart : (i j : ℕ) → i < j → j < b.current_cnt → b.slots i + pool.region_size ≤ b.slots j
  less_apart i j lt l = pairs (old_cell i (omega (arith, lt, l))) (old_cell j l)
    where
      pairs :
          ((i < k) × (b.slots i ≡ pool.regions.slots i))
            ⊎ ((k ≤ i) × (b.slots i ≡ pool.regions.slots (i + 1)))
          → ((j < k) × (b.slots j ≡ pool.regions.slots j))
            ⊎ ((k ≤ j) × (b.slots j ≡ pool.regions.slots (j + 1)))
          → b.slots i + pool.region_size ≤ b.slots j
      pairs (inl (p, e)) (inl (q, f)) =
          omega (arith, e, f, v.apart i j lt (omega (arith, l, less.count)))
      pairs (inl (p, e)) (inr (q, f)) =
          omega (arith, e, f, v.apart i (j + 1) (omega (arith, lt)) (omega (arith, l, less.count)))
      pairs (inr (p, e)) (inl (q, f)) = absurd (omega (arith, p, q, lt))
      pairs (inr (p, e)) (inr (q, f)) =
          omega (
            arith,
            e,
            f,
            v.apart (i + 1) (j + 1) (omega (arith, lt)) (omega (arith, l, less.count)),
          )

  less-IsPool : IsPool (with_array pool b)
  less-IsPool = record {
    inited = less.frame.inited ∙ v.inited;
    static = less.frame.dynamic ∙ v.static;
    compare = less.frame.compare ∙ v.compare;
    fits = omega (arith, less.count, less.frame.total, v.fits);
    size_pos = v.size_pos;
    apart = less_apart;
  }

  -- No other cell holds the address of the region.
  alone : (j : ℕ) → j < pool.regions.current_cnt → pool.regions.slots j ≡ region → j ≡ k
  alone j l e = elim (Bool-cases (ltb j k)) [
    | inl low ↦ absurd (omega (arith, e, there, v.size_pos, v.apart j k (ground arith) bound))
    | inr high ↦ elim (Bool-cases (j == k)) [
      | inl same_index ↦ ground arith
      | inr past ↦ absurd (omega (arith, e, there, v.size_pos, v.apart k j (ground arith) l))
    ]
  ]

  less-Holds : (r : ℕ) → Holds (with_array pool b) r ↔ (Holds pool r × (r ≢ region))
  less-Holds r = (forth, back)
    where
      forth : Holds (with_array pool b) r → Holds pool r × (r ≢ region)
      forth (j, l, e) = elim (old_cell j l) [
        | inl (p, f) ↦ (
          (j, omega (arith, p, bound), sym f ∙ e),
          λ same_region.
              omega (arith, p, alone j (omega (arith, p, bound)) (sym f ∙ e ∙ same_region)),
        )
        | inr (p, f) ↦ (
          (j + 1, omega (arith, l, less.count), sym f ∙ e),
          λ same_region.
              omega
                (arith, p, alone (j + 1) (omega (arith, l, less.count)) (sym f ∙ e ∙ same_region)),
        )
      ]

      back : Holds pool r × (r ≢ region) → Holds (with_array pool b) r
      back ((j, l, e), other) = elim (Bool-cases (ltb j k)) [
        | inl low ↦ (j, ground (arith, less.count, bound), less.low j (ground arith) ∙ e)
        | inr high ↦ elim (Bool-cases (j == k)) [
          | inl same_index ↦
              let at : j ≡ k = ground arith in
              absurd (other (sym e ∙ ap pool.regions.slots at ∙ there))
          | inr past ↦
              let fits : j - 1 < b.current_cnt = ground (arith, less.count) in
              (
                j - 1,
                fits,
                less.high (j - 1) (ground arith) fits ∙ ap pool.regions.slots (ground arith) ∙ e,
              )
        ]
      ]

-- On a valid pool, `st_pagepool_remove_region` terminates with success for a region that the pool
-- holds, takes out that region and no other, and leaves a valid pool.
pub remove_region-IsPool :
    (pool : Pool) (region : ℕ)
    → IsPool pool
    → Holds pool region
    → (new : Pool) × (remove_region pool region ≡ done (new, ok))
      × IsPool new
      × ((r : ℕ) → Holds new r ↔ (Holds pool r × (r ≢ region)))
unfolding remove_region
remove_region-IsPool pool region v held =
    let (k, ran, split) =
      bsearch_left-LeftSplit pool.regions region none cmp_region_addr v.inited v.compare
        (regions-IsOrdered pool v region) in
    let (bound, there) = held_there pool v region k split held in
    let (b, took, less) = remove_one pool.regions k v.inited bound in
    (
      with_array pool b,
      rw (ran, ◌>>=◌, found_code pool v region k split bound there, took) refl,
      less-IsPool pool v region k b less bound there,
      less-Holds pool v region k b less bound there,
    )

-- On a valid pool that does not hold the region, `st_pagepool_remove_region` terminates, returns
-- `ST_NOT_FOUND` and changes nothing.
pub remove_region-missing :
    (pool : Pool) (region : ℕ)
    → IsPool pool
    → ¬ Holds pool region
    → remove_region pool region ≡ done (pool, not_found)
unfolding remove_region
remove_region-missing pool region v none_held =
    let (k, ran, split) =
      bsearch_left-LeftSplit pool.regions region none cmp_region_addr v.inited v.compare
        (regions-IsOrdered pool v region) in
    rw (ran, ◌>>=◌, missing_code pool v region k split none_held) refl
