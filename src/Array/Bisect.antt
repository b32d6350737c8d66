-- ===== src/Array/Bisect.antt =====
-- The two binary searches find the borders of the run of equal elements.
use lua_sharedtable.Base.{
  ℕ, zero, suc, ◌+◌, ◌-◌, ◌/◌, ◌≤◌, ◌<◌, ◌≡◌, ◌≢◌, refl, sym, ◌∙◌, true, inl, inr, Option, some,
  arith, ltb, Bool-cases, Memory, Ret, ok, not_found, done,
}
use lua_sharedtable.Array.{below, same, above, Compare, StArray}
use lua_sharedtable.Array.Search.{
  left_loop, right_loop, bsearch_left, bsearch_right, chosen_compare,
}
use lua_sharedtable.Array.Order.{
  Sign-cases, IsOrdered, left_code, right_code, LeftSplit, RightSplit,
}

module _ {A : Type 0} (m : Memory A) (cmp : Compare A) (element : A) (cnt : ℕ) where
  module _ (fuel start end : ℕ) (ret : Ret) (more : ltb start end ≡ true) where
    abbrev middle : ℕ
    middle = (start + end) / 2

    left_above :
        cmp element (m middle) ≡ above
        → left_loop m cmp element (suc fuel) start end ret
          ≡ left_loop m cmp element fuel (middle + 1) end ret
    unfolding left_loop
    left_above up = rw (more, left_loop, up)

    left_same :
        cmp element (m middle) ≡ same
        → left_loop m cmp element (suc fuel) start end ret
          ≡ left_loop m cmp element fuel start middle ok
    unfolding left_loop
    left_same hit = rw (more, left_loop, hit)

    left_below :
        cmp element (m middle) ≡ below
        → left_loop m cmp element (suc fuel) start end ret
          ≡ left_loop m cmp element fuel start middle ret
    unfolding left_loop
    left_below down = rw (more, left_loop, down)

    right_below :
        cmp element (m middle) ≡ below
        → right_loop m cmp element (suc fuel) start end ret
          ≡ right_loop m cmp element fuel start middle ret
    unfolding right_loop
    right_below down = rw (more, right_loop, down)

    right_same :
        cmp element (m middle) ≡ same
        → right_loop m cmp element (suc fuel) start end ret
          ≡ right_loop m cmp element fuel (middle + 1) end ok
    unfolding right_loop
    right_same hit = rw (more, right_loop, hit)

    right_above :
        cmp element (m middle) ≡ above
        → right_loop m cmp element (suc fuel) start end ret
          ≡ right_loop m cmp element fuel (middle + 1) end ret
    unfolding right_loop
    right_above up = rw (more, right_loop, up)

  code_same : (k : ℕ) → k < cnt → cmp element (m k) ≡ same → left_code m cmp element cnt k ≡ ok
  code_same k h e = let here : ltb k cnt ≡ true = ground arith in rw (here, e)

  module _ (ordered : IsOrdered m cmp element cnt) where
    -- Behind an element that is greater nothing is equal.
    code_below :
        (mid k : ℕ)
        → mid ≤ k
        → mid < cnt
        → cmp element (m mid) ≡ below
        → left_code m cmp element cnt k ≡ not_found
    code_below mid k le h e = elim (Bool-cases (ltb k cnt)) [
      | inl here ↦ rw (here, ordered.below_up mid k le (ground arith) e)
      | inr past ↦ rw past
    ]

    -- Before an element that is smaller nothing is equal.
    code_above :
        (mid k : ℕ)
        → k ≤ mid
        → mid < cnt
        → cmp element (m mid) ≡ above
        → right_code m cmp element cnt k ≡ not_found
    code_above mid k le h e = elim (Bool-cases (ltb 0 k)) [
      | inl here ↦ rw (here, ordered.above_down (k - 1) mid (ground arith) h e)
      | inr none_before ↦ rw none_before
    ]

    module _ (start end mid : ℕ) (s : LeftSplit m cmp element cnt start end)
        (p : (start ≤ mid) × (mid < end)) where
      left_up : cmp element (m mid) ≡ above → LeftSplit m cmp element cnt (mid + 1) end
      left_up up = record {
        le = omega arith;
        inside = s.inside;
        lows = λ i q. ordered.above_down i mid (omega arith) (omega (arith, s.inside)) up;
        highs = s.highs;
      }

      left_down : cmp element (m mid) ≢ above → LeftSplit m cmp element cnt start mid
      left_down not_up = record {
        le = p.0;
        inside = omega (arith, s.inside);
        lows = s.lows;
        highs = λ i q r up. not_up (ordered.above_down mid i q r up);
      }

    module _ (start end mid : ℕ) (s : RightSplit m cmp element cnt start end)
        (p : (start ≤ mid) × (mid < end)) where
      right_up : cmp element (m mid) ≢ below → RightSplit m cmp element cnt (mid + 1) end
      right_up not_down = record {
        le = omega arith;
        inside = s.inside;
        lows = λ i q down.
            not_down (ordered.below_up i mid (omega arith) (omega (arith, s.inside)) down);
        highs = s.highs;
      }

      right_down : cmp element (m mid) ≡ below → RightSplit m cmp element cnt start mid
      right_down down = record {
        le = p.0;
        inside = omega (arith, s.inside);
        lows = s.lows;
        highs = λ i q r. ordered.below_up mid i q r down;
      }

    left_loop-LeftSplit :
        (fuel start end : ℕ) (ret : Ret)
        → end - start < fuel
        → LeftSplit m cmp element cnt start end
        → ret ≡ left_code m cmp element cnt end
        → (k : ℕ) × (left_loop m cmp element fuel start end ret
            ≡ done (left_code m cmp element cnt k, k))
          × LeftSplit m cmp element cnt k k
    unfolding left_loop
    left_loop-LeftSplit zero start end ret enough s code = absurd (omega arith)
    left_loop-LeftSplit (suc fuel) start end ret enough s code = elim (Bool-cases (ltb start end)) [
      | inr over ↦
          let e : end ≡ start = ground (arith, s.le) in
          (start, rw (over, left_loop, code, e), rw e at s)
      | inl more ↦
          let mid : ℕ = (start + end) / 2 in
          let p : (start ≤ mid) × (mid < end) = (ground arith, ground arith) in
          let in_cnt : mid < cnt = omega (arith, s.inside) in
          elim (Sign-cases (cmp element (m mid))) [
            | inr (inr up) ↦
                let (k, ran, t) =
                  left_loop-LeftSplit fuel (mid + 1) end ret (ground arith)
                    (left_up start end mid s p up) code in
                (k, left_above fuel start end ret more up ∙ ran, t)
            | inr (inl hit) ↦
                let (k, ran, t) =
                  left_loop-LeftSplit fuel start mid ok (ground arith)
                    (left_down start end mid s p (λ up. cc)) (sym (code_same mid in_cnt hit)) in
                (k, left_same fuel start end ret more hit ∙ ran, t)
            | inl down ↦
                let (k, ran, t) =
                  left_loop-LeftSplit fuel start mid ret (ground arith)
                    (left_down start end mid s p (λ up. cc))
                    (code
                      ∙ code_below mid end (omega arith) in_cnt down
                      ∙ sym (code_below mid mid (omega arith) in_cnt down)) in
                (k, left_below fuel start end ret more down ∙ ran, t)
          ]
    ]

    right_loop-RightSplit :
        (fuel start end : ℕ) (ret : Ret)
        → end - start < fuel
        → RightSplit m cmp element cnt start end
        → ret ≡ right_code m cmp element cnt start
        → (k : ℕ) × (right_loop m cmp element fuel start end ret
            ≡ done (right_code m cmp element cnt k, k))
          × RightSplit m cmp element cnt k k
    unfolding right_loop
    right_loop-RightSplit zero start end ret enough s code = absurd (omega arith)
    right_loop-RightSplit (suc fuel) start end ret enough s code =
        elim (Bool-cases (ltb start end)) [
          | inr over ↦
              let e : end ≡ start = ground (arith, s.le) in
              (start, rw (over, right_loop, code), rw e at s)
          | inl more ↦
              let mid : ℕ = (start + end) / 2 in
              let p : (start ≤ mid) × (mid < end) = (ground arith, ground arith) in
              let in_cnt : mid < cnt = omega (arith, s.inside) in
              let back : mid + 1 - 1 ≡ mid = omega arith in
              let pos : ltb 0 (mid + 1) ≡ true = ground arith in
              elim (Sign-cases (cmp element (m mid))) [
                | inl down ↦
                    let (k, ran, t) =
                      right_loop-RightSplit fuel start mid ret (ground arith)
                        (right_down start end mid s p down) code in
                    (k, right_below fuel start end ret more down ∙ ran, t)
                | inr (inl hit) ↦
                    let (k, ran, t) =
                      right_loop-RightSplit fuel (mid + 1) end ok (ground arith)
                        (right_up start end mid s p (λ down. cc)) (rw (back, hit, pos) refl) in
                    (k, right_same fuel start end ret more hit ∙ ran, t)
                | inr (inr up) ↦
                    let (k, ran, t) =
                      right_loop-RightSplit fuel (mid + 1) end ret (ground arith)
                        (right_up start end mid s p (λ down. cc))
                        (code
                          ∙ code_above mid start p.0 in_cnt up
                          ∙ sym (rw (back, up, pos) refl)) in
                    (k, right_above fuel start end ret more up ∙ ran, t)
              ]
        ]

-- The comparison in use and the order of the elements, as a search on `a` sees them.
module _ {A : Type 0} (a : StArray A) (element : A) (compare : Option (Compare A)) (cmp : Compare A)
    (inited : a.inited ≡ true) (chosen : chosen_compare compare a ≡ some cmp)
    (ordered : IsOrdered a.slots cmp element a.current_cnt) where
  -- On an initialised array whose elements are in order as the comparison in use sees them beside
  -- `element`, `st_array_bsearch_left` terminates at the position with all smaller elements
  -- before it and none behind it, and returns `ST_OK` exactly if there is an element there and it
  -- is equal.
  pub bsearch_left-LeftSplit :
      (k : ℕ) × (bsearch_left (some a) (some element) compare
        ≡ done (left_code a.slots cmp element a.current_cnt k, k))
      × LeftSplit a.slots cmp element a.current_cnt k k
  unfolding bsearch_left
  bsearch_left-LeftSplit =
      rw (chosen, inited)
        (left_loop-LeftSplit a.slots cmp element a.current_cnt ordered (a.current_cnt + 1) 0
          a.current_cnt not_found (omega arith)
          (record {
            le = omega arith;
            inside = omega arith;
            lows = λ i h. absurd (omega arith);
            highs = λ i h l. absurd (omega arith);
          })
          (ground arith))

  -- On an initialised array whose elements are in order as the comparison in use sees them beside
  -- `element`, `st_array_bsearch_right` terminates at the position with no greater element before
  -- it and only greater ones behind it, and returns `ST_OK` exactly if there is an element before
  -- it and that one is equal.
  pub bsearch_right-RightSplit :
      (k : ℕ) × (bsearch_right (some a) (some element) compare
        ≡ done (right_code a.slots cmp element a.current_cnt k, k))
      × RightSplit a.slots cmp element a.current_cnt k k
  unfolding bsearch_right
  bsearch_right-RightSplit =
      rw (chosen, inited)
        (right_loop-RightSplit a.slots cmp element a.current_cnt ordered (a.current_cnt + 1) 0
          a.current_cnt not_found (omega arith)
          (record {
            le = omega arith;
            inside = omega arith;
            lows = λ i h. absurd (omega arith);
            highs = λ i h l. absurd (omega arith);
          })
          (ground arith))
