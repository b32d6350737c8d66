-- ===== src/RbTree/Search.antt =====
-- `st_rbtree_search`.
use mathlib.Core.List.{append_assoc}
use lua_sharedtable.Base.{
  ℕ, zero, suc, ◌<◌, ◌≤◌, ◌≡◌, ◌≢◌, refl, sym, ap, ◌∙◌, subst, ◌⊎◌, inl, inr, List, [], ◌∷◌, ◌++◌,
  arith, true, false, ◌==◌, ==_iff, some, Memory, write, Run, done, if◌then◌else◌,
}
use lua_sharedtable.NodeList.Linked.{In, In-append, append-In}
use lua_sharedtable.RbTree.{Tree, ℤ, pos, negsuc, Compare, is_negative}
use lua_sharedtable.RbTree.Lookup.{
  side_left, side_eq, side_right, side_left_eq, side_right_eq, side_strip_eq, side_has_eq,
  search_loop, search_step, search, branches,
}
use lua_sharedtable.RbTree.Shape.{
  Shape, tip, fork, Trail, top, in_left, in_right, inorder, around, around_eq, In-around, before,
  behind, At, IsTree, sink_left, sink_right,
}
use lua_sharedtable.RbTree.Order.{IsOrder, below, beyond, Sorted, Sorted-split}
use lua_sharedtable.RbTree.Descend.{height}
use lua_sharedtable.RbTree.Ends.{first_or, last_or, last_or-append_one}

-- The five sides that a caller may ask for.
abbrev pub IsSide : (side : ℕ) → Type 0
IsSide side =
    (side ≡ side_left)
    ⊎ ((side ≡ side_eq) ⊎ ((side ≡ side_right) ⊎ ((side ≡ side_left_eq) ⊎ (side ≡ side_right_eq))))

-- The callback returns -1, 0 or 1.
abbrev pub IsUnit : ℤ → Type 0
IsUnit z = (z ≡ negsuc 0) ⊎ ((z ≡ pos 0) ⊎ (z ≡ pos 1))

-- The node nearest to the target, from those before and behind it.
abbrev pub nearest : (side : ℕ) → (ys zs : List ℕ) → ℕ
nearest side ys zs =
    if side_strip_eq side == side_left
    then last_or 0 ys
    else if side_strip_eq side == side_right
    then first_or 0 zs
    else 0

module _ (cmp : Compare) (h : Tree) (target side : ℕ) (xs : List ℕ) where
  -- `k` is before the target, or equal where the search wants a greater node.
  abbrev pub IsLow : (k : ℕ) → Type 0
  IsLow k = (cmp k target ≡ negsuc 0) ⊎ ((cmp k target ≡ pos 0) × (side ≡ side_right))

  abbrev pub IsHigh : (k : ℕ) → Type 0
  IsHigh k = (cmp k target ≡ pos 1) ⊎ ((cmp k target ≡ pos 0) × (side ≡ side_left))

  -- An equal node where one is wanted; otherwise there is none, or none is wanted, and the result
  -- is the nearest node on the side.
  abbrev pub SearchOutcome : (result : ℕ) → Type 0
  SearchOutcome result =
      ((side_has_eq side ≡ true) × In result xs × (cmp result target ≡ pos 0))
      ⊎ ((ys : List ℕ) × (zs : List ℕ) × (xs ≡ ys ++ zs)
          × ((k : ℕ) → In k ys → IsLow k)
          × ((k : ℕ) → In k zs → IsHigh k)
          × (result ≡ nearest side ys zs))

  record Seek (up : Trail) (p a : ℕ) (t : Shape) (ler : Memory ℕ) : Type 0 where
    at : At h up p a t
    low : (k : ℕ) → In k (before up) → IsLow k
    high : (k : ℕ) → In k (behind up) → IsHigh k
    sorted : Sorted cmp (inorder t)
    units : (k : ℕ) → In k (inorder t) → IsUnit (cmp k target)
    order : around up (inorder t) ≡ xs
    at_left : side ≢ side_right → ler 0 ≡ last_or 0 (before up)
    at_right : side ≢ side_left → ler 2 ≡ first_or 0 (behind up)
    at_eq : ler 1 ≡ 0

  -- The search ends under `a`.
  Seek-nearest :
      (up : Trail) (p a : ℕ) (ler : Memory ℕ)
      → IsSide side
      → Seek up p a tip ler
      → SearchOutcome (ler (side_strip_eq side))
  Seek-nearest up p a ler is_side s = inr (
    before up,
    behind up,
    sym s.order ∙ around_eq up [],
    s.low,
    s.high,
    elim is_side [
      | inl e ↦ rw e (s.at_left (λ f. absurd (ground (arith, e, f))))
      | inr (inl e) ↦ rw e s.at_eq
      | inr (inr (inl e)) ↦ rw e (s.at_right (λ f. absurd (ground (arith, e, f))))
      | inr (inr (inr (inl e))) ↦ rw e (s.at_left (λ f. absurd (ground (arith, e, f))))
      | inr (inr (inr (inr e))) ↦ rw e (s.at_right (λ f. absurd (ground (arith, e, f))))
    ],
  )

  module _ (laws : IsOrder cmp) where
    -- Nodes before one that is low are low, and those behind one that is high are high.
    low_before :
        (x k : ℕ) → is_negative (cmp x k) ≡ false → IsUnit (cmp k target) → IsLow x → IsLow k
    low_before x k le unit lx =
        ground
          (arith, below laws x target k, beyond laws k target x, laws.flip x target, laws.flip k x)

    high_behind :
        (x k : ℕ) → is_negative (cmp k x) ≡ false → IsUnit (cmp k target) → IsHigh x → IsHigh k
    high_behind x k le unit hx =
        ground
          (arith, beyond laws x target k, below laws k target x, laws.flip k target, laws.flip x k)

    go_right :
        (up : Trail) (p a c : ℕ) (l : Shape) (x : ℕ) (r : Shape) (ler ler' : Memory ℕ)
        → Seek up p a (fork c l x r) ler
        → IsLow x
        → (side ≢ side_right → ler' 0 ≡ x)
        → ler' 1 ≡ ler 1
        → ler' 2 ≡ ler 2
        → Seek (in_right c l x up) x (h.right x) r ler'
    go_right up p a c l x r ler ler' s lx same0 same1 same2 =
        let (sl, (first, sr), between) = Sorted-split cmp (inorder l) (x ∷ inorder r) s.sorted in
        record {
          at = sink_right s.at;
          low = λ k i. elim (In-append k (before up) (inorder l ++ (x ∷ [])) i) [
            | inl j ↦ s.low k j
            | inr j ↦ elim (In-append k (inorder l) (x ∷ []) j) [
              | inl at_l ↦
                  low_before x k (between k x at_l (inl refl))
                    (s.units k (append-In k (inorder l) (x ∷ inorder r) (inl at_l))) lx
              | inr (inl e) ↦ subst IsLow (sym e) lx
              | inr (inr f) ↦ absurd f
            ]
          ];
          high = s.high;
          sorted = sr;
          units = λ k i. s.units k (append-In k (inorder l) (x ∷ inorder r) (inr (inr i)));
          order = s.order;
          at_left = λ other.
              same0 other
              ∙ sym (
                  ap (last_or 0) (sym (append_assoc (before up) (inorder l) (x ∷ [])))
                  ∙ last_or-append_one 0 (before up ++ inorder l) x);
          at_right = λ other. same2 ∙ s.at_right other;
          at_eq = same1 ∙ s.at_eq;
        }

    go_left :
        (up : Trail) (p a c : ℕ) (l : Shape) (x : ℕ) (r : Shape) (ler ler' : Memory ℕ)
        → Seek up p a (fork c l x r) ler
        → IsHigh x
        → (side ≢ side_left → ler' 2 ≡ x)
        → ler' 1 ≡ ler 1
        → ler' 0 ≡ ler 0
        → Seek (in_left c x r up) x (h.left x) l ler'
    go_left up p a c l x r ler ler' s hx same2 same1 same0 =
        let (sl, (first, sr), between) = Sorted-split cmp (inorder l) (x ∷ inorder r) s.sorted in
        record {
          at = sink_left s.at;
          low = s.low;
          high = λ k i. elim i [
            | inl e ↦ subst IsHigh (sym e) hx
            | inr i ↦ elim (In-append k (inorder r) (behind up) i) [
              | inl at_r ↦
                  high_behind x k (first k at_r)
                    (s.units k (append-In k (inorder l) (x ∷ inorder r) (inr (inr at_r)))) hx
              | inr j ↦ s.high k j
            ]
          ];
          sorted = sl;
          units = λ k i. s.units k (append-In k (inorder l) (x ∷ inorder r) (inl i));
          order = s.order;
          at_left = λ other. same0 ∙ s.at_left other;
          at_right = same2;
          at_eq = same1 ∙ s.at_eq;
        }

    -- The search under `a` ends with a right result.
    abbrev Ends : (fuel a : ℕ) → Memory ℕ → Type 0
    Ends fuel a ler =
        (result : ℕ) × (search_loop cmp h target side fuel a ler ≡ done result)
        × SearchOutcome result

    abbrev SeekEnds : Shape → Type 0
    SeekEnds t =
        (up : Trail) (p a fuel : ℕ) (ler : Memory ℕ)
        → IsSide side
        → Seek up p a t ler
        → height t < fuel
        → Ends fuel a ler

    loop_end :
        (fuel a : ℕ) (ler : Memory ℕ)
        → a ≡ h.sentinel
        → search_loop cmp h target side (suc fuel) a ler ≡ done (ler (side_strip_eq side))
    unfolding search_loop
    loop_end fuel a ler e =
        let test : (a == h.sentinel) ≡ true = (==_iff a h.sentinel).1 e in
        rw (test, search_loop) refl

    loop_step :
        (fuel x : ℕ) (ler : Memory ℕ) (ret : ℤ)
        → x ≢ h.sentinel
        → cmp x target ≡ ret
        → search_loop cmp h target side (suc fuel) x ler
          ≡ search_step side x ler (λ at. search_loop cmp h target side fuel (branches h x at)) ret
    unfolding search_loop
    loop_step fuel x ler ret real e =
        let test : (x == h.sentinel) ≡ false = ground arith in
        rw (test, search_loop)
          (ap (search_step side x ler (λ at. search_loop cmp h target side fuel (branches h x at)))
            e)

    abbrev after : (fuel x : ℕ) → ℕ → Memory ℕ → Run ℕ
    after fuel x at = search_loop cmp h target side fuel (branches h x at)

    equal_goes :
        (x to : ℕ) (ler : Memory ℕ) (rest : ℕ → Memory ℕ → Run ℕ)
        → side ≡ to
        → side_has_eq to ≡ false
        → search_step side x ler rest (pos 0) ≡ rest (side_strip_eq to) ler
    equal_goes x to ler rest e none_wanted =
        ap (λ t. search_step t x ler rest (pos 0)) e ∙ rw (none_wanted, search_step) refl

    equal_ends :
        (x : ℕ) (ler : Memory ℕ) (rest : ℕ → Memory ℕ → Run ℕ)
        → side_has_eq side ≡ true
        → search_step side x ler rest (pos 0) ≡ done x
    equal_ends x ler rest wanted = rw (wanted, search_step) refl

    found-Ends :
        (c : ℕ) (l : Shape) (x : ℕ) (r : Shape) (up : Trail) (p fuel : ℕ) (ler : Memory ℕ)
        → Seek up p x (fork c l x r) ler
        → cmp x target ≡ pos 0
        → side_has_eq side ≡ true
        → Ends (suc fuel) x ler
    found-Ends c l x r up p fuel ler s e wanted = (
      x,
      loop_step fuel x ler (pos 0) (s.at.holds.1) e ∙ equal_ends x ler (after fuel x) wanted,
      inl (
        wanted,
        subst (In x) s.order (
            In-around up (inorder (fork c l x r)) x
              (append-In x (inorder l) (x ∷ inorder r) (inr (inl refl)))),
        e,
      ),
    )

    -- A round at `x`, by what the callback returns.
    round-Ends :
        (c : ℕ) (l : Shape) (x : ℕ) (r : Shape) (up : Trail) (p fuel : ℕ) (ler : Memory ℕ)
        → IsSide side
        → Seek up p x (fork c l x r) ler
        → height (fork c l x r) ≤ fuel
        → SeekEnds l
        → SeekEnds r
        → IsUnit (cmp x target)
        → Ends (suc fuel) x ler
    round-Ends c l x r up p fuel ler is_side s enough ih_l ih_r (inl e) =
        let next =
          ih_r (in_right c l x up) x (h.right x) fuel (write ler 0 x) is_side
            (go_right up p x c l x r ler (write ler 0 x) s (inl e) (λ other. ground arith)
              (ground arith) (ground arith))
            (omega arith) in
        (next.0, loop_step fuel x ler (negsuc 0) (s.at.holds.1) e ∙ next.1, next.2)
    round-Ends c l x r up p fuel ler is_side s enough ih_l ih_r (inr (inr e)) =
        let next =
          ih_l (in_left c x r up) x (h.left x) fuel (write ler 2 x) is_side
            (go_left up p x c l x r ler (write ler 2 x) s (inl e) (λ other. ground arith)
              (ground arith) (ground arith))
            (omega arith) in
        (next.0, loop_step fuel x ler (pos 1) (s.at.holds.1) e ∙ next.1, next.2)
    round-Ends c l x r up p fuel ler (inl is) s enough ih_l ih_r (inr (inl e)) =
        let next =
          ih_l (in_left c x r up) x (h.left x) fuel ler (inl is)
            (go_left up p x c l x r ler ler s (inr (e, is)) (λ other. absurd (other is)) refl refl)
            (omega arith) in
        (
          next.0,
          loop_step fuel x ler (pos 0) (s.at.holds.1) e
              ∙ (equal_goes x 0 ler (after fuel x) is refl ∙ next.1),
          next.2,
        )
    round-Ends c l x r up p fuel ler (inr (inr (inl is))) s enough ih_l ih_r (inr (inl e)) =
        let next =
          ih_r (in_right c l x up) x (h.right x) fuel ler (inr (inr (inl is)))
            (go_right up p x c l x r ler ler s (inr (e, is)) (λ other. absurd (other is)) refl refl)
            (omega arith) in
        (
          next.0,
          loop_step fuel x ler (pos 0) (s.at.holds.1) e
              ∙ (equal_goes x 2 ler (after fuel x) is refl ∙ next.1),
          next.2,
        )
    round-Ends c l x r up p fuel ler (inr (inl is)) s enough ih_l ih_r (inr (inl e)) =
        found-Ends c l x r up p fuel ler s e (ap side_has_eq is)
    round-Ends c l x r up p fuel ler (inr (inr (inr (inl is)))) s enough ih_l ih_r (inr (inl e)) =
        found-Ends c l x r up p fuel ler s e (ap side_has_eq is)
    round-Ends c l x r up p fuel ler (inr (inr (inr (inr is)))) s enough ih_l ih_r (inr (inl e)) =
        found-Ends c l x r up p fuel ler s e (ap side_has_eq is)

    loop-Ends : (t : Shape) → SeekEnds t
    loop-Ends tip up p a zero ler is_side s enough = absurd (omega arith)
    loop-Ends (fork c l x r) up p a zero ler is_side s enough = absurd (omega arith)
    loop-Ends tip up p a (suc fuel) ler is_side s enough = (
      ler (side_strip_eq side),
      loop_end fuel a ler s.at.holds,
      Seek-nearest up p a ler is_side s,
    )
    loop-Ends (fork c l x r) up p a (suc fuel) ler is_side s enough =
        let here = s.at.holds.0 in
        let s' = subst (λ a. Seek up p a (fork c l x r) ler) here s in
        subst (λ a. Ends (suc fuel) a ler) (sym here)
          (round-Ends c l x r up p fuel ler is_side s' (omega arith) (loop-Ends l) (loop-Ends r)
            (s.units x (append-In x (inorder l) (x ∷ inorder r) (inr (inl refl)))))

-- On a tree sorted by a `cmp` that orders the nodes and returns -1, 0 or 1 for them, for a target
-- that is not null, one of the five sides, and more fuel than the tree is high,
-- `st_rbtree_search` terminates. It returns a node equal to the target where the side allows one,
-- or the node nearest to the target on the wanted side, null if there is none; for the side `eq`
-- this is null. Equal nodes count as beyond the target where the side does not allow them, and
-- there is none where it does and this result is given.
pub search-nearest :
    (cmp : Compare) (laws : IsOrder cmp) (h : Tree) (t : Shape) (target side fuel : ℕ)
    → IsTree h t
    → Sorted cmp (inorder t)
    → ((k : ℕ) → In k (inorder t) → IsUnit (cmp k target))
    → target ≢ 0
    → IsSide side
    → height t < fuel
    → (result : ℕ) × (search cmp (some h) target side fuel ≡ done result)
      × SearchOutcome cmp h target side (inorder t) result
unfolding search
search-nearest cmp laws h t target side fuel (p, w) sorted units real is_side enough =
    let test : (target == 0) ≡ false = ground arith in
    let (result, run, outcome) =
      loop-Ends cmp h target side (inorder t) laws t top p h.root fuel (λ k. 0) is_side
        (record {
          at = w;
          low = λ k i. absurd i;
          high = λ k i. absurd i;
          sorted = sorted;
          units = units;
          order = refl;
          at_left = λ other. refl;
          at_right = λ other. refl;
          at_eq = refl;
        })
        enough in
    (result, rw (test, search) run, outcome)
