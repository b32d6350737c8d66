-- ===== src/RbTree/Double.antt =====
-- The deletion of a node that has two children: the first node behind it takes its place.
use mathlib.Core.List.{append_assoc}
use lua_sharedtable.Base.{
  ℕ, ◌<◌, ◌≡◌, ◌≢◌, refl, sym, ap, ◌∙◌, subst, ◌⊎◌, inl, inr, List, [], ◌∷◌, ◌++◌, arith, true,
  false, ◌==◌, ==_iff, if◌then◌else◌, fun_ext,
}
use lua_sharedtable.NodeList.Linked.{In, Distinct, append-In}
use lua_sharedtable.RbTree.{Tree, set_parent, is_red}
use lua_sharedtable.RbTree.Deletion.{bypass, take_place, detach, delete_root, unlink}
use lua_sharedtable.RbTree.Shape.{
  Shape, tip, fork, Trail, top, in_left, in_right, plug, inorder, inorder-plug, around, around_eq,
  before, behind, outer, Holds, Above, At, rise_right, sink_right, Distinct-around,
}
use lua_sharedtable.RbTree.Rotate.{Holds-start}
use lua_sharedtable.RbTree.Balance.{Balanced, Hole}
use lua_sharedtable.RbTree.Round.{depth}
use lua_sharedtable.RbTree.Sibling.{Under}
use lua_sharedtable.RbTree.Rebalance.{Holds-real}
use lua_sharedtable.RbTree.Cut.{IsInner, Distinct-drop, Cut, cut, bypass-At}
use lua_sharedtable.RbTree.Take.{take_place-At, take_place-end}
use lua_sharedtable.RbTree.Single.{Unlinked, gone-Unlinked, bypass-parent, red_eq, inner_root}
use lua_sharedtable.RbTree.Inner.{
  extend, depth-extend, end_parent, unzip, rezip, around-extend, Hole-relabel, outer-extend,
}

set_parent-twice : (b v y : ℕ) (h : Tree) → set_parent b y (set_parent b v h) ≡ set_parent b y h
set_parent-twice b v y h = ap (λ (m : ℕ → ℕ). record h { parent = m }) (fun_ext (λ j. ground arith))

IsInner-extend :
    (i : Trail) (c : ℕ) (l : Shape) (x : ℕ) (up : Trail) → IsInner (extend i (in_right c l x up))
IsInner-extend top c l x up = tt
IsInner-extend (in_left c' k r i) c l x up = tt
IsInner-extend (in_right c' s k i) c l x up = tt

end-inner : (i : Trail) (y z : ℕ) → IsInner i → end_parent i y ≡ end_parent i z
end-inner top y z inner = absurd inner
end-inner (in_left c x r i) y z inner = refl
end-inner (in_right c l x i) y z inner = refl

end-far :
    (i : Trail) (c : ℕ) (l : Shape) (z : ℕ) (up : Trail)
    → IsInner i
    → Distinct (outer (extend i (in_right c l z up)))
    → end_parent i z ≢ z
end-far top c l z up inner d e = absurd inner
end-far (in_left c' x r i) c l z up inner (out, d) e = out (
    append-In x (inorder r) (outer (extend i (in_right c l z up)))
      (inr (outer-extend i (in_right c l z up) x (inl e))))
end-far (in_right c' s x i) c l z up inner (out, d) e = out (
    append-In x (inorder s) (outer (extend i (in_right c l z up)))
      (inr (outer-extend i (in_right c l z up) x (inl e))))

top_or_deeper : (i : Trail) → IsInner i ⊎ (i ≡ top)
top_or_deeper top = inr refl
top_or_deeper (in_left c x r i) = inl tt
top_or_deeper (in_right c l x i) = inl tt

-- The subtree below is as before, at the same address.
end-Under :
    (t : Shape) (h g : Tree) (up : Trail) (y q child b : ℕ)
    → Holds h y child t
    → At g up q b t
    → (child ≡ h.sentinel → (g.sentinel ≡ h.sentinel) × (g.parent h.sentinel ≡ q))
    → Under g up q child t
end-Under tip h g up y q child b holds w at_end =
    let (end, par) = at_end holds in
    record {
      at = subst (λ k. At g up q k tip) (w.holds ∙ (end ∙ sym holds)) w;
      par = ap g.parent holds ∙ par;
    }
end-Under (fork c l x r) h g up y q child b holds w at_end = record {
  at = subst (λ k. At g up q k (fork c l x r)) (w.holds.0 ∙ sym (holds.0)) w;
  par = ap g.parent (holds.0) ∙ w.holds.2;
}

module _ (h : Tree) (up : Trail) (p c : ℕ) (l : Shape) (z : ℕ) (i : Trail) (cy y : ℕ) (ry : Shape)
    (w : At h (extend i (in_right c l z up)) (end_parent i z) y (fork cy tip y ry))
    (order : around i (y ∷ inorder ry) ≡ y ∷ inorder (plug i ry)) where
  abbrev U : Trail
  U = extend i (in_right c l z up)

  abbrev ahead : List ℕ
  ahead = before up ++ inorder l

  abbrev rest : List ℕ
  rest = inorder (plug i ry) ++ behind up

  old_order : around U (inorder (fork cy tip y ry)) ≡ (ahead ++ (z ∷ [])) ++ (y ∷ rest)
  old_order =
      around-extend i (in_right c l z up) (y ∷ inorder ry)
      ∙ (ap (λ xs. around up (inorder l ++ (z ∷ xs))) order
          ∙ (around_eq up (inorder l ++ (z ∷ (y ∷ inorder (plug i ry)))) ∙ simp append_assoc))

  new_order : around U (inorder ry) ≡ (ahead ++ (z ∷ [])) ++ rest
  new_order =
      around-extend i (in_right c l z up) (inorder ry)
      ∙ (ap (λ xs. around up (inorder l ++ (z ∷ xs))) (sym (inorder-plug i ry))
          ∙ (around_eq up (inorder l ++ (z ∷ inorder (plug i ry))) ∙ simp append_assoc))

  all_distinct : Distinct (ahead ++ (z ∷ (y ∷ rest)))
  all_distinct = subst Distinct (old_order ∙ append_assoc ahead (z ∷ []) (y ∷ rest)) w.distinct

  placed_order : around up (inorder (fork c l y (plug i ry))) ≡ ahead ++ (y ∷ rest)
  placed_order = around_eq up (inorder l ++ (y ∷ inorder (plug i ry))) ∙ simp append_assoc

  placed_distinct : Distinct (around up (inorder (fork c l y (plug i ry))))
  placed_distinct =
      subst Distinct (sym placed_order) ((Distinct-drop ahead (y ∷ rest) z all_distinct).0)

  z-not_y : z ≢ y
  z-not_y e =
      (Distinct-drop ahead (y ∷ rest) z all_distinct).1 (append-In z ahead (y ∷ rest) (inr (inl e)))

  abbrev child : ℕ
  child = h.right y

  abbrev h0 : Tree
  h0 = bypass y child h

  inside : (k : ℕ) → In k (inorder ry) → In k (inorder (fork cy tip y ry))
  inside k j = inr j

  bypassed_At :
      (v : ℕ)
      → (child ≢ h.sentinel → v ≡ end_parent i z)
      → At (set_parent child v h0) U (end_parent i z) child ry
  bypassed_At v right =
      bypass-At h U (end_parent i z) cy tip y ry ry child v w (ahead ++ (z ∷ [])) rest old_order
        new_order (w.holds.5) inside (IsInner-extend i c l z up) right

  cut_At :
      (v : ℕ)
      → (child ≢ h.sentinel → v ≡ end_parent i z)
      → At (set_parent child v h0) up ((set_parent child v h0).parent z) z (fork c l z (plug i ry))
  cut_At v right = rise_right (rezip i (bypassed_At v right)).2

  bypassed : (v : ℕ) → Cut h U child v (set_parent child v h0)
  bypassed v =
      cut h U (end_parent i z) cy tip y ry ry child v w (ahead ++ (z ∷ [])) rest old_order new_order
        (w.holds.5) inside (IsInner-extend i c l z up)

  -- The tree in front of `take_place`, and behind it.
  abbrev hX : Tree
  hX = if h0.parent y == z then set_parent child y h0 else set_parent child (h0.parent y) h0

  abbrev hF : Tree → Tree
  hF g = detach z (take_place z y g)

  from_y : h0.parent y ≡ end_parent i z
  from_y = bypass-parent h y child y ∙ w.holds.2

  sunk-Under :
      (g : Tree) (q : ℕ)
      → At g up q y (fork c l y (plug i ry))
      → (child ≡ h.sentinel → (g.sentinel ≡ h.sentinel) × (g.parent h.sentinel ≡ end_parent i y))
      → Under g (extend i (in_right c l y up)) (end_parent i y) child ry
  sunk-Under g q v at_end =
      let (b, u) = unzip i (sink_right v) in
      end-Under ry h g (extend i (in_right c l y up)) y (end_parent i y) child b (w.holds.5) u
        at_end

  -- The parent of the child is what it has to be.
  direct-Under :
      (v : ℕ)
      → (child ≢ h.sentinel → v ≡ end_parent i z)
      → (child ≡ h.sentinel → v ≡ end_parent i y)
      → Under (hF (set_parent child v h0)) (extend i (in_right c l y up)) (end_parent i y) child ry
  direct-Under v real at_end =
      let g = set_parent child v h0 in
      let wg = cut_At v real in
      let cg = bypassed v in
      let y_real : y ≢ g.sentinel = λ e. w.holds.1 (e ∙ cg.end) in
      let (sp, se) =
        take_place-end g up (g.parent z) z y c l (plug i ry) wg placed_distinct z-not_y y_real in
      let (wF, _) =
        take_place-At g up (g.parent z) z y c l (plug i ry) wg placed_distinct z-not_y y_real
          child in
      sunk-Under (hF g) (g.parent z) wF (λ e. (
        se ∙ cg.end,
        ap (hF g).parent (sym cg.end)
            ∙ (sp ∙ (ap g.parent (cg.end ∙ sym e) ∙ (cg.parent_child ∙ at_end e))),
      ))

  inner-Under : IsInner i → Under (hF hX) (extend i (in_right c l y up)) (end_parent i y) child ry
  inner-Under inner =
      let (_, d, _) = Distinct-around U (inorder (fork cy tip y ry)) w.distinct in
      let far : h0.parent y ≢ z = λ e. end-far i c l z up inner d (sym from_y ∙ e) in
      let test : (h0.parent y == z) ≡ false = ground arith in
      let v = h0.parent y in
      subst (λ g. Under (hF g) (extend i (in_right c l y up)) (end_parent i y) child ry)
        (sym (λ k. if test k then set_parent child y h0 else set_parent child v h0))
        (direct-Under v (λ real. from_y) (λ e. from_y ∙ sym (end-inner i y z inner)))

  -- The child is the right child of the deleted node.
  beside-Under :
      i ≡ top
      → In child (inorder ry)
      → Under (hF (set_parent child y h0)) (extend i (in_right c l y up)) (end_parent i y) child ry
  beside-Under e j =
      let v = h0.parent y in
      let g = set_parent child v h0 in
      let wg = cut_At v (λ real. from_y) in
      let w1 = bypassed_At v (λ real. from_y) in
      let end = (bypassed v).end in
      let real : child ≢ h.sentinel = Holds-real h y child ry child (w.holds.5) j in
      let here : g.right z ≡ child =
        (subst (λ i. Above g (end_parent i z) child (extend i (in_right c l z up))) e w1.above).1 in
      let wF =
        (take_place-At g up (g.parent z) z y c l (plug i ry) wg placed_distinct z-not_y
            (λ e. w.holds.1 (e ∙ end)) child).1
          (sym here) (λ e. real (e ∙ end)) in
      sunk-Under (hF (set_parent child y h0)) (g.parent z)
        (subst (λ g'. At (hF g') up (g.parent z) y (fork c l y (plug i ry)))
          (set_parent-twice child v y h0) wF)
        (λ e. absurd (real e))

  top-Under : i ≡ top → Under (hF hX) (extend i (in_right c l y up)) (end_parent i y) child ry
  top-Under e =
      let v = h0.parent y in
      let at : v ≡ z = from_y ∙ ap (λ i. end_parent i z) e in
      let test : (v == z) ≡ true = (==_iff v z).1 at in
      subst (λ g. Under (hF g) (extend i (in_right c l y up)) (end_parent i y) child ry)
        (sym (λ k. if test k then set_parent child y h0 else set_parent child v h0))
        (elim (Holds-start h y child ry (w.holds.5)) [
          | inl end ↦
              direct-Under y (λ real. absurd (real end)) (λ m. sym (ap (λ i. end_parent i y) e))
          | inr j ↦ beside-Under e j
        ])

  pub placed-Under : Under (hF hX) (extend i (in_right c l y up)) (end_parent i y) child ry
  placed-Under = elim (top_or_deeper i) [ inl inner ↦ inner-Under inner | inr e ↦ top-Under e ]

  -- What the deletion leaves in front of its loop.
  pub double-Unlinked :
      (n bound : ℕ)
      → Balanced (fork cy tip y ry) n
      → Hole U n
      → child ≢ 0
      → depth U < bound
      → Unlinked
          (unlink z y child h).0
          (unlink z y child h).1
          (around up (inorder l ++ (y ∷ inorder (plug i ry))))
          bound
  double-Unlinked n bound balanced hole real near =
      let deep = inner_root U (IsInner-extend i c l z up) w in
      let other : (y == z) ≡ false = let e = z-not_y in ground arith in
      let last = if is_red h y then 0 else child in
      let e : unlink z y child h ≡ (hF hX, last) = λ k.
        if deep k then (delete_root z child h, 0) else (
          detach z (if other k then set_parent child (h0.parent y) h0 else take_place z y hX),
          last,
        ) in
      let V = extend i (in_right c l y up) in
      let order' : around V (inorder ry) ≡ around up (inorder l ++ (y ∷ inorder (plug i ry))) =
        around-extend i (in_right c l y up) (inorder ry)
        ∙ ap (λ xs. around up (inorder l ++ (y ∷ xs))) (sym (inorder-plug i ry)) in
      let deep_as = depth-extend i (in_right c l y up) in
      let deep_was = depth-extend i (in_right c l z up) in
      subst (λ g. Unlinked g.0 g.1 (around up (inorder l ++ (y ∷ inorder (plug i ry)))) bound)
        (sym e)
        (subst (λ xs. Unlinked (hF hX) last xs bound) order'
          (gone-Unlinked (hF hX) V (end_parent i y) child cy tip y ry ry n bound (is_red h y)
            placed-Under (inl (refl, refl)) balanced (Hole-relabel i c l z y up n hole)
            (red_eq h y cy (w.holds.3)) real (omega arith)))
