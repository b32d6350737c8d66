-- ===== src/RbTree/Cut.antt =====
-- A node with at most one child leaves its place to that child.
use lua_sharedtable.Base.{
  ℕ, ◌≡◌, ◌≢◌, refl, sym, ap, ◌∙◌, subst, ◌⊎◌, inl, inr, List, ◌∷◌, ◌++◌, arith,
}
use lua_sharedtable.NodeList.Linked.{
  In, Distinct, In-append, append-In, Distinct-append, Distinct-split,
}
use lua_sharedtable.RbTree.{Tree, set_parent}
use lua_sharedtable.RbTree.Deletion.{bypass}
use lua_sharedtable.RbTree.Shape.{
  Shape, tip, fork, Trail, top, in_left, in_right, inorder, around, outer, Holds, At,
  Distinct-around,
}
use lua_sharedtable.RbTree.Frame.{Filled, Slot, Holds-adopt, Above-refill}
use lua_sharedtable.RbTree.Rotate.{Attached, attached, Slot-outer, Holds-start}
use lua_sharedtable.RbTree.Rebalance.{Above-real}

-- The path is not empty.
abbrev pub IsInner : Trail → Type 0
IsInner top = ⊥
IsInner (in_left c x r up) = Unit {0}
IsInner (in_right c l x up) = Unit {0}

-- The pointer to `y` is set to `child`, and the parent of `child` to `v`.
pub record Cut (h : Tree) (up : Trail) (child v : ℕ) (h' : Tree) : Type 0 where
  pub filled : Filled h h' child up
  pub sides : (k : ℕ) → ¬ Slot up k → (h'.left k ≡ h.left k) × (h'.right k ≡ h.right k)
  pub parent_child : h'.parent child ≡ v
  pub parent_else : (k : ℕ) → k ≢ child → h'.parent k ≡ h.parent k
  pub color_same : (k : ℕ) → h'.color k ≡ h.color k
  pub end : h'.sentinel ≡ h.sentinel

bypass-Cut :
    (h : Tree) (up : Trail) (y z child v : ℕ)
    → IsInner up
    → Attached h y z up
    → Cut h up child v (set_parent child v (bypass y child h))
bypass-Cut h top y z child v inner at = absurd inner
bypass-Cut h (in_left c q s up) y z child v inner (root, par, at, qy, qz) = record {
  filled = (ground arith, ground arith, ground arith);
  sides = λ k free. (ground arith, ground arith);
  parent_child = ground arith;
  parent_else = λ k a. ground arith;
  color_same = λ k. ground arith;
  end = ground arith;
}
bypass-Cut h (in_right c s q up) y z child v inner (root, par, at, other, qy, qz) = record {
  filled = (ground arith, ground arith, ground arith);
  sides = λ k free. (ground arith, ground arith);
  parent_child = ground arith;
  parent_else = λ k a. ground arith;
  color_same = λ k. ground arith;
  end = ground arith;
}

pub Distinct-drop :
    (xs ys : List ℕ) (k : ℕ) → Distinct (xs ++ (k ∷ ys)) → Distinct (xs ++ ys) × (¬ In k (xs ++ ys))
Distinct-drop xs ys k d =
    let (dx, (out, dy), apart) = Distinct-split xs (k ∷ ys) d in
    (
      Distinct-append xs ys dx dy (λ j i i'. apart j i (inr i')),
      λ i. elim (In-append k xs ys i) [ inl j ↦ apart k j (inl refl) | inr j ↦ out j ],
    )

-- Of a fork, one subtree is empty and the other one is `t`.
abbrev pub OnlyChild : (l r t : Shape) → Type 0
OnlyChild l r t = ((l ≡ tip) × (r ≡ t)) ⊎ ((r ≡ tip) × (l ≡ t))

module _ (h : Tree) (up : Trail) (q c : ℕ) (l : Shape) (y : ℕ) (r : Shape) (t : Shape) (child v : ℕ)
    (w : At h up q y (fork c l y r)) (xs ys : List ℕ)
    (old : around up (inorder (fork c l y r)) ≡ xs ++ (y ∷ ys))
    (new : around up (inorder t) ≡ xs ++ ys) (holds : Holds h y child t)
    (inside : (k : ℕ) → In k (inorder t) → In k (inorder (fork c l y r))) (inner : IsInner up) where
  pub drop : Distinct (around up (inorder t)) × (¬ In y (around up (inorder t)))
  drop =
      let (d, out) = Distinct-drop xs ys y (subst Distinct old w.distinct) in
      (subst Distinct (sym new) d, λ i. out (subst (In y) new i))

  nodes :
      Distinct (inorder (fork c l y r))
      × Distinct (outer up)
      × ((k : ℕ) → In k (inorder (fork c l y r)) → ¬ In k (outer up))
  nodes = Distinct-around up (inorder (fork c l y r)) w.distinct

  y_inside : In y (inorder (fork c l y r))
  y_inside = append-In y (inorder l) (y ∷ inorder r) (inr (inl refl))

  outer-not_y : (k : ℕ) → In k (outer up) → k ≢ y
  outer-not_y k i e = nodes.2 y y_inside (subst (λ k. In k (outer up)) e i)

  outer-not_child : (k : ℕ) → In k (outer up) → k ≢ child
  outer-not_child k i e = elim (Holds-start h y child t holds) [
    | inl end ↦ Above-real h q y up k w.above i (e ∙ end)
    | inr j ↦ nodes.2 k (inside k (subst (λ k. In k (inorder t)) (sym e) j)) i
  ]

  pub cut : Cut h up child v (set_parent child v (bypass y child h))
  cut = bypass-Cut h up y y child v inner (
      attached h q y y up w.above (w.holds.2) (w.holds.1)
        (λ k i. (outer-not_y k i, outer-not_y k i)))

  -- The child is in the place of `y`.
  pub bypass-At :
      (child ≢ h.sentinel → v ≡ q) → At (set_parent child v (bypass y child h)) up q child t
  bypass-At right =
      let h' = set_parent child v (bypass y child h) in
      record {
        holds =
            Holds-adopt h h' y q child t
              (λ k i. cut.sides k (λ s. nodes.2 k (inside k i) (Slot-outer up k s)))
              (λ k i other. cut.parent_else k other) (λ k i. cut.color_same k)
              (λ real. cut.parent_child ∙ right real) cut.end
              ((Distinct-around up (inorder t) drop.0).0) holds;
        above =
            Above-refill h h' q y child up cut.filled (λ k i free. cut.sides k free)
              (λ k i. (cut.parent_else k (outer-not_child k i), cut.color_same k)) cut.end (nodes.1)
              w.above;
        distinct = drop.0;
        black_end = cut.color_same h'.sentinel ∙ (ap h.color cut.end ∙ w.black_end);
      }
