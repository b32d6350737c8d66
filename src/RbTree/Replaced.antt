-- ===== src/RbTree/Replaced.antt =====
-- A node takes the place of another one: `st_rbtree_replace`, and a part of `delete_node`.
use lua_sharedtable.Base.{ℕ, ◌≡◌, ◌≢◌, refl, sym, ap, ◌∙◌, subst, ◌⊎◌, inl, inr, ◌∷◌}
use lua_sharedtable.NodeList.Linked.{In, Distinct, In-apart, append-In}
use lua_sharedtable.RbTree.{Tree}
use lua_sharedtable.RbTree.Shape.{
  Shape, fork, Trail, inorder, around, outer, Holds, At, Distinct-around,
}
use lua_sharedtable.RbTree.Frame.{Filled, Slot, Distinct-fork, Holds-adopt, Above-refill}
use lua_sharedtable.RbTree.Rotate.{Slot-outer, Holds-start}

-- `y` is in the place of `x`.
pub record Replaced (h : Tree) (up : Trail) (x y : ℕ) (h' : Tree) : Type 0 where
  pub filled : Filled h h' y up
  pub left_new : h'.left y ≡ h.left x
  pub right_new : h'.right y ≡ h.right x
  pub parent_new : h'.parent y ≡ h.parent x
  pub color_new : h'.color y ≡ h.color x
  pub sides :
      (k : ℕ) → k ≢ x → k ≢ y → ¬ Slot up k → (h'.left k ≡ h.left k) × (h'.right k ≡ h.right k)
  pub parent_left : h.left x ≢ h.sentinel → h'.parent (h.left x) ≡ y
  pub parent_right : h.right x ≢ h.sentinel → h'.parent (h.right x) ≡ y
  pub parent_else :
      (k : ℕ)
      → k ≢ x
      → k ≢ y
      → (h.left x ≡ h.sentinel) ⊎ (k ≢ h.left x)
      → (h.right x ≡ h.sentinel) ⊎ (k ≢ h.right x)
      → h'.parent k ≡ h.parent k
  pub color_else : (k : ℕ) → k ≢ x → k ≢ y → h'.color k ≡ h.color k
  pub end : h'.sentinel ≡ h.sentinel

-- A node out of the tree is apart from all of its nodes, and so is the one that it replaces.
module _ (h h' : Tree) (up : Trail) (p x y c : ℕ) (l r : Shape) (w : At h up p x (fork c l x r))
    (distinct : Distinct (around up (inorder (fork c l y r)))) (y_real : y ≢ h.sentinel) where
  pub old_parts :
      Distinct (inorder l)
      × Distinct (inorder r)
      × (¬ In x (inorder l))
      × (¬ In x (inorder r))
      × ((k : ℕ) → In k (inorder l) → ¬ In k (inorder r))
  old_parts = Distinct-fork c l x r (Distinct-around up (inorder (fork c l x r)) w.distinct).0

  pub new_parts :
      Distinct (inorder l)
      × Distinct (inorder r)
      × (¬ In y (inorder l))
      × (¬ In y (inorder r))
      × ((k : ℕ) → In k (inorder l) → ¬ In k (inorder r))
  new_parts = Distinct-fork c l y r (Distinct-around up (inorder (fork c l y r)) distinct).0

  pub outer-apart : (k : ℕ) → In k (outer up) → (k ≢ x) × (k ≢ y)
  outer-apart k i =
      let (_, _, old) = Distinct-around up (inorder (fork c l x r)) w.distinct in
      let (_, _, new) = Distinct-around up (inorder (fork c l y r)) distinct in
      (
        (λ e.
            old x (append-In x (inorder l) (x ∷ inorder r) (inr (inl refl)))
              (subst (λ k. In k (outer up)) e i)),
        λ e.
            new y (append-In y (inorder l) (y ∷ inorder r) (inr (inl refl)))
              (subst (λ k. In k (outer up)) e i),
      )

  outer-not_l : (k : ℕ) → In k (outer up) → ¬ In k (inorder l)
  outer-not_l k i j =
      let (_, _, old) = Distinct-around up (inorder (fork c l x r)) w.distinct in
      old k (append-In k (inorder l) (x ∷ inorder r) (inl j)) i

  outer-not_r : (k : ℕ) → In k (outer up) → ¬ In k (inorder r)
  outer-not_r k i j =
      let (_, _, old) = Distinct-around up (inorder (fork c l x r)) w.distinct in
      old k (append-In k (inorder l) (x ∷ inorder r) (inr (inr j))) i

  -- A node of neither subtree is not the first of one.
  left-apart : (k : ℕ) → ¬ In k (inorder l) → (h.left x ≡ h.sentinel) ⊎ (k ≢ h.left x)
  left-apart k new = elim (Holds-start h x (h.left x) l (w.holds.4)) [
    | inl e ↦ inl e
    | inr i ↦ inr (λ e. new (subst (λ k. In k (inorder l)) (sym e) i))
  ]

  right-apart : (k : ℕ) → ¬ In k (inorder r) → (h.right x ≡ h.sentinel) ⊎ (k ≢ h.right x)
  right-apart k new = elim (Holds-start h x (h.right x) r (w.holds.5)) [
    | inl e ↦ inl e
    | inr i ↦ inr (λ e. new (subst (λ k. In k (inorder r)) (sym e) i))
  ]

  pub start-other :
      (b z : ℕ) (t : Shape)
      → (b ≡ h.sentinel) ⊎ In b (inorder t)
      → z ≢ h.sentinel
      → ¬ In z (inorder t)
      → b ≢ z
  start-other b z t (inl end) real new e = real (sym e ∙ end)
  start-other b z t (inr i) real new e = new (subst (λ k. In k (inorder t)) e i)

  subtree-Holds :
      (b : ℕ) (t : Shape)
      → Replaced h up x y h'
      → Holds h x b t
      → Distinct (inorder t)
      → ((k : ℕ) → In k (inorder t) → (k ≢ x) × (k ≢ y) × (¬ Slot up k))
      → ((k : ℕ) → In k (inorder t) → k ≢ b → h'.parent k ≡ h.parent k)
      → (b ≢ h.sentinel → h'.parent b ≡ y)
      → Holds h' y b t
  subtree-Holds b t rep holds d apart parents new =
      Holds-adopt h h' x y b t (λ k i. rep.sides k (apart k i).0 (apart k i).1 (apart k i).2)
        parents (λ k i. rep.color_else k (apart k i).0 (apart k i).1) new rep.end d holds

  pub Replaced-At : Replaced h up x y h' → At h' up p y (fork c l y r)
  Replaced-At rep =
      let (dl, dr, xl, xr, apart) = old_parts in
      let (_, _, yl, yr, _) = new_parts in
      let (d, d_outer, away) = Distinct-around up (inorder (fork c l x r)) w.distinct in
      let (_, x_real, par, col, left, right) = w.holds in
      let free : (k : ℕ) → In k (inorder (fork c l x r)) → ¬ Slot up k =
        λ k i s. away k i (Slot-outer up k s) in
      record {
        holds = (
          refl,
          (λ e. y_real (e ∙ rep.end)),
          rep.parent_new ∙ par,
          rep.color_new ∙ col,
          subst (λ b. Holds h' y b l) (sym rep.left_new)
              (subtree-Holds (h.left x) l rep left dl
                (λ k i. (
                  In-apart k x (inorder l) xl i,
                  In-apart k y (inorder l) yl i,
                  free k (append-In k (inorder l) (x ∷ inorder r) (inl i)),
                ))
                (λ k i other.
                  rep.parent_else k (In-apart k x (inorder l) xl i) (In-apart k y (inorder l) yl i)
                    (inr other) (right-apart k (λ j. apart k i j)))
                rep.parent_left),
          subst (λ b. Holds h' y b r) (sym rep.right_new)
              (subtree-Holds (h.right x) r rep right dr
                (λ k i. (
                  In-apart k x (inorder r) xr i,
                  In-apart k y (inorder r) yr i,
                  free k (append-In k (inorder l) (x ∷ inorder r) (inr (inr i))),
                ))
                (λ k i other.
                  rep.parent_else k (In-apart k x (inorder r) xr i) (In-apart k y (inorder r) yr i)
                    (left-apart k (λ j. apart k j i)) (inr other))
                rep.parent_right),
        );
        above =
            Above-refill h h' p x y up rep.filled
              (λ k i out. rep.sides k (outer-apart k i).0 (outer-apart k i).1 out)
              (λ k i. (
                rep.parent_else k (outer-apart k i).0 (outer-apart k i).1
                    (left-apart k (outer-not_l k i)) (right-apart k (outer-not_r k i)),
                rep.color_else k (outer-apart k i).0 (outer-apart k i).1,
              ))
              rep.end d_outer w.above;
        distinct = distinct;
        black_end =
            ap h'.color rep.end
            ∙ (rep.color_else h.sentinel (λ e. x_real (sym e)) (λ e. y_real (sym e)) ∙ w.black_end);
      }
