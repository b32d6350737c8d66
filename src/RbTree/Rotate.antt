-- ===== src/RbTree/Rotate.antt =====
-- The rotations of rbtree.c.
use lua_sharedtable.Base.{
  ℕ, ◌≡◌, ◌≢◌, refl, sym, ap, ◌∙◌, subst, ◌⊎◌, inl, inr, List, ◌∷◌, arith, Bool-cases, ◌==◌, ==_iff,
}
use lua_sharedtable.NodeList.Linked.{In, Distinct, In-apart, append-In}
use lua_sharedtable.RbTree.{Tree, left_rotate}
use lua_sharedtable.RbTree.Shape.{
  Shape, tip, fork, Trail, top, in_left, in_right, inorder, outer, around, Holds, Above, At,
  Distinct-around,
}
use lua_sharedtable.RbTree.Frame.{
  Same, Filled, Slot, Distinct-fork, Holds-frame, Holds-adopt, Above-refill,
}
use mathlib.Core.List.{append_assoc}

-- Where `x` hangs: at the root, or at a pointer of a node other than `x` and `y`.
abbrev pub Attached : Tree → (x y : ℕ) → Trail → Type 0
Attached h x y top = h.root ≡ x
Attached h x y (in_left c q r up) =
    (h.root ≢ x) × (h.parent x ≡ q) × (h.left q ≡ x) × (q ≢ x) × (q ≢ y)
Attached h x y (in_right c l q up) =
    (h.root ≢ x) × (h.parent x ≡ q) × (h.right q ≡ x) × (h.left q ≢ x) × (q ≢ x) × (q ≢ y)

-- `y` takes the place of its parent `x` and gives it its subtree at `mid`.
record Rotated (h : Tree) (up : Trail) (x y mid : ℕ) (h' : Tree) : Type 0 where
  filled : Filled h h' y up
  left_y : h'.left y ≡ x
  right_x : h'.right x ≡ mid
  parent_x : h'.parent x ≡ y
  parent_y : h'.parent y ≡ h.parent x
  parent_mid : mid ≢ h.sentinel → h'.parent mid ≡ x
  left_else : (k : ℕ) → k ≢ y → ¬ Slot up k → h'.left k ≡ h.left k
  right_else : (k : ℕ) → k ≢ x → ¬ Slot up k → h'.right k ≡ h.right k
  parent_else : (k : ℕ) → k ≢ x → k ≢ y → (mid ≡ h.sentinel) ⊎ (k ≢ mid) → h'.parent k ≡ h.parent k
  color_same : (k : ℕ) → h'.color k ≡ h.color k
  end : h'.sentinel ≡ h.sentinel

left_rotate-Rotated :
    (h : Tree) (up : Trail) (x y mid : ℕ)
    → h.right x ≡ y
    → h.left y ≡ mid
    → x ≢ y
    → mid ≢ x
    → mid ≢ y
    → Attached h x y up
    → Rotated h up x y mid (left_rotate x h)
unfolding left_rotate
left_rotate-Rotated h top x y mid ry lm xy mx my at_root = record {
  filled = ground arith;
  left_y = ground arith;
  right_x = ground arith;
  parent_x = ground arith;
  parent_y = ground arith;
  parent_mid = λ real. ground arith;
  left_else = λ k a b. ground arith;
  right_else = λ k a b. ground arith;
  parent_else = λ k a b c. ground arith;
  color_same = λ k. ground arith;
  end = ground arith;
}
left_rotate-Rotated h (in_left c q r up) x y mid ry lm xy mx my (inner, par, at, qx, qy) = record {
  filled = (ground arith, ground arith, ground arith);
  left_y = ground arith;
  right_x = ground arith;
  parent_x = ground arith;
  parent_y = ground arith;
  parent_mid = λ real. ground arith;
  left_else = λ k a b. ground arith;
  right_else = λ k a b. ground arith;
  parent_else = λ k a b c. ground arith;
  color_same = λ k. ground arith;
  end = ground arith;
}
left_rotate-Rotated h (in_right c l q up) x y mid ry lm xy mx my (inner, par, at, other, qx, qy) =
    record {
      filled = (ground arith, ground arith, ground arith);
      left_y = ground arith;
      right_x = ground arith;
      parent_x = ground arith;
      parent_y = ground arith;
      parent_mid = λ real. ground arith;
      left_else = λ k a b. ground arith;
      right_else = λ k a b. ground arith;
      parent_else = λ k a b c. ground arith;
      color_same = λ k. ground arith;
      end = ground arith;
    }

pub Slot-outer : (up : Trail) (k : ℕ) → Slot up k → In k (outer up)
Slot-outer top k e = elim e [ ]
Slot-outer (in_left c q r up) k e = inl e
Slot-outer (in_right c l q up) k e = inl e

-- A tree starts at the sentinel or at one of its nodes.
pub Holds-start :
    (h : Tree) (p a : ℕ) (t : Shape) → Holds h p a t → (a ≡ h.sentinel) ⊎ In a (inorder t)
Holds-start h p a tip e = inl e
Holds-start h p a (fork c l x r) holds =
    inr (append-In a (inorder l) (x ∷ inorder r) (inr (inl (holds.0))))

pub root-In :
    (h : Tree) (p a : ℕ) (up : Trail) → Above h p a up → (h.root ≡ a) ⊎ In h.root (outer up)
root-In h p a top e = inl e
root-In h p a (in_left c x r up) above = elim (root-In h (h.parent x) x up (above.5)) [
  | inl e ↦ inr (inl e)
  | inr i ↦ inr (inr (append-In h.root (inorder r) (outer up) (inr i)))
]
root-In h p a (in_right c l x up) above = elim (root-In h (h.parent x) x up (above.5)) [
  | inl e ↦ inr (inl e)
  | inr i ↦ inr (inr (append-In h.root (inorder l) (outer up) (inr i)))
]

pub attached :
    (h : Tree) (p x y : ℕ) (up : Trail)
    → Above h p x up
    → h.parent x ≡ p
    → x ≢ h.sentinel
    → ((k : ℕ) → In k (outer up) → (k ≢ x) × (k ≢ y))
    → Attached h x y up
attached h p x y top e par real apart = e
attached h p x y (in_left c q r up) above par real apart = (
  (λ e. elim (root-In h (h.parent q) q up (above.5)) [
    | inl at_q ↦ (apart q (inl refl)).0 (sym at_q ∙ e)
    | inr i ↦ (apart h.root (inr (append-In h.root (inorder r) (outer up) (inr i)))).0 e
  ]),
  par ∙ above.0,
  above.1,
  (apart q (inl refl)).0,
  (apart q (inl refl)).1,
)
attached h p x y (in_right c l q up) above par real apart = (
  (λ e. elim (root-In h (h.parent q) q up (above.5)) [
    | inl at_q ↦ (apart q (inl refl)).0 (sym at_q ∙ e)
    | inr i ↦ (apart h.root (inr (append-In h.root (inorder l) (outer up) (inr i)))).0 e
  ]),
  par ∙ above.0,
  above.1,
  (λ e. elim (Holds-start h q (h.left q) l (above.4)) [
    | inl end ↦ real (sym e ∙ end)
    | inr i ↦ (apart (h.left q) (inr (append-In (h.left q) (inorder l) (outer up) (inl i)))).0 e
  ]),
  (apart q (inl refl)).0,
  (apart q (inl refl)).1,
)

module _ (h : Tree) (up : Trail) (p x c : ℕ) (l : Shape) (c' : ℕ) (m : Shape) (y : ℕ) (r : Shape)
    (w : At h up p x (fork c l x (fork c' m y r))) where
  abbrev whole : List ℕ
  whole = inorder (fork c l x (fork c' m y r))

  abbrev Apart : ℕ → Type 0
  Apart k = (k ≢ x) × (k ≢ y) × ((h.left y ≡ h.sentinel) ⊎ (k ≢ h.left y)) × (¬ Slot up k)

  y_real : y ≢ h.sentinel
  y_real = (w.holds.5).1

  right_x_eq : h.right x ≡ y
  right_x_eq = (w.holds.5).0

  middle : Holds h y (h.left y) m
  middle = (w.holds.5).4

  nodes-Distinct : Distinct whole × Distinct (outer up) × ((k : ℕ) → In k whole → ¬ In k (outer up))
  nodes-Distinct = Distinct-around up whole w.distinct

  parts :
      Distinct (inorder l)
      × Distinct (inorder (fork c' m y r))
      × (¬ In x (inorder l))
      × (¬ In x (inorder (fork c' m y r)))
      × ((k : ℕ) → In k (inorder l) → ¬ In k (inorder (fork c' m y r)))
  parts = Distinct-fork c l x (fork c' m y r) nodes-Distinct.0

  parts_right :
      Distinct (inorder m)
      × Distinct (inorder r)
      × (¬ In y (inorder m))
      × (¬ In y (inorder r))
      × ((k : ℕ) → In k (inorder m) → ¬ In k (inorder r))
  parts_right = Distinct-fork c' m y r parts.1

  outside : (k : ℕ) → In k whole → ¬ Slot up k
  outside k i s = nodes-Distinct.2 k i (Slot-outer up k s)

  l_inside : (k : ℕ) → In k (inorder l) → In k whole
  l_inside k i = append-In k (inorder l) (x ∷ inorder (fork c' m y r)) (inl i)

  x_inside : In x whole
  x_inside = append-In x (inorder l) (x ∷ inorder (fork c' m y r)) (inr (inl refl))

  right_inside : (k : ℕ) → In k (inorder (fork c' m y r)) → In k whole
  right_inside k i = append-In k (inorder l) (x ∷ inorder (fork c' m y r)) (inr (inr i))

  m_inside : (k : ℕ) → In k (inorder m) → In k (inorder (fork c' m y r))
  m_inside k i = append-In k (inorder m) (y ∷ inorder r) (inl i)

  y_inside : In y (inorder (fork c' m y r))
  y_inside = append-In y (inorder m) (y ∷ inorder r) (inr (inl refl))

  r_inside : (k : ℕ) → In k (inorder r) → In k (inorder (fork c' m y r))
  r_inside k i = append-In k (inorder m) (y ∷ inorder r) (inr (inr i))

  -- The child of `y` that changes its parent.
  mid-apart : (k : ℕ) → (In k (inorder m) → ⊥) → (h.left y ≡ h.sentinel) ⊎ (k ≢ h.left y)
  mid-apart k new = elim (Holds-start h y (h.left y) m middle) [
    | inl e ↦ inl e
    | inr i ↦ inr (λ e. new (subst (λ k. In k (inorder m)) (sym e) i))
  ]

  mid-not_x : h.left y ≢ x
  mid-not_x e = elim (Holds-start h y (h.left y) m middle) [
    | inl end ↦ (w.holds.1) (sym e ∙ end)
    | inr i ↦ (parts.3) (m_inside x (subst (λ k. In k (inorder m)) e i))
  ]

  mid-not_y : h.left y ≢ y
  mid-not_y e = elim (Holds-start h y (h.left y) m middle) [
    | inl end ↦ y_real (sym e ∙ end)
    | inr i ↦ (parts_right.2) (subst (λ k. In k (inorder m)) e i)
  ]

  x-not_y : x ≢ y
  x-not_y e = (parts.3) (subst (λ k. In k (inorder (fork c' m y r))) (sym e) y_inside)

  l-Apart : (k : ℕ) → In k (inorder l) → Apart k
  l-Apart k i = (
    In-apart k x (inorder l) (parts.2) i,
    (λ e. (parts.4) k i (subst (λ k. In k (inorder (fork c' m y r))) (sym e) y_inside)),
    mid-apart k (λ j. (parts.4) k i (m_inside k j)),
    outside k (l_inside k i),
  )

  r-Apart : (k : ℕ) → In k (inorder r) → Apart k
  r-Apart k i = (
    In-apart k x (inorder (fork c' m y r)) (parts.3) (r_inside k i),
    In-apart k y (inorder r) (parts_right.3) i,
    mid-apart k (λ j. (parts_right.4) k j i),
    outside k (right_inside k (r_inside k i)),
  )

  m-Apart : (k : ℕ) → In k (inorder m) → (k ≢ x) × (k ≢ y) × (¬ Slot up k)
  m-Apart k i = (
    In-apart k x (inorder (fork c' m y r)) (parts.3) (m_inside k i),
    In-apart k y (inorder m) (parts_right.2) i,
    outside k (right_inside k (m_inside k i)),
  )

  outer-apart :
      (k : ℕ) → In k (outer up) → (k ≢ x) × (k ≢ y) × ((h.left y ≡ h.sentinel) ⊎ (k ≢ h.left y))
  outer-apart k i = (
    (λ e. nodes-Distinct.2 x x_inside (subst (λ k. In k (outer up)) e i)),
    (λ e. nodes-Distinct.2 y (right_inside y y_inside) (subst (λ k. In k (outer up)) e i)),
    mid-apart k (λ j. nodes-Distinct.2 k (right_inside k (m_inside k j)) i),
  )

  rotation : Rotated h up x y (h.left y) (left_rotate x h)
  rotation = left_rotate-Rotated h up x y (h.left y) right_x_eq refl x-not_y mid-not_x mid-not_y (
      attached h p x y up w.above (w.holds.2) (w.holds.1)
        (λ k i. ((outer-apart k i).0, (outer-apart k i).1)))

  sentinel-parent :
      (left_rotate x h).parent h.sentinel ≡ h.parent h.sentinel
      × ((left_rotate x h).sentinel ≡ h.sentinel)
  sentinel-parent =
      let other : (h.left y ≡ h.sentinel) ⊎ (h.sentinel ≢ h.left y) =
        elim (Holds-start h y (h.left y) m middle) [
          | inl e ↦ inl e
          | inr i ↦ elim (Bool-cases (h.left y == h.sentinel)) [
            | inl e ↦ inl ((==_iff (h.left y) h.sentinel).0 e)
            | inr e ↦ inr (λ f. ground (arith, e, f))
          ]
        ] in
      (
        rotation.parent_else h.sentinel (λ e. w.holds.1 (sym e)) (λ e. y_real (sym e)) other,
        rotation.end,
      )

  rotated : At (left_rotate x h) up p y (fork c' (fork c l x m) y r)
  rotated =
      let (_, x_real, par_x, col_x, left, right) = w.holds in
      let (_, _, _, col_y, _, right_y) = right in
      let (d, d_outer, _) = nodes-Distinct in
      let d_m = parts_right.0 in
      let x_ne = x-not_y in
      let h' = left_rotate x h in
      let away = outer-apart in
      let rot : Rotated h up x y (h.left y) h' =
        left_rotate-Rotated h up x y (h.left y) (right_x_eq) refl x_ne (mid-not_x) (mid-not_y)
          (attached h p x y up w.above par_x x_real (λ k i. ((away k i).0, (away k i).1))) in
      let same : (k : ℕ) → Apart k → Same h h' k = λ k a. (
        rot.left_else k (a.1) (a.3),
        rot.right_else k (a.0) (a.3),
        rot.parent_else k (a.0) (a.1) (a.2),
        rot.color_same k,
      ) in
      let free : (k : ℕ) → In k (inorder (fork c l x (fork c' m y r))) → ¬ Slot up k = outside in
      let m_sides : (k : ℕ) → In k (inorder m) → (h'.left k ≡ h.left k) × (h'.right k ≡ h.right k) =
        λ k i. (
          rot.left_else k (m-Apart k i).1 (m-Apart k i).2,
          rot.right_else k (m-Apart k i).0 (m-Apart k i).2,
        ) in
      record {
        holds = (
          refl,
          (λ e. y_real (e ∙ rot.end)),
          rot.parent_y ∙ par_x,
          rot.color_same y ∙ col_y,
          (
            rot.left_y,
            (λ e. x_real (e ∙ rot.end)),
            rot.parent_x,
            rot.color_same x ∙ col_x,
            subst (λ k. Holds h' x k l) (sym (rot.left_else x x_ne (free x (x_inside))))
                (Holds-frame h h' x (h.left x) l (λ k i. same k (l-Apart k i)) rot.end left),
            subst (λ k. Holds h' x k m) (sym rot.right_x)
                (Holds-adopt h h' y x (h.left y) m m_sides
                  (λ k i other. rot.parent_else k (m-Apart k i).0 (m-Apart k i).1 (inr other))
                  (λ k i. rot.color_same k) rot.parent_mid rot.end d_m (middle)),
          ),
          subst (λ k. Holds h' y k r)
              (sym (rot.right_else y (λ e. x_ne (sym e)) (free y (right_inside y (y_inside)))))
              (Holds-frame h h' y (h.right y) r (λ k i. same k (r-Apart k i)) rot.end right_y),
        );
        above =
            Above-refill h h' p x y up rot.filled
              (λ k i out. (rot.left_else k (away k i).1 out, rot.right_else k (away k i).0 out))
              (λ k i. (rot.parent_else k (away k i).0 (away k i).1 (away k i).2, rot.color_same k))
              rot.end d_outer w.above;
        distinct =
            subst (λ xs. Distinct (around up xs))
              (sym (append_assoc (inorder l) (x ∷ inorder m) (y ∷ inorder r))) w.distinct;
        black_end = rot.color_same h'.sentinel ∙ (ap h.color rot.end ∙ w.black_end);
      }

-- A left rotation moves no node in the order: the right child `y` of `x` takes its place.
pub left_rotate-At :
    {h : Tree} {up : Trail} {p x c : ℕ} {l : Shape} {c' : ℕ} {m : Shape} {y : ℕ} {r : Shape}
    → At h up p x (fork c l x (fork c' m y r))
    → At (left_rotate x h) up p y (fork c' (fork c l x m) y r)
left_rotate-At {h} {up} {p} {x} {c} {l} {c'} {m} {y} {r} w = rotated h up p x c l c' m y r w

-- A left rotation leaves the parent of the sentinel alone.
pub left_rotate-end :
    {h : Tree} {up : Trail} {p x c : ℕ} {l : Shape} {c' : ℕ} {m : Shape} {y : ℕ} {r : Shape}
    → At h up p x (fork c l x (fork c' m y r))
    → ((left_rotate x h).parent h.sentinel ≡ h.parent h.sentinel)
      × ((left_rotate x h).sentinel ≡ h.sentinel)
left_rotate-end {h} {up} {p} {x} {c} {l} {c'} {m} {y} {r} w =
    sentinel-parent h up p x c l c' m y r w
