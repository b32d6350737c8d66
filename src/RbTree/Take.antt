-- ===== src/RbTree/Take.antt =====
-- The node behind a deleted one takes its place, and the deleted one is cleared.
use lua_sharedtable.Base.{
  ℕ, ◌≡◌, ◌≢◌, refl, sym, ◌∙◌, subst, ◌⊎◌, inl, inr, List, ◌∷◌, ◌++◌, arith, Bool-cases, ◌==◌,
  ==_iff,
}
use lua_sharedtable.NodeList.Linked.{In, Distinct, In-append, append-In}
use lua_sharedtable.RbTree.{Tree, set_parent}
use lua_sharedtable.RbTree.Deletion.{take_place, detach}
use lua_sharedtable.RbTree.Shape.{
  Shape, fork, Trail, top, in_left, in_right, inorder, around, outer, At, In-around,
}
use lua_sharedtable.RbTree.Frame.{Same, Filled, Holds-frame, Above-frame}
use lua_sharedtable.RbTree.Rotate.{Attached, attached, Holds-start}
use lua_sharedtable.RbTree.Replaced.{
  Replaced, Replaced-At, old_parts, new_parts, outer-apart, start-other,
}

take_place-Replaced :
    (h : Tree) (up : Trail) (x y : ℕ)
    → x ≢ y
    → x ≢ h.sentinel
    → y ≢ h.sentinel
    → h.left x ≢ x
    → h.left x ≢ y
    → h.right x ≢ x
    → h.right x ≢ y
    → Attached h x y up
    → Replaced h up x y (detach x (take_place x y h))
take_place-Replaced h top x y xy xs ys lx ly rx ry at_root = record {
  filled = ground arith;
  left_new = ground arith;
  right_new = ground arith;
  parent_new = ground arith;
  color_new = ground arith;
  sides = λ k a b free. (ground arith, ground arith);
  parent_left = λ real. ground arith;
  parent_right = λ real. ground arith;
  parent_else = λ k a b c d. ground arith;
  color_else = λ k a b. ground arith;
  end = ground arith;
}
take_place-Replaced h (in_left c q s up) x y xy xs ys lx ly rx ry (inner, par, at, qx, qy) =
    record {
      filled = (ground arith, ground arith, ground arith);
      left_new = ground arith;
      right_new = ground arith;
      parent_new = ground arith;
      color_new = ground arith;
      sides = λ k a b free. (ground arith, ground arith);
      parent_left = λ real. ground arith;
      parent_right = λ real. ground arith;
      parent_else = λ k a b c d. ground arith;
      color_else = λ k a b. ground arith;
      end = ground arith;
    }
take_place-Replaced h (in_right c s q up) x y xy xs ys lx ly rx ry (inner, par, at, other, qx, qy) =
    record {
      filled = (ground arith, ground arith, ground arith);
      left_new = ground arith;
      right_new = ground arith;
      parent_new = ground arith;
      color_new = ground arith;
      sides = λ k a b free. (ground arith, ground arith);
      parent_left = λ real. ground arith;
      parent_right = λ real. ground arith;
      parent_else = λ k a b c d. ground arith;
      color_else = λ k a b. ground arith;
      end = ground arith;
    }

outer-around : (up : Trail) (xs : List ℕ) (k : ℕ) → In k (outer up) → In k (around up xs)
outer-around top xs k i = absurd i
outer-around (in_left c x r up) xs k (inl e) =
    In-around up (xs ++ (x ∷ inorder r)) k (append-In k xs (x ∷ inorder r) (inr (inl e)))
outer-around (in_left c x r up) xs k (inr i) = elim (In-append k (inorder r) (outer up) i) [
  | inl j ↦ In-around up (xs ++ (x ∷ inorder r)) k (append-In k xs (x ∷ inorder r) (inr (inr j)))
  | inr j ↦ outer-around up (xs ++ (x ∷ inorder r)) k j
]
outer-around (in_right c l x up) xs k (inl e) =
    In-around up (inorder l ++ (x ∷ xs)) k (append-In k (inorder l) (x ∷ xs) (inr (inl e)))
outer-around (in_right c l x up) xs k (inr i) = elim (In-append k (inorder l) (outer up) i) [
  | inl j ↦ In-around up (inorder l ++ (x ∷ xs)) k (append-In k (inorder l) (x ∷ xs) (inl j))
  | inr j ↦ outer-around up (inorder l ++ (x ∷ xs)) k j
]

detach-Same : (h : Tree) (y k : ℕ) → k ≢ y → Same h (detach y h) k
detach-Same h y k other = (ground arith, ground arith, ground arith, ground arith)

-- A node that is not in the tree is cleared.
pub detach-At :
    (h : Tree) (up : Trail) (p a y : ℕ) (t : Shape)
    → At h up p a t
    → ¬ In y (around up (inorder t))
    → At (detach y h) up p a t
detach-At h up p a y t w out = record {
  holds =
      Holds-frame h (detach y h) p a t
        (λ k i.
          detach-Same h y k
            (λ e. out (In-around up (inorder t) y (subst (λ k. In k (inorder t)) e i))))
        refl w.holds;
  above =
      Above-frame h (detach y h) p a up
        (λ k i.
          detach-Same h y k
            (λ e. out (outer-around up (inorder t) y (subst (λ k. In k (outer up)) e i))))
        refl refl w.above;
  distinct = w.distinct;
  black_end = w.black_end;
}

-- The parent of the first node of the right subtree may have been set to `y` before.
Replaced-parent :
    (h h' : Tree) (up : Trail) (x y b : ℕ)
    → b ≡ h.right x
    → b ≢ h.sentinel
    → b ≢ x
    → Replaced (set_parent b y h) up x y h'
    → Replaced h up x y h'
Replaced-parent h h' up x y b at real other r = record {
  filled = filled_in up r.filled;
  left_new = r.left_new;
  right_new = r.right_new;
  parent_new = let e = r.parent_new in ground arith;
  color_new = r.color_new;
  sides = r.sides;
  parent_left = r.parent_left;
  parent_right = r.parent_right;
  parent_else = λ k kx ky kl kr.
      let e = r.parent_else k kx ky kl kr in
      let kb : k ≢ b = elim kr [ inl end ↦ absurd (real (at ∙ end)) | inr n ↦ λ f. n (f ∙ at) ] in
      ground arith;
  color_else = r.color_else;
  end = r.end;
}
  where
    filled_in : (up : Trail) → Filled (set_parent b y h) h' y up → Filled h h' y up
    filled_in top f = f
    filled_in (in_left c q s up) f = f
    filled_in (in_right c s q up) f = f

module _ (h : Tree) (up : Trail) (p x y c : ℕ) (l r : Shape) (w : At h up p x (fork c l x r))
    (distinct : Distinct (around up (inorder (fork c l y r)))) (xy : x ≢ y)
    (y_real : y ≢ h.sentinel) where
  direct : Replaced h up x y (detach x (take_place x y h))
  direct =
      let h' = detach x (take_place x y h) in
      let (_, _, xl, xr, _) = old_parts h h' up p x y c l r w distinct y_real in
      let (_, _, yl, yr, _) = new_parts h h' up p x y c l r w distinct y_real in
      let x_real = w.holds.1 in
      let other = start-other h h' up p x y c l r w distinct y_real in
      let l_start = Holds-start h x (h.left x) l (w.holds.4) in
      let r_start = Holds-start h x (h.right x) r (w.holds.5) in
      take_place-Replaced h up x y xy x_real y_real (other (h.left x) x l l_start x_real xl)
        (other (h.left x) y l l_start y_real yl) (other (h.right x) x r r_start x_real xr)
        (other (h.right x) y r r_start y_real yr)
        (attached h p x y up w.above (w.holds.2) x_real
          (outer-apart h h' up p x y c l r w distinct y_real))

  real_or_other : (b : ℕ) → (b ≡ h.sentinel) ⊎ (h.sentinel ≢ b)
  real_or_other b = elim (Bool-cases (b == h.sentinel)) [
    | inl e ↦ inl ((==_iff b h.sentinel).0 e)
    | inr e ↦ inr (λ f. ground (arith, e, f))
  ]

  -- The parent of the sentinel stays.
  pub take_place-end :
      ((detach x (take_place x y h)).parent h.sentinel ≡ h.parent h.sentinel)
      × ((detach x (take_place x y h)).sentinel ≡ h.sentinel)
  take_place-end = (
    direct.parent_else h.sentinel (λ e. w.holds.1 (sym e)) (λ e. y_real (sym e))
        (real_or_other (h.left x)) (real_or_other (h.right x)),
    direct.end,
  )

  -- With the pointers of `h`, where only the parent of the right child may differ.
  pub take_place-At :
      (b : ℕ)
      → At (detach x (take_place x y h)) up p y (fork c l y r)
        × (b ≡ h.right x
            → b ≢ h.sentinel
            → At (detach x (take_place x y (set_parent b y h))) up p y (fork c l y r))
  take_place-At b =
      let h' = detach x (take_place x y h) in
      let (_, _, xl, xr, _) = old_parts h h' up p x y c l r w distinct y_real in
      let (_, _, yl, yr, _) = new_parts h h' up p x y c l r w distinct y_real in
      let x_real = w.holds.1 in
      let other = start-other h h' up p x y c l r w distinct y_real in
      let l_start = Holds-start h x (h.left x) l (w.holds.4) in
      let r_start = Holds-start h x (h.right x) r (w.holds.5) in
      let lx = other (h.left x) x l l_start x_real xl in
      let ly = other (h.left x) y l l_start y_real yl in
      let rx = other (h.right x) x r r_start x_real xr in
      let ry = other (h.right x) y r r_start y_real yr in
      let at =
        attached h p x y up w.above (w.holds.2) x_real
          (outer-apart h h' up p x y c l r w distinct y_real) in
      (
        Replaced-At h h' up p x y c l r w distinct y_real
            (take_place-Replaced h up x y xy x_real y_real lx ly rx ry at),
        λ is real.
            let h2 = detach x (take_place x y (set_parent b y h)) in
            let bx : b ≢ x = λ e. rx (sym is ∙ e) in
            Replaced-At h h2 up p x y c l r w distinct y_real (
              Replaced-parent h h2 up x y b is real bx (
                take_place-Replaced (set_parent b y h) up x y xy x_real y_real lx ly rx ry
                  (moved up at bx))),
      )
    where
      moved : (up : Trail) → Attached h x y up → b ≢ x → Attached (set_parent b y h) x y up
      moved top a bx = a
      moved (in_left c q s up) (i, par, at, qx, qy) bx = (i, ground arith, at, qx, qy)
      moved (in_right c s q up) (i, par, at, o, qx, qy) bx = (i, ground arith, at, o, qx, qy)
