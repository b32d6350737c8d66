-- ===== src/RbTree/Fixup.antt =====
-- Any round of the loop of `st_rbtree_insert`, by the exchange of left and right.
use lua_sharedtable.Base.{
  ℕ, zero, suc, ◌<◌, ◌≡◌, ◌≢◌, refl, sym, ap, ◌∙◌, subst, inl, inr, List, [], ◌∷◌, arith, true,
  false, ==_iff, Bool-cases,
}
use lua_sharedtable.NodeList.Linked.{In, append-In}
use lua_sharedtable.RbTree.{Tree, red, black, is_red, is_left_child, left_rotate, right_rotate}
use lua_sharedtable.RbTree.Insertion.{
  insert_round, insert_round_left, insert_round_right, turn_left, turn_right,
}
use lua_sharedtable.RbTree.Shape.{
  Shape, fork, Trail, top, in_left, in_right, inorder, around, At, Distinct-around, rise_left,
  rise_right,
}
use lua_sharedtable.RbTree.Frame.{Distinct-fork}
use lua_sharedtable.RbTree.Rotate.{Holds-start}
use lua_sharedtable.RbTree.Mirror.{
  swap, mirror, mirror_path, rev, rev-append, left_rotate-swap, inorder-mirror, around-mirror,
  swap-At,
}
use lua_sharedtable.RbTree.Balance.{Balanced, Hole, Joint, mirror-Balanced, mirror-Hole}
use lua_sharedtable.RbTree.Round.{depth, FixedLeft, Fixing, left_left-Fixing, left_right-Fixing}

-- The right half of a round is the left half in the exchanged memory.
pub right_rotate-swap : (x : ℕ) (h : Tree) → right_rotate x (swap h) ≡ swap (left_rotate x h)
right_rotate-swap x h = ap swap (sym (left_rotate-swap x (swap h)))

turn-swap : (node : ℕ) (h : Tree) → turn_right node (swap h) ≡ swap (turn_left node h)
turn-swap node h =
    right_rotate-swap (h.parent (h.parent node))
      (red (h.parent (h.parent node)) (black (h.parent node) h))

round-swap :
    (node : ℕ) (h : Tree)
    → insert_round_left node (swap h)
      ≡ (swap (insert_round_right node h).0, (insert_round_right node h).1)
unfolding insert_round_left insert_round_right
round-swap node h =
    let P = h.parent node in
    elim (Bool-cases (is_red h (h.left (h.parent (h.parent node))))) [
      | inl e ↦ rw e refl
      | inr e ↦ rw e (elim (Bool-cases (is_left_child h node)) [
        | inl f ↦ rw f (
            ap (λ t. (turn_right P t, P)) (left_rotate-swap P h)
            ∙ ap (λ t. (t, P)) (turn-swap P (right_rotate P h)))
        | inr f ↦ rw f (ap (λ t. (t, node)) (turn-swap node h))
      ])
    ]

pub rev-rev : (xs : List ℕ) → rev (rev xs) ≡ xs
rev-rev [] = refl
rev-rev (x ∷ xs) = rev-append (rev xs) (x ∷ []) ∙ ap (λ l. x ∷ l) (rev-rev xs)

pub depth-mirror : (up : Trail) → depth (mirror_path up) ≡ depth up
depth-mirror top = refl
depth-mirror (in_left c x r up) = ap suc (depth-mirror up)
depth-mirror (in_right c l x up) = ap suc (depth-mirror up)

pub around-mirror_order :
    (up : Trail) (t : Shape) (xs : List ℕ)
    → around up (inorder t) ≡ xs
    → around (mirror_path up) (inorder (mirror t)) ≡ rev xs
around-mirror_order up t xs e =
    ap (around (mirror_path up)) (inorder-mirror t) ∙ (around-mirror up (inorder t) ∙ ap rev e)

Fixing-swap :
    {h : Tree} {xs : List ℕ} {node bound : ℕ}
    → Fixing h (rev xs) node bound
    → Fixing (swap h) xs node bound
Fixing-swap {h} {xs} {node} {bound} f = record {
  up = mirror_path f.up;
  p = f.p;
  color = f.color;
  l = mirror f.r;
  r = mirror f.l;
  n = f.n;
  at = swap-At f.at;
  balanced = mirror-Balanced (fork (suc f.color) f.l node f.r) f.n f.balanced;
  hole = mirror-Hole f.up f.n f.hole;
  order = around-mirror_order f.up (fork (suc f.color) f.l node f.r) (rev xs) f.order ∙ rev-rev xs;
  short = subst (λ d. d < bound) (sym (depth-mirror f.up)) f.short;
}

-- What holds after a round under a right child.
FixedRight-swap :
    (h : Tree) (xs : List ℕ) (node bound : ℕ)
    → FixedLeft (swap h) (rev xs) node bound
    → Fixing (insert_round_right node h).0 xs (insert_round_right node h).1 bound
FixedRight-swap h xs node bound f =
    Fixing-swap (subst (λ r. Fixing r.0 (rev xs) r.1 bound) (round-swap node h) f)

module _ (h : Tree) (node : ℕ) {cg G q P k : ℕ} {u : Shape} {up : Trail} {a b : Shape} where
  under_left :
      At h (in_left cg G u up) q P (fork k a P b)
      → h.parent node ≡ P
      → insert_round node h ≡ insert_round_left node h
  unfolding insert_round
  under_left w par =
      let (qG, left_G, _, _, _, _) = w.above in
      let side : is_left_child h (h.parent node) ≡ true =
        (==_iff (h.parent node) (h.left (h.parent (h.parent node)))).1
          (par ∙ sym (ap h.left (ap h.parent par ∙ (w.holds.2 ∙ qG)) ∙ left_G)) in
      rw side refl

  under_right :
      At h (in_right cg u G up) q P (fork k a P b)
      → h.parent node ≡ P
      → insert_round node h ≡ insert_round_right node h
  unfolding insert_round
  under_right w par =
      let (qG, _, _, _, other, _) = w.above in
      let (d, _, _) = Distinct-around up (inorder (fork cg u G (fork k a P b))) w.distinct in
      let (_, _, _, _, apart) = Distinct-fork cg u G (fork k a P b) d in
      let here : In P (inorder (fork k a P b)) =
        append-In P (inorder a) (P ∷ inorder b) (inr (inl refl)) in
      let away : P ≢ h.left G = λ e. elim (Holds-start h G (h.left G) u other) [
        | inl end ↦ (w.holds.1) (e ∙ end)
        | inr i ↦ apart P (subst (λ k. In k (inorder u)) (sym e) i) here
      ] in
      let at : h.left (h.parent (h.parent node)) ≡ h.left G =
        ap h.left (ap h.parent par ∙ (w.holds.2 ∙ qG)) in
      let side : is_left_child h (h.parent node) ≡ false = ground arith in rw side refl

-- A round under a red parent.
pub round-Fixing :
    (h : Tree) (xs : List ℕ) (node bound : ℕ) (up : Trail) (p c : ℕ) (l r : Shape) (n : ℕ)
    → At h up p node (fork (suc c) l node r)
    → Balanced (fork (suc c) l node r) n
    → Hole up n
    → around up (inorder (fork (suc c) l node r)) ≡ xs
    → depth up < suc bound
    → (¬ Joint up (fork (suc c) l node r))
    → Fixing (insert_round node h).0 xs (insert_round node h).1 bound
round-Fixing h xs node bound top p c l r n w b hole order short red_above = absurd (red_above tt)
round-Fixing h xs node bound (in_left zero P m up) p c l r n w b hole order short red_above =
    absurd (red_above (inl refl))
round-Fixing h xs node bound (in_right zero m P up) p c l r n w b hole order short red_above =
    absurd (red_above (inl refl))
round-Fixing h xs node bound (in_left (suc k) P m top) p c l r n w b hole order short red_above =
    absurd (hole.2)
round-Fixing h xs node bound (in_right (suc k) m P top) p c l r n w b hole order short red_above =
    absurd (hole.2)
round-Fixing h xs node bound (in_left (suc k) P m (in_left cg G u up)) p c l r n w b hole order
      short red_above =
    subst (λ r. Fixing r.0 xs r.1 bound)
      (sym (under_left h node (rise_left w) (w.holds.2 ∙ w.above.0)))
      (left_left-Fixing cg u up xs n bound w b hole order (omega arith))
round-Fixing h xs node bound (in_right (suc k) m P (in_left cg G u up)) p c l r n w b hole order
      short red_above =
    subst (λ r. Fixing r.0 xs r.1 bound)
      (sym (under_left h node (rise_right w) (w.holds.2 ∙ w.above.0)))
      (left_right-Fixing cg u up xs n bound w b hole order (omega arith))
round-Fixing h xs node bound (in_left (suc k) P m (in_right cg u G up)) p c l r n w b hole order
      short red_above =
    let t = fork (suc c) l node r in
    let path = in_left (suc k) P m (in_right cg u G up) in
    subst (λ r. Fixing r.0 xs r.1 bound)
      (sym (under_right h node (rise_left w) (w.holds.2 ∙ w.above.0)))
      (FixedRight-swap h xs node bound (
        left_right-Fixing cg (mirror u) (mirror_path up) (rev xs) n bound (swap-At w)
          (mirror-Balanced t n b) (mirror-Hole path n hole) (around-mirror_order path t xs order)
          (omega (arith, depth-mirror up))))
round-Fixing h xs node bound (in_right (suc k) m P (in_right cg u G up)) p c l r n w b hole order
      short red_above =
    let t = fork (suc c) l node r in
    let path = in_right (suc k) m P (in_right cg u G up) in
    subst (λ r. Fixing r.0 xs r.1 bound)
      (sym (under_right h node (rise_right w) (w.holds.2 ∙ w.above.0)))
      (FixedRight-swap h xs node bound (
        left_left-Fixing cg (mirror u) (mirror_path up) (rev xs) n bound (swap-At w)
          (mirror-Balanced t n b) (mirror-Hole path n hole) (around-mirror_order path t xs order)
          (omega (arith, depth-mirror up))))
