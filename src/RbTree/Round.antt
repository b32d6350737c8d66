-- ===== src/RbTree/Round.antt =====
-- One round of the loop of `st_rbtree_insert`.
use mathlib.Core.List.{append_assoc}
use lua_sharedtable.Base.{
  ℕ, zero, suc, ◌<◌, ◌≡◌, ◌≢◌, refl, sym, ap, ap₂, if◌then◌else◌, ◌∙◌, subst, inl, inr, List, ◌∷◌,
  ◌++◌, arith, true, false, ◌==◌, ==_iff,
}
use lua_sharedtable.NodeList.Linked.{In, append-In}
use lua_sharedtable.RbTree.{Tree, red, black, is_red, left_rotate, right_rotate}
use lua_sharedtable.RbTree.Insertion.{insert_round_left, bend_left, turn_right, recolor}
use lua_sharedtable.RbTree.Shape.{
  Shape, tip, fork, Trail, top, in_left, in_right, inorder, around, Holds, At, Distinct-around,
  rise_left, rise_right, sink_left, sink_right,
}
use lua_sharedtable.RbTree.Frame.{Distinct-fork}
use lua_sharedtable.RbTree.Rotate.{left_rotate-At, Holds-start}
use lua_sharedtable.RbTree.Mirror.{right_rotate-At}
use lua_sharedtable.RbTree.Paint.{paint-At}
use lua_sharedtable.RbTree.Balance.{IsBlack, Balanced, Hole}

abbrev pub depth : Trail → ℕ
depth top = 0
depth (in_left c x r up) = suc (depth up)
depth (in_right c l x up) = suc (depth up)

-- The red node `node` in its place, where all rules hold but that its parent may be red too; the
-- order of the whole is `xs`, and fewer than `bound` nodes are above it.
pub record Fixing (h : Tree) (xs : List ℕ) (node bound : ℕ) : Type 0 where
  pub up : Trail
  pub p : ℕ
  pub color : ℕ
  pub l : Shape
  pub r : Shape
  pub n : ℕ
  pub at : At h up p node (fork (suc color) l node r)
  pub balanced : Balanced (fork (suc color) l node r) n
  pub hole : Hole up n
  pub order : around up (inorder (fork (suc color) l node r)) ≡ xs
  pub short : depth up < bound

-- The uncle is red.
red_uncle-At :
    {h : Tree} {up : Trail} {p P G U k cg cu : ℕ} {l r ul ur : Shape}
    → At h (in_left cg G (fork cu ul U ur) up) p P (fork k l P r)
    → At (red G (black U (black P h))) up (h.parent G) G (fork 1 (fork 0 l P r) G (fork 0 ul U ur))
red_uncle-At {h} {up} {p} {P} {G} {U} {k} {cg} {cu} {l} {r} {ul} {ur} w =
    let w1 = sink_right (rise_left (paint-At 0 w)) in
    let w2 =
      subst (λ k. At (black P h) (in_right cg (fork 0 l P r) G up) G k (fork cu ul U ur))
        (w1.holds.0) w1 in
    paint-At 1 (rise_right (paint-At 0 w2))

-- The uncle is black, and the node is the left child.
straight-At :
    {h : Tree} {up : Trail} {p P G k cg c n : ℕ} {l r m u : Shape}
    → At h (in_left k P m (in_left cg G u up)) p n (fork c l n r)
    → At (right_rotate G (red G (black P h))) (in_left 0 P (fork 1 m G u) up) P n (fork c l n r)
straight-At {h} {up} {p} {P} {G} {k} {cg} {c} {n} {l} {r} {m} {u} w =
    let h' = right_rotate G (red G (black P h)) in
    let w1 = sink_left (right_rotate-At (paint-At 1 (rise_left (paint-At 0 (rise_left w))))) in
    subst (λ k. At h' (in_left 0 P (fork 1 m G u) up) P k (fork c l n r)) (w1.holds.0) w1

-- It is the right child, and changes places with its parent first.
bent-At :
    {h : Tree} {up : Trail} {p P G k cg c n : ℕ} {m l r u : Shape}
    → At h (in_right k m P (in_left cg G u up)) p n (fork c l n r)
    → At (left_rotate P h) (in_left c n r (in_left cg G u up)) n P (fork k m P l)
bent-At {h} {up} {p} {P} {G} {k} {cg} {c} {n} {m} {l} {r} {u} w =
    let w1 = sink_left (left_rotate-At (rise_right w)) in
    subst (λ a. At (left_rotate P h) (in_left c n r (in_left cg G u up)) n a (fork k m P l))
      (w1.holds.0) w1

turn_right_eq :
    (h : Tree) (node P G : ℕ)
    → h.parent node ≡ P
    → h.parent P ≡ G
    → turn_right node h ≡ right_rotate G (red G (black P h))
turn_right_eq h node P G par par' =
    ap₂ (λ a b. right_rotate b (red b (black a h))) par (ap h.parent par ∙ par')

module _ (h : Tree) (node P G : ℕ) (par : h.parent node ≡ P) (par' : h.parent P ≡ G) where
  uncle_eq : h.right (h.parent (h.parent node)) ≡ h.right G
  uncle_eq = ap h.right (ap h.parent par ∙ par')

  red_uncle_eq :
      (U : ℕ)
      → h.right G ≡ U
      → is_red h U ≡ true
      → insert_round_left node h ≡ (red G (black U (black P h)), G)
  unfolding insert_round_left
  red_uncle_eq U at is =
      (λ i.
        if is_red h ((uncle_eq ∙ at) i)
        then recolor node ((uncle_eq ∙ at) i) h
        else (let (h1, at) = bend_left node h in (turn_right at h1, at)))
      ∙ ((λ i.
            if is i
            then recolor node U h
            else (let (h1, at) = bend_left node h in (turn_right at h1, at)))
          ∙ ap₂ {A = ℕ} {B = ℕ} (λ a b. (red b (black U (black a h)), b)) par
              (ap h.parent par ∙ par'))

  black_uncle_eq :
      (h1 : Tree) (at : ℕ)
      → is_red h (h.right G) ≡ false
      → bend_left node h ≡ (h1, at)
      → insert_round_left node h ≡ (turn_right at h1, at)
  unfolding insert_round_left
  black_uncle_eq h1 at is_not bent =
      (λ i.
        if is_red h (uncle_eq i)
        then recolor node (uncle_eq i) h
        else (turn_right (bend_left node h).1 (bend_left node h).0, (bend_left node h).1))
      ∙ ((λ i.
            if is_not i
            then recolor node (h.right G) h
            else (turn_right (bend_left node h).1 (bend_left node h).0, (bend_left node h).1))
          ∙ ap (λ (b : Tree × ℕ). (turn_right b.1 b.0, b.1)) bent)

  straight_eq :
      is_red h (h.right G) ≡ false
      → (node == h.right P) ≡ false
      → insert_round_left node h ≡ (right_rotate G (red G (black P h)), node)
  straight_eq is_not side =
      black_uncle_eq h node is_not (rw (par, side) refl)
      ∙ ap (λ t. (t, node)) (turn_right_eq h node P G par par')

  bent_eq :
      is_red h (h.right G) ≡ false
      → (node == h.right P) ≡ true
      → (left_rotate P h).parent P ≡ node
      → (left_rotate P h).parent node ≡ G
      → insert_round_left node h ≡ (right_rotate G (red G (black node (left_rotate P h))), P)
  bent_eq is_not side up1 up2 =
      black_uncle_eq (left_rotate P h) P is_not (rw (par, side) refl)
      ∙ ap (λ t. (t, P)) (turn_right_eq (left_rotate P h) P node G up1 up2)

pub black-color :
    (h : Tree) (p a : ℕ) (t : Shape)
    → Holds h p a t
    → IsBlack t
    → h.color h.sentinel ≡ 0
    → is_red h a ≡ false
black-color h p a tip holds is_black end =
    let e : h.color a ≡ 0 = ap h.color holds ∙ end in ground arith
black-color h p a (fork c l x r) holds is_black end =
    let e : h.color a ≡ 0 = ap h.color (holds.0) ∙ (holds.3 ∙ is_black) in ground arith

-- What holds after a round under a left child.
abbrev pub FixedLeft : Tree → (xs : List ℕ) → (node bound : ℕ) → Type 0
FixedLeft h xs node bound =
    Fixing (insert_round_left node h).0 xs (insert_round_left node h).1 bound

red_round-Fixing :
    {h : Tree} {up : Trail} {P G U k cu : ℕ} {a b ul ur : Shape} (xs : List ℕ) (node n bound : ℕ)
    → At h (in_left 0 G (fork (suc cu) ul U ur) up) (h.parent P) P (fork (suc k) a P b)
    → h.parent node ≡ P
    → Balanced a n
    → Balanced b n
    → Hole (in_left zero G (fork (suc cu) ul U ur) up) n
    → around up (inorder (fork 0 (fork 0 a P b) G (fork 0 ul U ur))) ≡ xs
    → depth up < bound
    → FixedLeft h xs node bound
red_round-Fixing {h} {up} {P} {G} {U} {k} {cu} {a} {b} {ul} {ur} xs node n bound w par ba bb
      ((bl, br, left, right), hole) order short =
    let (par', _, _, _, uncle, _) = w.above in
    let color_u : h.color U ≡ suc cu = uncle.3 in
    subst (λ r. Fixing r.0 xs r.1 bound)
      (sym (red_uncle_eq h node P G par par' U (uncle.0) (ground arith)))
      (record {
        up = up;
        p = h.parent G;
        color = 0;
        l = fork 0 a P b;
        r = fork 0 ul U ur;
        n = suc n;
        at = red_uncle-At w;
        balanced = (refl, refl, (n, refl, ba, bb), (n, refl, left, right));
        hole = hole;
        order = order;
        short = short;
      })

-- `node` is the left child of a red node, and its uncle is black.
straight-Fixing :
    {h : Tree} {up : Trail} {p P G k c node : ℕ} {l r m u : Shape} (xs : List ℕ) (n bound : ℕ)
    → At h (in_left (suc k) P m (in_left 0 G u up)) p node (fork (suc c) l node r)
    → IsBlack u
    → Balanced (fork (suc c) l node r) n
    → Hole (in_left (suc k) P m (in_left zero G u up)) n
    → around (in_left (suc k) P m (in_left 0 G u up)) (inorder (fork (suc c) l node r)) ≡ xs
    → suc (depth up) < bound
    → FixedLeft h xs node bound
straight-Fixing {h} {up} {p} {P} {G} {k} {c} {node} {l} {r} {m} {u} xs n bound w is_black bal
      (bm, m_black, _, (bu, hole)) order short =
    let (pP, _, _, _, sibling, (par', _, _, _, uncle, _)) = w.above in
    let par : h.parent node ≡ P = w.holds.2 ∙ pP in
    let (d, _, _) =
      Distinct-around (in_left 0 G u up) (inorder (fork (suc k) (fork (suc c) l node r) P m))
        w.distinct in
    let (_, _, _, _, apart) = Distinct-fork (suc k) (fork (suc c) l node r) P m d in
    let here : In node (inorder (fork (suc c) l node r)) =
      append-In node (inorder l) (node ∷ inorder r) (inr (inl refl)) in
    let other : node ≢ h.right P = λ e. elim (Holds-start h P (h.right P) m sibling) [
      | inl end ↦ (w.holds.1) (e ∙ end)
      | inr i ↦ apart node here (subst (λ k. In k (inorder m)) (sym e) i)
    ] in
    subst (λ r. Fixing r.0 xs r.1 bound)
      (sym (
        straight_eq h node P G par par' (black-color h G (h.right G) u uncle is_black w.black_end)
          (ground arith)))
      (record {
        up = in_left 0 P (fork 1 m G u) up;
        p = P;
        color = c;
        l = l;
        r = r;
        n = n;
        at = straight-At w;
        balanced = bal;
        hole = ((m_black, is_black, bm, bu), hole);
        order =
            ap (around up)
              (sym (append_assoc (inorder (fork (suc c) l node r)) (P ∷ inorder m) (G ∷ inorder u)))
            ∙ order;
        short = short;
      })

-- It is the right child.
bent-Fixing :
    {h : Tree} {up : Trail} {p P G k c node : ℕ} {m l r u : Shape} (xs : List ℕ) (n bound : ℕ)
    → At h (in_right (suc k) m P (in_left 0 G u up)) p node (fork (suc c) l node r)
    → IsBlack u
    → Balanced (fork (suc c) l node r) n
    → Hole (in_right (suc k) m P (in_left zero G u up)) n
    → around (in_right (suc k) m P (in_left 0 G u up)) (inorder (fork (suc c) l node r)) ≡ xs
    → suc (depth up) < bound
    → FixedLeft h xs node bound
bent-Fixing {h} {up} {p} {P} {G} {k} {c} {node} {m} {l} {r} {u} xs n bound w is_black
      (l_black, r_black, bl, br) (bm, m_black, _, (bu, hole)) order short =
    let (pP, down, _, _, _, (par', _, _, _, uncle, _)) = w.above in
    let par : h.parent node ≡ P = w.holds.2 ∙ pP in
    let w1 = bent-At w in
    subst (λ r. Fixing r.0 xs r.1 bound)
      (sym (
        bent_eq h node P G par par' (black-color h G (h.right G) u uncle is_black w.black_end)
          ((==_iff node (h.right P)).1 (sym down)) (w1.holds.2) ((w1.above.5).0)))
      (record {
        up = in_left 0 node (fork 1 r G u) up;
        p = node;
        color = k;
        l = m;
        r = l;
        n = n;
        at = straight-At w1;
        balanced = (m_black, l_black, bm, bl);
        hole = ((r_black, is_black, br, bu), hole);
        order =
            ap (around up) (
              append_assoc (inorder m) (P ∷ inorder l) (node ∷ (inorder r ++ (G ∷ inorder u)))
              ∙ sym (
                  (append_assoc (inorder m) (P ∷ (inorder l ++ (node ∷ inorder r))) (G ∷ inorder u)
                    ∙ ap (λ t. inorder m ++ (P ∷ t))
                        (append_assoc (inorder l) (node ∷ inorder r) (G ∷ inorder u)))))
            ∙ order;
        short = short;
      })

-- A round under a red parent that is a left child gets closer to the root: a left child,
pub left_left-Fixing :
    {h : Tree} {p P k G c node : ℕ} {l r m : Shape} (cg : ℕ) (u : Shape) (up : Trail) (xs : List ℕ)
    (n bound : ℕ)
    → At h (in_left (suc k) P m (in_left cg G u up)) p node (fork (suc c) l node r)
    → Balanced (fork (suc c) l node r) n
    → Hole (in_left (suc k) P m (in_left cg G u up)) n
    → around (in_left (suc k) P m (in_left cg G u up)) (inorder (fork (suc c) l node r)) ≡ xs
    → suc (depth up) < bound
    → FixedLeft h xs node bound
left_left-Fixing zero tip up xs n bound w b hole order short =
    straight-Fixing xs n bound w tt b hole order short
left_left-Fixing zero (fork zero ul U ur) up xs n bound w b hole order short =
    straight-Fixing xs n bound w refl b hole order short
left_left-Fixing zero (fork (suc cu) ul U ur) up xs n bound w b (bm, _, _, hole) order short =
    red_round-Fixing xs _ n bound (rise_left w) (w.holds.2 ∙ w.above.0) b bm hole order
      (omega arith)
left_left-Fixing (suc cg) u up xs n bound w b (_, _, above, _) order short =
    absurd (omega (arith, above))

-- and a right child.
pub left_right-Fixing :
    {h : Tree} {p P k G c node : ℕ} {l r m : Shape} (cg : ℕ) (u : Shape) (up : Trail) (xs : List ℕ)
    (n bound : ℕ)
    → At h (in_right (suc k) m P (in_left cg G u up)) p node (fork (suc c) l node r)
    → Balanced (fork (suc c) l node r) n
    → Hole (in_right (suc k) m P (in_left cg G u up)) n
    → around (in_right (suc k) m P (in_left cg G u up)) (inorder (fork (suc c) l node r)) ≡ xs
    → suc (depth up) < bound
    → FixedLeft h xs node bound
left_right-Fixing zero tip up xs n bound w b hole order short =
    bent-Fixing xs n bound w tt b hole order short
left_right-Fixing zero (fork zero ul U ur) up xs n bound w b hole order short =
    bent-Fixing xs n bound w refl b hole order short
left_right-Fixing zero (fork (suc cu) ul U ur) up xs n bound w b (bm, _, _, hole) order short =
    red_round-Fixing xs _ n bound (rise_right w) (w.holds.2 ∙ w.above.0) bm b hole order
      (omega arith)
left_right-Fixing (suc cg) u up xs n bound w b (_, _, above, _) order short =
    absurd (omega (arith, above))
