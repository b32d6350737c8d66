-- ===== src/RbTree/Locate.antt =====
-- A node of a tree, with its subtree and the path above it.
use lua_sharedtable.Base.{
  ℕ, zero, suc, ◌+◌, ◌≤◌, ◌≡◌, ◌≢◌, refl, sym, ap, ◌∙◌, subst, ◌⊎◌, inl, inr, ◌∷◌, arith, true,
  false, ==_iff,
}
use lua_sharedtable.NodeList.Linked.{In, In-append, append-In}
use lua_sharedtable.RbTree.{Tree, is_left_child}
use lua_sharedtable.RbTree.Shape.{
  Shape, tip, fork, Trail, top, in_left, in_right, plug, inorder, At, Distinct-around, sink_left,
  sink_right,
}
use lua_sharedtable.RbTree.Frame.{Distinct-fork}
use lua_sharedtable.RbTree.Rotate.{Holds-start}
use lua_sharedtable.RbTree.Balance.{IsBlack, Balanced, BlackAbove, Hole}
use lua_sharedtable.RbTree.Round.{depth}
use lua_sharedtable.RbTree.Descend.{height}

pub record Located (h : Tree) (k : ℕ) (whole : Shape) (limit : ℕ) : Type 0 where
  pub up : Trail
  pub p : ℕ
  pub color : ℕ
  pub l : Shape
  pub r : Shape
  pub at : At h up p k (fork color l k r)
  pub same : plug up (fork color l k r) ≡ whole
  pub reach : depth up + height (fork color l k r) ≤ limit

pub locate :
    (t : Shape) (h : Tree) (up : Trail) (p a k limit : ℕ)
    → At h up p a t
    → In k (inorder t)
    → depth up + height t ≤ limit
    → Located h k (plug up t) limit
locate tip h up p a k limit w i reach = absurd i
locate (fork c l x r) h up p a k limit w i reach =
    elim (In-append k (inorder l) (x ∷ inorder r) i) [
      | inl j ↦ locate l h (in_left c x r up) x (h.left x) k limit (sink_left w) j (omega arith)
      | inr (inl e) ↦ record {
        up = up;
        p = p;
        color = c;
        l = l;
        r = r;
        at =
            subst (λ y. At h up p k (fork c l y r)) (sym e)
              (subst (λ y. At h up p y (fork c l x r)) (w.holds.0 ∙ sym e) w);
        same = ap (λ y. plug up (fork c l y r)) e;
        reach = reach;
      }
      | inr (inr j) ↦
          locate r h (in_right c l x up) x (h.right x) k limit (sink_right w) j (omega arith)
    ]

-- What a balanced tree says of a subtree and of the path above it.
pub unplug-Balanced :
    (up : Trail) (t : Shape) (m : ℕ)
    → Balanced (plug up t) m
    → IsBlack (plug up t)
    → (n : ℕ) × Hole up n × Balanced t n × (IsBlack t ⊎ BlackAbove up)
unplug-Balanced top t m b is_black = (m, tt, b, inl is_black)
unplug-Balanced (in_left zero x r up) t m b is_black =
    let (n, hole, (k, e, bt, br), _) = unplug-Balanced up (fork 0 t x r) m b is_black in
    (k, (br, subst (Hole up) e hole), bt, inr refl)
unplug-Balanced (in_left (suc c) x r up) t m b is_black =
    let (n, hole, (t_black, r_black, bt, br), above) =
      unplug-Balanced up (fork (suc c) t x r) m b is_black in
    let top_black : BlackAbove up = elim above [ inl e ↦ absurd (omega (arith, e)) | inr b ↦ b ] in
    (n, (br, r_black, top_black, hole), bt, inl t_black)
unplug-Balanced (in_right zero l x up) t m b is_black =
    let (n, hole, (k, e, bl, bt), _) = unplug-Balanced up (fork 0 l x t) m b is_black in
    (k, (bl, subst (Hole up) e hole), bt, inr refl)
unplug-Balanced (in_right (suc c) l x up) t m b is_black =
    let (n, hole, (l_black, t_black, bl, bt), above) =
      unplug-Balanced up (fork (suc c) l x t) m b is_black in
    let top_black : BlackAbove up = elim above [ inl e ↦ absurd (omega (arith, e)) | inr b ↦ b ] in
    (n, (bl, l_black, top_black, hole), bt, inl t_black)

-- Which child a node is.
pub left_child :
    {h : Tree} {c x : ℕ} {s : Shape} {up : Trail} {p a c' : ℕ} {l r : Shape}
    → At h (in_left c x s up) p a (fork c' l a r)
    → is_left_child h a ≡ true
left_child {h} {c} {x} {s} {up} {p} {a} w =
    let (e, at, _, _, _, _) = w.above in
    (==_iff a (h.left (h.parent a))).1 (sym (ap h.left (w.holds.2 ∙ e) ∙ at))

pub right_child :
    {h : Tree} {c x : ℕ} {s : Shape} {up : Trail} {p a c' : ℕ} {l r : Shape}
    → At h (in_right c s x up) p a (fork c' l a r)
    → is_left_child h a ≡ false
right_child {h} {c} {x} {s} {up} {p} {a} {c'} {l} {r} w =
    let (e, _, _, _, other, _) = w.above in
    let (d, _, _) = Distinct-around up (inorder (fork c s x (fork c' l a r))) w.distinct in
    let (_, _, _, _, apart) = Distinct-fork c s x (fork c' l a r) d in
    let here : In a (inorder (fork c' l a r)) =
      append-In a (inorder l) (a ∷ inorder r) (inr (inl refl)) in
    let away : a ≢ h.left x = λ e. elim (Holds-start h x (h.left x) s other) [
      | inl end ↦ (w.holds.1) (e ∙ end)
      | inr i ↦ apart a (subst (λ k. In k (inorder s)) (sym e) i) here
    ] in
    let at : h.left (h.parent a) ≡ h.left x = ap h.left (w.holds.2 ∙ e) in ground arith
