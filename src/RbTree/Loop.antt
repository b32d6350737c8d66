-- ===== src/RbTree/Loop.antt =====
-- The loop of `st_rbtree_insert` that restores the rules.
use lua_sharedtable.Base.{
  ℕ, zero, suc, ◌≡◌, ◌≢◌, refl, sym, ap, ◌∙◌, subst, ◌⊎◌, inl, inr, List, ◌∷◌, arith, true, false,
  not, ◌&&◌, ◌==◌, done,
}
use lua_sharedtable.NodeList.Linked.{In, append-In}
use lua_sharedtable.RbTree.{Tree, black, is_red}
use lua_sharedtable.RbTree.Insertion.{insert_round, insert_fixup}
use lua_sharedtable.RbTree.Shape.{
  Shape, fork, Trail, top, in_left, in_right, plug, inorder, inorder-plug, outer, At, IsTree,
  Distinct-around, zip,
}
use lua_sharedtable.RbTree.Rotate.{root-In}
use lua_sharedtable.RbTree.Paint.{paint-At}
use lua_sharedtable.RbTree.Balance.{IsBlack, Balanced, Joint, plug-Balanced, blacken-Balanced}
use lua_sharedtable.RbTree.Round.{Fixing}
use lua_sharedtable.RbTree.Fixup.{round-Fixing}

-- The memory holds a red-black tree with the nodes `xs` in this order.
pub record RedBlack (h : Tree) (xs : List ℕ) : Type 0 where
  pub shape : Shape
  pub n : ℕ
  pub place : IsTree h shape
  pub is_black : IsBlack shape
  pub balanced : Balanced shape n
  pub order : inorder shape ≡ xs

pub plug-fork :
    (up : Trail) (c : ℕ) (l : Shape) (x : ℕ) (r : Shape)
    → (c' : ℕ) × (l' : Shape) × (x' : ℕ) × (r' : Shape) × (plug up (fork c l x r)
        ≡ fork c' l' x' r')
plug-fork top c l x r = (c, l, x, r, refl)
plug-fork (in_left c' x' r' up) c l x r = plug-fork up c' (fork c l x r) x' r'
plug-fork (in_right c' l' x' up) c l x r = plug-fork up c' l' x' (fork c l x r)

-- The root painted black.
pub black-IsTree :
    (h : Tree) (c : ℕ) (l : Shape) (x : ℕ) (r : Shape)
    → IsTree h (fork c l x r)
    → IsTree (black h.root h) (fork 0 l x r)
black-IsTree h c l x r (p, w) =
    let at_x = w.holds.0 in
    (
      p,
      subst (λ k. At (black k h) top p k (fork 0 l x r)) (sym at_x)
          (paint-At 0 (subst (λ k. At h top p k (fork c l x r)) at_x w)),
    )

pub blacken-RedBlack :
    (h : Tree) (t : Shape) (c : ℕ) (l : Shape) (x : ℕ) (r : Shape) (n : ℕ)
    → t ≡ fork c l x r
    → IsTree h t
    → Balanced t n
    → RedBlack (black h.root h) (inorder t)
blacken-RedBlack h t c l x r n e w b =
    let (m, balanced) = blacken-Balanced c l x r n (subst (λ t. Balanced t n) e b) in
    record {
      shape = fork 0 l x r;
      n = m;
      place = black-IsTree h c l x r (subst (λ t. IsTree h t) e w);
      is_black = refl;
      balanced = balanced;
      order = sym (ap inorder e);
    }

-- Where the loop ends, the rules hold but at the root.
exit-RedBlack :
    {h : Tree} {xs : List ℕ} {node bound : ℕ} (f : Fixing h xs node bound)
    → Joint f.up (fork (suc f.color) f.l node f.r)
    → RedBlack (black h.root h) xs
exit-RedBlack {h} {xs} {node} f joint =
    let t = fork (suc f.color) f.l node f.r in
    let (m, balanced) = plug-Balanced f.up t f.n f.hole joint f.balanced in
    let (c, l, x, r, e) = plug-fork f.up (suc f.color) f.l node f.r in
    subst (λ ys. RedBlack (black h.root h) ys) (inorder-plug f.up t ∙ f.order)
      (blacken-RedBlack h (plug f.up t) c l x r m e (zip f.up f.at) balanced)

pub inner_root :
    (h : Tree) (up : Trail) (p a c : ℕ) (l r : Shape) (c' x : ℕ) (s : Shape)
    → At h (in_left c' x s up) p a (fork c l a r) ⊎ At h (in_right c' s x up) p a (fork c l a r)
    → (a == h.root) ≡ false
inner_root h up p a c l r c' x s (inl w) =
    let (_, _, apart) = Distinct-around (in_left c' x s up) (inorder (fork c l a r)) w.distinct in
    let away : h.root ≢ a = λ e.
      apart a (append-In a (inorder l) (a ∷ inorder r) (inr (inl refl))) (
        subst (λ k. In k (outer (in_left c' x s up))) e
          (elim (root-In h (h.parent x) x up (w.above.5)) [
            | inl at_x ↦ inl at_x
            | inr i ↦ inr (append-In h.root (inorder s) (outer up) (inr i))
          ])) in
    ground arith
inner_root h up p a c l r c' x s (inr w) =
    let (_, _, apart) = Distinct-around (in_right c' s x up) (inorder (fork c l a r)) w.distinct in
    let away : h.root ≢ a = λ e.
      apart a (append-In a (inorder l) (a ∷ inorder r) (inr (inl refl))) (
        subst (λ k. In k (outer (in_right c' s x up))) e
          (elim (root-In h (h.parent x) x up (w.above.5)) [
            | inl at_x ↦ inl at_x
            | inr i ↦ inr (append-In h.root (inorder s) (outer up) (inr i))
          ])) in
    ground arith

-- The loop goes on exactly while the parent is red.
go_on :
    (h : Tree) (up : Trail) (p a c : ℕ) (l r : Shape)
    → At h up p a (fork (suc c) l a r)
    → (Joint up (fork (suc c) l a r) × ((not (a == h.root) && is_red h (h.parent a)) ≡ false))
      ⊎ ((¬ Joint up (fork (suc c) l a r)) × ((not (a == h.root) && is_red h (h.parent a)) ≡ true))
go_on h top p a c l r w = let at : h.root ≡ a = w.above in inl (tt, ground arith)
go_on h (in_left zero x s up) p a c l r w =
    let col : h.color (h.parent a) ≡ 0 = ap h.color (w.holds.2 ∙ w.above.0) ∙ w.above.3 in
    inl (inl refl, ground arith)
go_on h (in_right zero s x up) p a c l r w =
    let col : h.color (h.parent a) ≡ 0 = ap h.color (w.holds.2 ∙ w.above.0) ∙ w.above.3 in
    inl (inl refl, ground arith)
go_on h (in_left (suc k) x s up) p a c l r w =
    let col : h.color (h.parent a) ≡ suc k = ap h.color (w.holds.2 ∙ w.above.0) ∙ w.above.3 in
    let inner = inner_root h up p a (suc c) l r (suc k) x s (inl w) in
    inr (
      (λ j. elim j [ inl e ↦ absurd (omega (arith, e)) | inr e ↦ absurd (omega (arith, e)) ]),
      ground arith,
    )
go_on h (in_right (suc k) s x up) p a c l r w =
    let col : h.color (h.parent a) ≡ suc k = ap h.color (w.holds.2 ∙ w.above.0) ∙ w.above.3 in
    let inner = inner_root h up p a (suc c) l r (suc k) x s (inr w) in
    inr (
      (λ j. elim j [ inl e ↦ absurd (omega (arith, e)) | inr e ↦ absurd (omega (arith, e)) ]),
      ground arith,
    )

fixup_stop :
    (fuel node : ℕ) (h : Tree)
    → (not (node == h.root) && is_red h (h.parent node)) ≡ false
    → insert_fixup (suc fuel) node h ≡ done (black h.root h)
unfolding insert_fixup
fixup_stop fuel node h test = rw (test, insert_fixup) refl

fixup_step :
    (fuel node : ℕ) (h : Tree)
    → (not (node == h.root) && is_red h (h.parent node)) ≡ true
    → insert_fixup (suc fuel) node h
      ≡ insert_fixup fuel (insert_round node h).1 (insert_round node h).0
unfolding insert_fixup
fixup_step fuel node h test = rw (test, insert_fixup) refl

-- With more fuel than there are nodes above the new one, the loop ends in a red-black tree.
pub insert_fixup-RedBlack :
    (fuel : ℕ) (h : Tree) (xs : List ℕ) (node : ℕ)
    → Fixing h xs node fuel
    → (h' : Tree) × (insert_fixup fuel node h ≡ done h') × RedBlack h' xs
insert_fixup-RedBlack zero h xs node f = absurd (let s = f.short in omega arith)
insert_fixup-RedBlack (suc fuel) h xs node f = elim (go_on h f.up f.p node f.color f.l f.r f.at) [
  | inl (joint, test) ↦ (black h.root h, fixup_stop fuel node h test, exit-RedBlack f joint)
  | inr (red_above, test) ↦
      let next =
        round-Fixing h xs node fuel f.up f.p f.color f.l f.r f.n f.at f.balanced f.hole f.order
          f.short red_above in
      let (h', run, result) =
        insert_fixup-RedBlack fuel (insert_round node h).0 xs (insert_round node h).1 next in
      (h', fixup_step fuel node h test ∙ run, result)
]
