-- ===== src/RbTree/Replace.antt =====
-- `st_rbtree_replace`.
use mathlib.Core.List.{append_assoc}
use lua_sharedtable.Base.{
  ℕ, zero, suc, ◌≡◌, ◌≢◌, refl, sym, ap, ◌∙◌, subst, inl, inr, List, [], ◌∷◌, ◌++◌, arith, false,
  ◌||◌, ◌==◌, some, Ret, if◌then◌else◌,
}
use lua_sharedtable.NodeList.Linked.{In, Distinct, append-In, Distinct-append, Distinct-split}
use lua_sharedtable.RbTree.{Tree, Compare, is_empty, node_is_inited}
use lua_sharedtable.RbTree.Lookup.{swap_node, replace}
use lua_sharedtable.RbTree.Shape.{
  Shape, tip, fork, Trail, top, in_left, in_right, plug, inorder, inorder-plug, around, around_eq,
  before, behind, At, zip,
}
use lua_sharedtable.RbTree.Rotate.{Attached, attached, Holds-start}
use lua_sharedtable.RbTree.Loop.{RedBlack}
use lua_sharedtable.RbTree.Balance.{IsBlack, Balanced}
use lua_sharedtable.RbTree.Descend.{height}
use lua_sharedtable.RbTree.Locate.{locate}
use lua_sharedtable.RbTree.Replaced.{
  Replaced, Replaced-At, old_parts, new_parts, outer-apart, start-other,
}
use lua_sharedtable.RbTree.Balance.{BlackAbove-Joint, black-Joint, plug-Balanced}
use lua_sharedtable.RbTree.Locate.{unplug-Balanced}
use lua_sharedtable.RbTree.{pos}

swap_node-Replaced :
    (h : Tree) (up : Trail) (x y : ℕ)
    → x ≢ y
    → x ≢ h.sentinel
    → y ≢ h.sentinel
    → h.left x ≢ x
    → h.left x ≢ y
    → h.right x ≢ x
    → h.right x ≢ y
    → Attached h x y up
    → Replaced h up x y (swap_node x y h)
swap_node-Replaced h top x y xy xs ys lx ly rx ry at_root = record {
  filled = ground arith;
  left_new = ground arith;
  right_new = ground arith;
  parent_new = ground arith;
  color_new = ground arith;
  sides = λ k a b free. (ground arith, ground arith);
  parent_left = λ real. ground arith;
  parent_right = λ real. ground arith;
  parent_else = λ k a b c d. ground arith;
  color_else = λ k a b. ground arith;
  end = ground arith;
}
swap_node-Replaced h (in_left c q s up) x y xy xs ys lx ly rx ry (inner, par, at, qx, qy) = record {
  filled = (ground arith, ground arith, ground arith);
  left_new = ground arith;
  right_new = ground arith;
  parent_new = ground arith;
  color_new = ground arith;
  sides = λ k a b free. (ground arith, ground arith);
  parent_left = λ real. ground arith;
  parent_right = λ real. ground arith;
  parent_else = λ k a b c d. ground arith;
  color_else = λ k a b. ground arith;
  end = ground arith;
}
swap_node-Replaced h (in_right c s q up) x y xy xs ys lx ly rx ry (inner, par, at, other, qx, qy) =
    record {
      filled = (ground arith, ground arith, ground arith);
      left_new = ground arith;
      right_new = ground arith;
      parent_new = ground arith;
      color_new = ground arith;
      sides = λ k a b free. (ground arith, ground arith);
      parent_left = λ real. ground arith;
      parent_right = λ real. ground arith;
      parent_else = λ k a b c d. ground arith;
      color_else = λ k a b. ground arith;
      end = ground arith;
    }

swap_node-At :
    (h : Tree) (up : Trail) (p x y c : ℕ) (l r : Shape)
    → At h up p x (fork c l x r)
    → Distinct (around up (inorder (fork c l y r)))
    → x ≢ y
    → y ≢ h.sentinel
    → At (swap_node x y h) up p y (fork c l y r)
swap_node-At h up p x y c l r w distinct xy y_real =
    let (_, _, xl, xr, _) = old_parts h (swap_node x y h) up p x y c l r w distinct y_real in
    let (_, _, yl, yr, _) = new_parts h (swap_node x y h) up p x y c l r w distinct y_real in
    let x_real = w.holds.1 in
    let other = start-other h (swap_node x y h) up p x y c l r w distinct y_real in
    let l_start = Holds-start h x (h.left x) l (w.holds.4) in
    let r_start = Holds-start h x (h.right x) r (w.holds.5) in
    Replaced-At h (swap_node x y h) up p x y c l r w distinct y_real (
      swap_node-Replaced h up x y xy x_real y_real (other (h.left x) x l l_start x_real xl)
        (other (h.left x) y l l_start y_real yl) (other (h.right x) x r r_start x_real xr)
        (other (h.right x) y r r_start y_real yr)
        (attached h p x y up w.above (w.holds.2) x_real
          (outer-apart h (swap_node x y h) up p x y c l r w distinct y_real)))

-- The order with `y` in the place of `x`.
abbrev pub relabel : (x y : ℕ) → List ℕ → List ℕ
relabel x y [] = []
relabel x y (k ∷ ks) = (if k == x then y else k) ∷ relabel x y ks

relabel-out : (x y : ℕ) (xs : List ℕ) → ¬ In x xs → relabel x y xs ≡ xs
relabel-out x y [] out = refl
relabel-out x y (k ∷ ks) out =
    let other : k ≢ x = λ e. out (inl (sym e)) in
    let ih = relabel-out x y ks (λ i. out (inr i)) in ground arith

relabel-split :
    (x y : ℕ) (ys zs : List ℕ)
    → ¬ In x ys
    → ¬ In x zs
    → relabel x y (ys ++ (x ∷ zs)) ≡ ys ++ (y ∷ zs)
relabel-split x y [] zs new out = let e = relabel-out x y zs out in ground arith
relabel-split x y (k ∷ ks) zs new out =
    let other : k ≢ x = λ e. new (inl (sym e)) in
    let ih = relabel-split x y ks zs (λ i. new (inr i)) out in ground arith

Distinct-relabel :
    (ys zs : List ℕ) (x y : ℕ)
    → Distinct (ys ++ (x ∷ zs))
    → ¬ In y (ys ++ (x ∷ zs))
    → Distinct (ys ++ (y ∷ zs))
Distinct-relabel ys zs x y d new =
    let (dy, (_, dz), apart) = Distinct-split ys (x ∷ zs) d in
    Distinct-append ys (y ∷ zs) dy ((λ i. new (append-In y ys (x ∷ zs) (inr (inr i)))), dz)
      (λ k i j. elim j [
        | inl e ↦ new (append-In y ys (x ∷ zs) (inl (subst (λ k. In k ys) e i)))
        | inr j ↦ apart k i (inr j)
      ])

-- The root keeps its colour.
plug-IsBlack :
    (up : Trail) (c : ℕ) (l : Shape) (x : ℕ) (r l' : Shape) (y : ℕ) (r' : Shape)
    → IsBlack (plug up (fork c l x r))
    → IsBlack (plug up (fork c l' y r'))
plug-IsBlack top c l x r l' y r' b = b
plug-IsBlack (in_left c' x' s up) c l x r l' y r' b =
    plug-IsBlack up c' (fork c l x r) x' s (fork c l' y r') x' s b
plug-IsBlack (in_right c' s x' up) c l x r l' y r' b =
    plug-IsBlack up c' s x' (fork c l x r) s x' (fork c l' y r') b

relabel-Balanced :
    (c : ℕ) (l : Shape) (x y : ℕ) (r : Shape) (n : ℕ)
    → Balanced (fork c l x r) n
    → Balanced (fork c l y r) n
relabel-Balanced zero l x y r n b = b
relabel-Balanced (suc c) l x y r n b = b

relabel-plug :
    (up : Trail) (c : ℕ) (l : Shape) (x y : ℕ) (r : Shape) (m : ℕ)
    → Balanced (plug up (fork c l x r)) m
    → IsBlack (plug up (fork c l x r))
    → (n : ℕ) × Balanced (plug up (fork c l y r)) n
relabel-plug up c l x y r m b is_black =
    let (n, hole, sub, joint) = unplug-Balanced up (fork c l x r) m b is_black in
    plug-Balanced up (fork c l y r) n hole
      (elim joint [
        | inl mine ↦ black-Joint up (fork c l y r) mine
        | inr above ↦ BlackAbove-Joint up (fork c l y r) above
      ])
      (relabel-Balanced c l x y r n sub)

-- The order around a node of the tree.
located-order :
    (up : Trail) (c : ℕ) (l : Shape) (x : ℕ) (r : Shape)
    → around up (inorder (fork c l x r))
      ≡ (before up ++ inorder l) ++ (x ∷ (inorder r ++ behind up))
located-order up c l x r = around_eq up (inorder (fork c l x r)) ∙ simp append_assoc

swapped-RedBlack :
    (h : Tree) (xs : List ℕ) (t : RedBlack h xs) (x y : ℕ)
    → In x xs
    → ¬ In y xs
    → y ≢ h.sentinel
    → RedBlack (swap_node x y h) (relabel x y xs)
swapped-RedBlack h xs t x y i new y_real =
    let (p, w) = t.place in
    let f =
      locate t.shape h top p h.root x (height t.shape) w (subst (In x) (sym t.order) i)
        (omega arith) in
    let ys = before f.up ++ inorder f.l in
    let zs = inorder f.r ++ behind f.up in
    let order : xs ≡ ys ++ (x ∷ zs) =
      sym t.order
      ∙ (sym (ap inorder f.same)
          ∙ (inorder-plug f.up (fork f.color f.l x f.r) ∙ located-order f.up f.color f.l x f.r)) in
    let d : Distinct (ys ++ (x ∷ zs)) = subst Distinct (t.order ∙ order) w.distinct in
    let d' : Distinct (ys ++ (y ∷ zs)) =
      Distinct-relabel ys zs x y d (subst (λ xs. ¬ In y xs) order new) in
    let (_, (x_zs, _), apart) = Distinct-split ys (x ∷ zs) d in
    let at =
      swap_node-At h f.up f.p x y f.color f.l f.r f.at
        (subst Distinct (sym (located-order f.up f.color f.l y f.r)) d')
        (λ e. new (subst (λ k. In k xs) e i)) y_real in
    let (n, balanced) =
      relabel-plug f.up f.color f.l x y f.r t.n
        (subst (λ s. Balanced s t.n) (sym f.same) t.balanced)
        (subst IsBlack (sym f.same) t.is_black) in
    record {
      shape = plug f.up (fork f.color f.l y f.r);
      n = n;
      place = zip f.up at;
      is_black =
          plug-IsBlack f.up f.color f.l x f.r f.l y f.r (subst IsBlack (sym f.same) t.is_black);
      balanced = balanced;
      order =
          inorder-plug f.up (fork f.color f.l y f.r)
          ∙ (located-order f.up f.color f.l y f.r
              ∙ (sym (relabel-split x y ys zs (λ j. apart x j (inl refl)) x_zs)
                  ∙ ap (relabel x y) (sym order)));
    }

-- A tree with a node has a root and none of its nodes is the sentinel.
root-real :
    (h : Tree) (t : Shape) (p : ℕ) {x : ℕ}
    → At h top p h.root t
    → In x (inorder t)
    → (h.root ≢ h.sentinel) × (x ≢ h.sentinel)
root-real h tip p w i = absurd i
root-real h (fork c l k r) p {x} w i =
    let f = locate (fork c l k r) h top p h.root x (height (fork c l k r)) w i (omega arith) in
    ((λ e. w.holds.1 (sym (w.holds.0) ∙ e)), f.at.holds.1)

replace-valid :
    (cmp : Compare) (h : Tree) (x y : ℕ)
    → h.root ≢ h.sentinel
    → x ≢ 0
    → y ≢ 0
    → x ≢ h.sentinel
    → y ≢ h.sentinel
    → node_is_inited h y ≡ false
    → cmp x y ≡ pos 0
    → replace cmp (some h) x y ≡ (some (swap_node x y h), Ret.ok)
unfolding replace
replace-valid cmp h x y full x_not y_not x_real y_real fresh same =
    let guard : (is_empty h
          || (x == 0)
          || (y == 0)
          || (x == h.sentinel)
          || (y == h.sentinel)
          || node_is_inited h y)
        ≡ false =
      ground arith in
    rw (guard, same, replace) refl

-- On a red-black tree, for a node in it and an equal one that is not initialised, not in the tree
-- and not the sentinel, neither null, `st_rbtree_replace` succeeds, leaves a red-black tree with
-- the new node at the place of the old one in the order of the nodes, and leaves the old one
-- uninitialised.
pub replace-RedBlack :
    (cmp : Compare) (h : Tree) (xs : List ℕ) (t : RedBlack h xs) (x y : ℕ)
    → In x xs
    → ¬ In y xs
    → x ≢ 0
    → y ≢ 0
    → y ≢ h.sentinel
    → node_is_inited h y ≡ false
    → cmp x y ≡ pos 0
    → (h' : Tree) × (replace cmp (some h) x y ≡ (some h', Ret.ok))
      × RedBlack h' (relabel x y xs)
      × (node_is_inited h' x ≡ false)
replace-RedBlack cmp h xs t x y i new x_not y_not y_real fresh same =
    let (p, w) = t.place in
    let (full, x_real) = root-real h t.shape p w (subst (In x) (sym t.order) i) in
    (
      swap_node x y h,
      replace-valid cmp h x y full x_not y_not x_real y_real fresh same,
      swapped-RedBlack h xs t x y i new y_real,
      ground arith,
    )
