-- ===== src/RbTree/Next.antt =====
-- `st_rbtree_get_next`.
use mathlib.Core.List.{append_assoc}
use lua_sharedtable.Base.{
  ℕ, zero, suc, ◌+◌, ◌<◌, ◌≤◌, ◌≡◌, ◌≢◌, refl, sym, ap, ◌∙◌, subst, inl, inr, List, [], ◌∷◌, ◌++◌,
  arith, true, false, not, ◌&&◌, ◌||◌, ◌==◌, ==_iff, some, Run, done, if◌then◌else◌,
}
use lua_sharedtable.NodeList.Linked.{In, Distinct, append-In, Distinct-split}
use lua_sharedtable.RbTree.{Tree, is_left_child, left_most_loop}
use lua_sharedtable.RbTree.Lookup.{next_loop, get_next}
use lua_sharedtable.RbTree.Shape.{
  Shape, tip, fork, Trail, top, in_left, in_right, inorder, inorder-plug, around_eq, before, behind,
  At, IsTree, rise_right,
}
use lua_sharedtable.RbTree.Rotate.{Holds-start}
use lua_sharedtable.RbTree.Loop.{inner_root}
use lua_sharedtable.RbTree.Round.{depth}
use lua_sharedtable.RbTree.Descend.{height}
use lua_sharedtable.RbTree.Ends.{first_or, first_or-append, left_most_loop-first}
use lua_sharedtable.RbTree.Locate.{locate, left_child, right_child}

-- The node behind `k` in the order, null if there is none.
abbrev pub next_in : (k : ℕ) → List ℕ → ℕ
next_in k [] = 0
next_in k (x ∷ xs) = if x == k then first_or 0 xs else next_in k xs

next_in-split : (k : ℕ) (ys zs : List ℕ) → ¬ In k ys → next_in k (ys ++ (k ∷ zs)) ≡ first_or 0 zs
next_in-split k [] zs new = ground arith
next_in-split k (y ∷ ys) zs new =
    let other : y ≢ k = λ e. new (inl (sym e)) in
    let ih = next_in-split k ys zs (λ i. new (inr i)) in ground arith

loop_top : (h : Tree) (fuel a : ℕ) → h.root ≡ a → next_loop h (suc fuel) a ≡ done 0
unfolding next_loop
loop_top h fuel a e =
    let test : (a == h.root) ≡ true = (==_iff a h.root).1 (sym e) in rw (test, next_loop) refl

loop_left :
    (h : Tree) (fuel a : ℕ)
    → (a == h.root) ≡ false
    → is_left_child h a ≡ true
    → next_loop h (suc fuel) a ≡ done (h.parent a)
unfolding next_loop
loop_left h fuel a inner side = rw (inner, side, next_loop) refl

loop_right :
    (h : Tree) (fuel a : ℕ)
    → (a == h.root) ≡ false
    → is_left_child h a ≡ false
    → next_loop h (suc fuel) a ≡ next_loop h fuel (h.parent a)
unfolding next_loop
loop_right h fuel a inner side = rw (inner, side, next_loop) refl

-- The climb ends at the first node behind the subtree.
climb :
    (up : Trail) (h : Tree) (p a c : ℕ) (l r : Shape) (fuel : ℕ)
    → At h up p a (fork c l a r)
    → depth up < fuel
    → next_loop h fuel a ≡ done (first_or 0 (behind up))
climb up h p a c l r zero w enough = absurd (omega arith)
climb top h p a c l r (suc fuel) w enough = loop_top h fuel a w.above
climb (in_left c' x s up) h p a c l r (suc fuel) w enough =
    loop_left h fuel a (inner_root h up p a c l r c' x s (inl w)) (left_child w)
    ∙ ap done (w.holds.2 ∙ w.above.0)
climb (in_right c' s x up) h p a c l r (suc fuel) w enough =
    loop_right h fuel a (inner_root h up p a c l r c' x s (inr w)) (right_child w)
    ∙ (ap (next_loop h fuel) (w.holds.2 ∙ w.above.0)
        ∙ climb up h (h.parent x) x c' s (fork c l a r) fuel (rise_right w) (omega arith))

-- The part of the function behind its checks.
abbrev onward : Tree → (node fuel : ℕ) → Run ℕ
onward h node fuel =
    if h.right node == h.sentinel
    then next_loop h fuel node
    else left_most_loop h fuel (h.right node)

onward-first :
    (h : Tree) (up : Trail) (p a c : ℕ) (l r : Shape) (fuel : ℕ)
    → At h up p a (fork c l a r)
    → depth up + height (fork c l a r) ≤ fuel
    → onward h a fuel ≡ done (first_or 0 (inorder r ++ behind up))
onward-first h up p a c l tip fuel w enough =
    let test : (h.right a == h.sentinel) ≡ true = (==_iff (h.right a) h.sentinel).1 (w.holds.5) in
    rw test (climb up h p a c l tip fuel w (omega arith))
onward-first h up p a c l (fork c' l' x r') fuel w enough =
    let right = w.holds.5 in
    let inner : h.right a ≢ h.sentinel = λ e. right.1 (sym (right.0) ∙ e) in
    let test : (h.right a == h.sentinel) ≡ false = ground arith in
    rw test (
      left_most_loop-first (fork c' l' x r') h a (h.right a) fuel (first_or 0 (behind up)) right
        inner (omega arith)
      ∙ ap done (sym (first_or-append 0 (inorder (fork c' l' x r')) (behind up))))

get_next-valid :
    (h : Tree) (node fuel : ℕ)
    → node ≢ 0
    → h.left node ≢ 0
    → node ≢ h.sentinel
    → get_next (some h) node fuel ≡ onward h node fuel
unfolding get_next
get_next-valid h node fuel real inited inside =
    let test : ((node == 0)
          || not (not ((h.parent node == 0) && (h.right node == 0) && (h.left node == 0)))
          || (node == h.sentinel))
        ≡ false =
      ground arith in
    rw (test, get_next) refl

-- On a tree with a node, in which null is not a node and not the sentinel, and with as much fuel
-- as the tree is high, `st_rbtree_get_next` terminates and returns the node behind that node in
-- the order of the tree, null if it is the last.
pub get_next-next_in :
    (h : Tree) (t : Shape) (node fuel : ℕ)
    → IsTree h t
    → In node (inorder t)
    → ¬ In 0 (inorder t)
    → h.sentinel ≢ 0
    → height t ≤ fuel
    → get_next (some h) node fuel ≡ done (next_in node (inorder t))
get_next-next_in h t node fuel (p, w) i no_null real enough =
    let f = locate t h top p h.root node (height t) w i (omega arith) in
    let sub = fork f.color f.l node f.r in
    let order : inorder t ≡ (before f.up ++ inorder f.l) ++ (node ∷ (inorder f.r ++ behind f.up)) =
      sym (ap inorder f.same)
      ∙ (inorder-plug f.up sub ∙ (around_eq f.up (inorder sub) ∙ simp append_assoc)) in
    let distinct = subst Distinct order w.distinct in
    let (_, _, apart) =
      Distinct-split (before f.up ++ inorder f.l) (node ∷ (inorder f.r ++ behind f.up)) distinct in
    let filled : h.left node ≢ 0 = λ e. elim (Holds-start h node (h.left node) f.l (f.at.holds.4)) [
      | inl end ↦ real (sym end ∙ e)
      | inr j ↦ no_null (
          subst (In 0) (sym order) (
            append-In 0 (before f.up ++ inorder f.l) (node ∷ (inorder f.r ++ behind f.up)) (
              inl (
                append-In 0 (before f.up) (inorder f.l)
                  (inr (subst (λ k. In k (inorder f.l)) e j))))))
    ] in
    get_next-valid h node fuel (λ e. no_null (subst (λ k. In k (inorder t)) e i)) filled
      (f.at.holds.1)
    ∙ (onward-first h f.up f.p node f.color f.l f.r fuel f.at (let z = f.reach in omega arith)
        ∙ ap done (
            sym (
              ap (next_in node) order
              ∙ next_in-split node (before f.up ++ inorder f.l) (inorder f.r ++ behind f.up)
                  (λ j. apart node j (inl refl)))))
