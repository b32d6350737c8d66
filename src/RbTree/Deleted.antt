-- ===== src/RbTree/Deleted.antt =====
-- `st_rbtree_delete` as a whole.
use mathlib.Core.List.{append_assoc}
use lua_sharedtable.Base.{
  ℕ, ◌<◌, ◌≡◌, ◌≢◌, refl, sym, ap, ◌∙◌, subst, inl, inr, List, [], ◌∷◌, ◌++◌, arith, true, false,
  ◌==◌, ==_iff, if◌then◌else◌, some, Ret, done, ◌>>=◌,
}
use lua_sharedtable.NodeList.Linked.{In, Distinct, Distinct-split}
use lua_sharedtable.RbTree.{Tree}
use lua_sharedtable.RbTree.Deletion.{unlink, delete_node, delete}
use lua_sharedtable.RbTree.Shape.{
  fork, top, inorder, inorder-plug, around, around_eq, before, behind,
}
use lua_sharedtable.RbTree.Balance.{IsBlack, Balanced}
use lua_sharedtable.RbTree.Loop.{RedBlack}
use lua_sharedtable.RbTree.Descend.{height}
use lua_sharedtable.RbTree.Locate.{locate}
use lua_sharedtable.RbTree.Rebalance.{delete_fixup-RedBlack}
use lua_sharedtable.RbTree.Removal.{Gone, In-plug, pick-Gone}

-- The list without the first `k` in it.
abbrev pub without : (k : ℕ) → List ℕ → List ℕ
without k [] = []
without k (x ∷ xs) = if x == k then xs else x ∷ without k xs

without-split : (k : ℕ) (ys zs : List ℕ) → ¬ In k ys → without k (ys ++ (k ∷ zs)) ≡ ys ++ zs
without-split k [] zs new = ground arith
without-split k (y ∷ ys) zs new =
    let other : (y == k) ≡ false = let ne = λ (e : y ≡ k). new (inl (sym e)) in ground arith in
    rw other (ap (λ t. y ∷ t) (without-split k ys zs (λ i. new (inr i))))

-- The function from where the node is taken out.
finish-RedBlack :
    (h : Tree) (z fuel : ℕ) (xs : List ℕ)
    → z ≢ 0
    → 0 < fuel
    → Gone h z fuel xs
    → (h' : Tree) × (delete (some h) z fuel ≡ done (some h', Ret.ok)) × RedBlack h' xs
unfolding delete delete_node
finish-RedBlack h z fuel xs real some_left (s, child, run, inl (at, tree)) =
    let g = unlink z s child h in
    let given : (z == 0) ≡ false = ground arith in
    let stop : (g.1 == 0) ≡ true = (==_iff g.1 0).1 at in
    (g.0, rw (given, delete, delete_node, run, ◌>>=◌, stop) refl, tree)
finish-RedBlack h z fuel xs real some_left (s, child, run, inr (at, lacking)) =
    let g = unlink z s child h in
    let given : (z == 0) ≡ false = ground arith in
    let goes : (g.1 == 0) ≡ false = ground arith in
    let (h', loop, tree) = delete_fixup-RedBlack fuel g.0 xs g.1 (inl lacking) some_left in
    (h', rw (given, delete, delete_node, run, ◌>>=◌, goes, loop) refl, tree)

-- On a red-black tree in which null is not a node and not the sentinel, for a node in it and with
-- more fuel than the tree is high, `st_rbtree_delete` terminates with success and leaves a red-
-- black tree of the other nodes in their order.
pub delete-RedBlack :
    (h : Tree) (xs : List ℕ) (t : RedBlack h xs) (z fuel : ℕ)
    → In z xs
    → ¬ In 0 xs
    → h.sentinel ≢ 0
    → height t.shape < fuel
    → (h' : Tree) × (delete (some h) z fuel ≡ done (some h', Ret.ok)) × RedBlack h' (without z xs)
delete-RedBlack h xs t z fuel i no_null real enough =
    let (p, w) = t.place in
    let j = subst (In z) (sym t.order) i in
    let null = λ (k : In 0 (inorder t.shape)). no_null (subst (In 0) t.order k) in
    let f = locate t.shape h top p h.root z (height t.shape) w j (omega arith) in
    let sub = fork f.color f.l z f.r in
    let order : inorder t.shape
        ≡ (before f.up ++ inorder f.l) ++ (z ∷ (inorder f.r ++ behind f.up)) =
      sym (ap inorder f.same)
      ∙ (inorder-plug f.up sub ∙ (around_eq f.up (inorder sub) ∙ simp append_assoc)) in
    let (_, _, apart) =
      Distinct-split (before f.up ++ inorder f.l) (z ∷ (inorder f.r ++ behind f.up))
        (subst Distinct order w.distinct) in
    let left : around f.up (inorder f.l ++ inorder f.r) ≡ without z xs =
      around_eq f.up (inorder f.l ++ inorder f.r)
      ∙ ((simp append_assoc)
          ∙ (sym (
                without-split z (before f.up ++ inorder f.l) (inorder f.r ++ behind f.up)
                  (λ k. apart z k (inl refl)))
              ∙ ap (without z) (sym order ∙ t.order))) in
    finish-RedBlack h z fuel (without z xs) (λ e. no_null (subst (λ k. In k xs) e i)) (omega arith)
      (subst (Gone h z fuel) left (
        pick-Gone h z fuel f.up f.color f.l f.r (record {
          p = f.p;
          m = t.n;
          at = f.at;
          balanced = subst (λ s. Balanced s t.n) (sym f.same) t.balanced;
          is_black = subst IsBlack (sym f.same) t.is_black;
          no_null = λ k. null (subst (λ s. In 0 (inorder s)) f.same (In-plug 0 f.up sub k));
          real = real;
          enough = let e = f.reach in omega arith;
        })))
