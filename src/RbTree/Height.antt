-- ===== src/RbTree/Height.antt =====
-- How high a red-black tree is, and so how many rounds the loops of rbtree.c take.
use native.Mathlib.Nat.{pow-suc, pow-le-pow_right}
use lua_sharedtable.Base.{
  ℕ, zero, suc, ◌+◌, ◌^◌, ◌<◌, ◌≤◌, ◌≡◌, ◌≢◌, sym, ap, subst, List, ◌∷◌, arith, some, done, length,
  length-append,
}
use lua_sharedtable.NodeList.Linked.{In}
use lua_sharedtable.RbTree.{Tree, Compare}
use lua_sharedtable.RbTree.Lookup.{search}
use lua_sharedtable.RbTree.Shape.{Shape, tip, fork, inorder}
use lua_sharedtable.RbTree.Balance.{IsBlack, Balanced}
use lua_sharedtable.RbTree.Loop.{RedBlack}
use lua_sharedtable.RbTree.Order.{IsOrder, Sorted}
use lua_sharedtable.RbTree.Descend.{height}
use lua_sharedtable.RbTree.Search.{IsSide, IsUnit, SearchOutcome, search-nearest}

length-fork :
    (c : ℕ) (l : Shape) (x : ℕ) (r : Shape)
    → length (inorder (fork c l x r)) ≡ length (inorder l) + suc (length (inorder r))
length-fork c l x r = length-append (inorder l) (x ∷ inorder r)

-- `n` black nodes on each path: the nodes are many.
length-Balanced : (t : Shape) (n : ℕ) → Balanced t n → 2 ^ n ≤ suc (length (inorder t))
length-Balanced tip n e = subst (λ n. 2 ^ n ≤ 1) (sym e) (omega arith)
length-Balanced (fork zero l x r) n (m, e, bl, br) =
    let left = length-Balanced l m bl in
    let right = length-Balanced r m br in
    subst (λ n. 2 ^ n ≤ suc (length (inorder (fork 0 l x r)))) (sym e)
      (omega (arith, left, right, pow-suc 2 m, length-fork 0 l x r))
length-Balanced (fork (suc c) l x r) n (_, _, bl, br) =
    let left = length-Balanced l n bl in omega (arith, left, length-fork (suc c) l x r)

height-Balanced :
    (t : Shape) (n : ℕ) → Balanced t n → (height t ≤ suc (n + n)) × (IsBlack t → height t ≤ n + n)
height-Balanced tip n b = (omega arith, λ is. omega arith)
height-Balanced (fork zero l x r) n (m, e, bl, br) =
    let left = (height-Balanced l m bl).0 in
    let right = (height-Balanced r m br).0 in (omega arith, λ is. omega arith)
height-Balanced (fork (suc c) l x r) n (lb, rb, bl, br) =
    let left = (height-Balanced l n bl).1 lb in
    let right = (height-Balanced r n br).1 rb in (omega arith, λ is. absurd (omega (arith, is)))

pub height-RedBlack :
    {h : Tree} {xs : List ℕ} (t : RedBlack h xs) (k : ℕ)
    → suc (length xs) < 2 ^ suc k
    → height t.shape ≤ k + k
height-RedBlack {h} {xs} t k few =
    let nodes : length (inorder t.shape) ≡ length xs = ap length t.order in
    let many = length-Balanced t.shape t.n t.balanced in
    let low = (height-Balanced t.shape t.n t.balanced).1 t.is_black in
    let grows : suc k ≤ t.n → 2 ^ suc k ≤ 2 ^ t.n = λ e. pow-le-pow_right (omega arith) e in
    ground arith

-- On a red-black tree of fewer than `2 ^ (k + 1) - 1` nodes, sorted by a `cmp` that orders them
-- and returns -1, 0 or 1 for them, for a target that is not null and one of the five sides,
-- `st_rbtree_search` ends after `2 * k` rounds at most with a result as `SearchOutcome` describes
-- it.
pub search-RedBlack :
    (cmp : Compare) (laws : IsOrder cmp) (h : Tree) (xs : List ℕ) (t : RedBlack h xs)
    (target side k fuel : ℕ)
    → Sorted cmp xs
    → ((a : ℕ) → In a xs → IsUnit (cmp a target))
    → target ≢ 0
    → IsSide side
    → suc (length xs) < 2 ^ suc k
    → k + k < fuel
    → (result : ℕ) × (search cmp (some h) target side fuel ≡ done result)
      × SearchOutcome cmp h target side xs result
search-RedBlack cmp laws h xs t target side k fuel sorted units real is_side few enough =
    let low = height-RedBlack t k few in
    subst
      (λ ys.
        (result : ℕ) × (search cmp (some h) target side fuel ≡ done result)
        × SearchOutcome cmp h target side ys result)
      t.order
      (search-nearest cmp laws h t.shape target side fuel t.place
        (subst (Sorted cmp) (sym t.order) sorted) (λ a i. units a (subst (In a) t.order i)) real
        is_side (omega arith))
