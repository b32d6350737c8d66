-- ===== src/RbTree/Ends.antt =====
-- `st_rbtree_left_most` and `st_rbtree_right_most`.
use lua_sharedtable.Base.{
  ℕ, zero, suc, ◌≤◌, ◌≡◌, ◌≢◌, refl, sym, ap, ◌∙◌, List, [], ◌∷◌, ◌++◌, arith, true, false, ◌==◌,
  ==_iff, done, if◌then◌else◌,
}
use lua_sharedtable.RbTree.{Tree, is_empty, left_most, left_most_loop, right_most, right_most_loop}
use lua_sharedtable.RbTree.Shape.{Shape, tip, fork, Holds, IsTree, inorder}
use lua_sharedtable.RbTree.Mirror.{swap, mirror, rev, inorder-mirror, swap-At}
use lua_sharedtable.RbTree.Descend.{height}

abbrev pub first_or : (d : ℕ) → List ℕ → ℕ
first_or d [] = d
first_or d (x ∷ xs) = x

abbrev pub last_or : (d : ℕ) → List ℕ → ℕ
last_or d [] = d
last_or d (x ∷ xs) = last_or x xs

pub last_or-append_one : (d : ℕ) (xs : List ℕ) (x : ℕ) → last_or d (xs ++ (x ∷ [])) ≡ x
last_or-append_one d [] x = refl
last_or-append_one d (y ∷ xs) x = last_or-append_one y xs x

pub first_or-append : (d : ℕ) (xs ys : List ℕ) → first_or d (xs ++ ys) ≡ first_or (first_or d ys) xs
first_or-append d [] ys = refl
first_or-append d (x ∷ xs) ys = refl

first_or-rev : (d : ℕ) (xs : List ℕ) → first_or d (rev xs) ≡ last_or d xs
first_or-rev d [] = refl
first_or-rev d (x ∷ xs) = first_or-append d (rev xs) (x ∷ []) ∙ first_or-rev x xs

loop_stop : (h : Tree) (fuel a : ℕ) → h.left a ≡ h.sentinel → left_most_loop h (suc fuel) a ≡ done a
unfolding left_most_loop
loop_stop h fuel a e =
    let test : (h.left a == h.sentinel) ≡ true = (==_iff (h.left a) h.sentinel).1 e in
    rw (test, left_most_loop) refl

loop_step :
    (h : Tree) (fuel a : ℕ)
    → h.left a ≢ h.sentinel
    → left_most_loop h (suc fuel) a ≡ left_most_loop h fuel (h.left a)
unfolding left_most_loop
loop_step h fuel a other =
    let test : (h.left a == h.sentinel) ≡ false = ground arith in rw (test, left_most_loop) refl

-- With as much fuel as the subtree is high, the walk to the left ends at its first node.
pub left_most_loop-first :
    (t : Shape) (h : Tree) (p a fuel d : ℕ)
    → Holds h p a t
    → a ≢ h.sentinel
    → height t ≤ fuel
    → left_most_loop h fuel a ≡ done (first_or d (inorder t))
left_most_loop-first tip h p a fuel d holds real enough = absurd (real holds)
left_most_loop-first (fork c l x r) h p a zero d holds real enough = absurd (omega arith)
left_most_loop-first (fork c tip x r) h p a (suc fuel) d holds real enough =
    let (here, _, _, _, left, _) = holds in
    loop_stop h fuel a (ap h.left here ∙ left) ∙ ap done here
left_most_loop-first (fork c (fork c' l' x' r') x r) h p a (suc fuel) d holds real enough =
    let l = fork c' l' x' r' in
    let (here, _, _, _, left, _) = holds in
    let inner : h.left a ≢ h.sentinel = λ e. (left.1) (sym (left.0) ∙ (sym (ap h.left here) ∙ e)) in
    loop_step h fuel a inner
    ∙ (ap (left_most_loop h fuel) (ap h.left here)
        ∙ (left_most_loop-first l h x (h.left x) fuel x left (λ e. inner (ap h.left here ∙ e))
              (omega arith)
            ∙ ap done (sym (first_or-append d (inorder l) (x ∷ inorder r)))))

-- `st_rbtree_left_most` terminates with more fuel than the tree is high, and returns the first
-- node of the tree, null if there is none.
pub left_most-first :
    (h : Tree) (t : Shape) (fuel : ℕ)
    → IsTree h t
    → height t ≤ fuel
    → left_most h fuel ≡ done (first_or 0 (inorder t))
unfolding left_most
left_most-first h tip fuel (p, w) enough =
    let test : is_empty h ≡ true = (==_iff h.root h.sentinel).1 w.holds in rw (test, left_most) refl
left_most-first h (fork c l x r) fuel (p, w) enough =
    let inside : h.root ≢ h.sentinel = λ e. w.holds.1 (sym (w.holds.0) ∙ e) in
    let test : is_empty h ≡ false = ground arith in
    rw (test, left_most)
      (left_most_loop-first (fork c l x r) h p h.root fuel 0 w.holds inside enough)

right_most_loop-swap :
    (h : Tree) (fuel a : ℕ) → right_most_loop h fuel a ≡ left_most_loop (swap h) fuel a
unfolding left_most_loop right_most_loop
right_most_loop-swap h zero a = refl
right_most_loop-swap h (suc fuel) a = λ i. elim (h.right a == h.sentinel) [
  | true ↦ done a
  | false ↦ right_most_loop-swap h fuel (h.right a) i
]

right_most-swap : (h : Tree) (fuel : ℕ) → right_most h fuel ≡ left_most (swap h) fuel
unfolding left_most right_most
right_most-swap h fuel = λ i. if is_empty h then done 0 else right_most_loop-swap h fuel h.root i

height-mirror : (t : Shape) → height (mirror t) ≡ height t
height-mirror tip = refl
height-mirror (fork c l x r) = let a = height-mirror l in let b = height-mirror r in omega arith

-- With as much fuel as the tree is high, `st_rbtree_right_most` terminates and returns the last
-- node of the tree, null if there is none.
pub right_most-last :
    (h : Tree) (t : Shape) (fuel : ℕ)
    → IsTree h t
    → height t ≤ fuel
    → right_most h fuel ≡ done (last_or 0 (inorder t))
right_most-last h t fuel (p, w) enough =
    right_most-swap h fuel
    ∙ (left_most-first (swap h) (mirror t) fuel (p, swap-At w) (omega (arith, height-mirror t))
        ∙ ap done (ap (first_or 0) (inorder-mirror t) ∙ first_or-rev 0 (inorder t)))
