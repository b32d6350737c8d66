-- ===== src/RbTree/Lookup.antt =====
-- `st_rbtree_search`, `st_rbtree_get_next` and `st_rbtree_replace`, and the macros of inc/util.h on
-- sides.
use lua_sharedtable.Base.{
  ℕ, zero, suc, ◌-◌, ◌/◌, ◌%◌, Bool, true, false, not, ◌||◌, Option, none, some, if◌then◌else◌,
  ◌==◌, Memory, write, Ret, Run, done, out_of_fuel, undefined,
}
use lua_sharedtable.RbTree.{
  Tree, ℤ, pos, negsuc, Compare, set_left, set_parent, set_right, paint, is_empty, is_left_child,
  node_is_inited, clear_node, adopt, relink_left, left_most_loop,
}

abbrev pub side_left : ℕ
side_left = 0

abbrev pub side_eq : ℕ
side_eq = 1

abbrev pub side_right : ℕ
side_right = 2

abbrev pub side_left_eq : ℕ
side_left_eq = 16

abbrev pub side_right_eq : ℕ
side_right_eq = 18

-- `(2-(sd)) & 0x1f`, for sides up to 34
abbrev pub side_opposite : ℕ → ℕ
side_opposite sd = (34 - sd) % 32

-- `(sd) & 0x0f`
abbrev pub side_strip_eq : ℕ → ℕ
side_strip_eq sd = sd % 16

-- `(sd) & 0x11`, as a truth value
abbrev pub side_has_eq : ℕ → Bool
side_has_eq sd = not (sd % 2 == 0) || not ((sd / 16) % 2 == 0)

-- `node->branches[side]`
abbrev pub branches : Tree → (node side : ℕ) → ℕ
branches h node side =
    if side == side_left
    then h.left node
    else if side == side_right
    then h.right node
    else h.parent node

-- One round of the search at `cur`, by what `cmp(cur, target)` returns. The array `ler` has three
-- places: a result other than -1, 0 and 1 writes beside it.
abbrev pub search_step :
    (expected_side cur : ℕ) → Memory ℕ → (rest : (side : ℕ) → Memory ℕ → Run ℕ) → (ret : ℤ) → Run ℕ
search_step expected_side cur ler rest (pos zero) = elim (side_has_eq expected_side) [
  | true ↦ done cur
  | false ↦ rest (side_strip_eq expected_side) ler
]
search_step expected_side cur ler rest (pos (suc zero)) =
    rest (side_opposite side_right) (write ler side_right cur)
search_step expected_side cur ler rest (pos (suc (suc n))) = undefined
search_step expected_side cur ler rest (negsuc zero) =
    rest (side_opposite side_left) (write ler side_left cur)
search_step expected_side cur ler rest (negsuc (suc n)) = undefined

unfoldable pub search_loop : Compare → Tree → (target expected_side fuel cur : ℕ) → Memory ℕ → Run ℕ
search_loop cmp h target expected_side zero cur ler = out_of_fuel
search_loop cmp h target expected_side (suc fuel) cur ler = elim (cur == h.sentinel) [
  | true ↦ done (ler (side_strip_eq expected_side))
  | false ↦
      search_step expected_side cur ler
        (λ side. search_loop cmp h target expected_side fuel (branches h cur side)) (cmp cur target)
]

unfoldable pub search : Compare → Option Tree → (target expected_side fuel : ℕ) → Run ℕ
search cmp none target expected_side fuel = done 0
search cmp (some h) target expected_side fuel =
    if target == 0 then done 0 else search_loop cmp h target expected_side fuel h.root (λ side. 0)

-- `get_left_most(node, sentinel)`
abbrev pub get_left_most : Tree → (fuel node : ℕ) → Run ℕ
get_left_most h fuel node = left_most_loop h fuel node

-- Up to the first node that is a left child: its parent is next.
unfoldable pub next_loop : Tree → (fuel curr : ℕ) → Run ℕ
next_loop h zero curr = out_of_fuel
next_loop h (suc fuel) curr = elim (curr == h.root) [
  | true ↦ done 0
  | false ↦ elim (is_left_child h curr) [
    | true ↦ done (h.parent curr)
    | false ↦ next_loop h fuel (h.parent curr)
  ]
]

unfoldable pub get_next : Option Tree → (node fuel : ℕ) → Run ℕ
get_next none node fuel = done 0
get_next (some h) node fuel =
    if (node == 0) || not (node_is_inited h node) || (node == h.sentinel)
    then done 0
    else if h.right node == h.sentinel
    then next_loop h fuel node
    else get_left_most h fuel (h.right node)

-- `*replacement = *original;`
abbrev pub copy_node : (replacement original : ℕ) → Tree → Tree
copy_node replacement original h = paint replacement (h.color original) (
    set_right replacement (h.right original)
      (set_parent replacement (h.parent original) (set_left replacement (h.left original) h)))

-- The replacement in the place of the original, which is cleared.
abbrev pub swap_node : (original replacement : ℕ) → Tree → Tree
swap_node original replacement h =
    let h1 = copy_node replacement original h in
    let h2 = relink_left original replacement h1 in
    let h3 = adopt (h2.left original) replacement h2 in
    let h4 = adopt (h3.right original) replacement h3 in clear_node original h4

abbrev pub is_zero : ℤ → Bool
is_zero (pos zero) = true
is_zero (pos (suc n)) = false
is_zero (negsuc n) = false

unfoldable pub replace : Compare → Option Tree → (original replacement : ℕ) → Option Tree × Ret
replace cmp none original replacement = (none, Ret.arg_invalid)
replace cmp (some h) original replacement =
    if is_empty h
      || (original == 0)
      || (replacement == 0)
      || (original == h.sentinel)
      || (replacement == h.sentinel)
      || node_is_inited h replacement
    then (some h, Ret.arg_invalid)
    else if not (is_zero (cmp original replacement))
    then (some h, Ret.not_equal)
    else (some (swap_node original replacement h), Ret.ok)
