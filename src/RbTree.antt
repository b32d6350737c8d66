-- ===== src/RbTree.antt =====
-- src/rbtree/rbtree.c and rbtree.h: red-black trees of nodes that their users own. A node is its
-- address, 0 the null pointer; a `Tree` holds the three pointers and the colour of every node,
-- the root and the address of the sentinel, which is a node too. The callback `cmp` is a
-- parameter: it compares the contents around two nodes, which no function here writes.
pub mod Insertion
pub mod Shape
pub mod Frame
pub mod Rotate
pub mod Mirror
pub mod Paint
pub mod Balance
pub mod Round
pub mod Fixup
pub mod Loop
pub mod Order
pub mod Descend
pub mod Walking
pub mod Leaf
pub mod Inserted
pub mod Lookup
pub mod Deletion
pub mod Ends
pub mod Locate
pub mod Sibling
pub mod Shrink
pub mod Restore
pub mod Rebalance
pub mod Inner
pub mod Cut
pub mod Take
pub mod Removal
pub mod Deleted
pub mod Height
pub mod Single
pub mod Double
pub mod Search
pub mod Next
pub mod Replaced
pub mod Replace
mod Tests
pub use lua_sharedtable.Base.{ℤ, pos, negsuc}
use lua_sharedtable.Base.{
  ℕ, zero, suc, Bool, true, false, not, ◌&&◌, if◌then◌else◌, ◌==◌, Memory, write, Ret, Run, done,
  out_of_fuel,
}

abbrev pub is_negative : ℤ → Bool
is_negative (pos n) = false
is_negative (negsuc n) = true

abbrev pub is_positive : ℤ → Bool
is_positive (pos zero) = false
is_positive (pos (suc n)) = true
is_positive (negsuc n) = false

abbrev pub Compare : Type 0
Compare = ℕ → ℕ → ℤ

pub record Tree : Type 0 where
  pub left : Memory ℕ
  pub parent : Memory ℕ
  pub right : Memory ℕ
  pub color : Memory ℕ
  pub root : ℕ
  pub sentinel : ℕ

-- `a->left = v`, and so on
abbrev pub set_left : (a v : ℕ) → Tree → Tree
set_left a v h = record h { left = write h.left a v }

abbrev pub set_right : (a v : ℕ) → Tree → Tree
set_right a v h = record h { right = write h.right a v }

abbrev pub set_parent : (a v : ℕ) → Tree → Tree
set_parent a v h = record h { parent = write h.parent a v }

abbrev pub set_root : (v : ℕ) → Tree → Tree
set_root v h = record h { root = v }

abbrev pub paint : (node v : ℕ) → Tree → Tree
paint node v h = record h { color = write h.color node v }

abbrev pub red : (node : ℕ) → Tree → Tree
red node h = paint node 1 h

abbrev pub black : (node : ℕ) → Tree → Tree
black node h = paint node 0 h

abbrev pub copy_color : (n1 n2 : ℕ) → Tree → Tree
copy_color n1 n2 h = paint n1 (h.color n2) h

abbrev pub is_empty : Tree → Bool
is_empty h = h.root == h.sentinel

abbrev pub is_red : Tree → (node : ℕ) → Bool
is_red h node = not (h.color node == 0)

abbrev pub is_black : Tree → (node : ℕ) → Bool
is_black h node = not (is_red h node)

abbrev pub is_left_child : Tree → (node : ℕ) → Bool
is_left_child h node = node == h.left (h.parent node)

abbrev pub is_right_child : Tree → (node : ℕ) → Bool
is_right_child h node = node == h.right (h.parent node)

abbrev pub node_is_inited : Tree → (node : ℕ) → Bool
node_is_inited h node = not ((h.parent node == 0) && (h.right node == 0) && (h.left node == 0))

-- `*node = st_rbtree_node_empty`
abbrev pub clear_node : (node : ℕ) → Tree → Tree
clear_node node h = black node (set_right node 0 (set_parent node 0 (set_left node 0 h)))

-- The tree is at an address other than 0, `h` holds the memory around it, `sentinel` is the
-- address of its sentinel. `has_cmp` says whether a callback was given.
unfoldable pub init : (tree sentinel : ℕ) (has_cmp : Bool) → Tree → Tree × Ret
init tree sentinel has_cmp h =
    if tree == 0 then (h, Ret.arg_invalid) else if not has_cmp then (h, Ret.arg_invalid) else (
      record (black sentinel (clear_node sentinel h)) { root = sentinel; sentinel = sentinel },
      Ret.ok,
    )

unfoldable pub left_most_loop : Tree → (fuel node : ℕ) → Run ℕ
left_most_loop h zero node = out_of_fuel
left_most_loop h (suc fuel) node = elim (h.left node == h.sentinel) [
  | true ↦ done node
  | false ↦ left_most_loop h fuel (h.left node)
]

unfoldable pub right_most_loop : Tree → (fuel node : ℕ) → Run ℕ
right_most_loop h zero node = out_of_fuel
right_most_loop h (suc fuel) node = elim (h.right node == h.sentinel) [
  | true ↦ done node
  | false ↦ right_most_loop h fuel (h.right node)
]

-- null from an empty tree
unfoldable pub left_most : Tree → (fuel : ℕ) → Run ℕ
unfolding left_most_loop
left_most h fuel = if is_empty h then done 0 else left_most_loop h fuel h.root

unfoldable pub right_most : Tree → (fuel : ℕ) → Run ℕ
unfolding right_most_loop
right_most h fuel = if is_empty h then done 0 else right_most_loop h fuel h.root

-- The pointer to `node`, that of its parent or the root, is set to `child`. The tests that a node
-- is a left or a right child are made in both orders in the source.
abbrev pub relink_left : (node child : ℕ) → Tree → Tree
relink_left node child h =
    if node == h.root
    then set_root child h
    else if is_left_child h node
    then set_left (h.parent node) child h
    else set_right (h.parent node) child h

abbrev pub relink_right : (node child : ℕ) → Tree → Tree
relink_right node child h =
    if node == h.root
    then set_root child h
    else if is_right_child h node
    then set_right (h.parent node) child h
    else set_left (h.parent node) child h

-- `if (node != sentinel) node->parent = parent;`
abbrev pub adopt : (node parent : ℕ) → Tree → Tree
adopt node parent h = if node == h.sentinel then h else set_parent node parent h

unfoldable pub left_rotate : (node : ℕ) → Tree → Tree
left_rotate node h =
    let child = h.right node in
    let h1 = set_right node (h.left child) h in
    let h2 = adopt (h1.left child) node h1 in
    let h3 = set_parent child (h2.parent node) h2 in
    let h4 = relink_left node child h3 in
    let h5 = set_left child node h4 in set_parent node child h5

unfoldable pub right_rotate : (node : ℕ) → Tree → Tree
right_rotate node h =
    let child = h.left node in
    let h1 = set_left node (h.right child) h in
    let h2 = adopt (h1.right child) node h1 in
    let h3 = set_parent child (h2.parent node) h2 in
    let h4 = relink_right node child h3 in
    let h5 = set_right child node h4 in set_parent node child h5
