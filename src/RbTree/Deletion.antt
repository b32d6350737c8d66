-- ===== src/RbTree/Deletion.antt =====
-- `st_rbtree_delete` and its static function `delete_node`.
use lua_sharedtable.Base.{
  ℕ, zero, suc, Bool, true, false, not, ◌&&◌, Option, none, some, if◌then◌else◌, ◌==◌, Ret, Run,
  done, out_of_fuel, ◌>>=◌,
}
use lua_sharedtable.RbTree.{
  Tree, set_left, set_right, set_parent, set_root, red, black, copy_color, is_red, is_black,
  is_left_child, adopt, relink_left, left_rotate, right_rotate,
}
use lua_sharedtable.RbTree.Lookup.{get_left_most}

-- The three pointers of a node are set to null.
abbrev pub detach : (node : ℕ) → Tree → Tree
detach node h = set_parent node 0 (set_right node 0 (set_left node 0 h))

-- The node that leaves its place, and its only child or the sentinel.
unfoldable pub successor : Tree → (node fuel : ℕ) → Run (ℕ × ℕ)
successor h node fuel = elim (h.left node == h.sentinel) [
  | true ↦ done (node, h.right node)
  | false ↦ elim (h.right node == h.sentinel) [
    | true ↦ done (node, h.left node)
    | false ↦ get_left_most h fuel (h.right node) >>= λ s. done (s, h.right s)
  ]
]

-- It is the root.
abbrev pub delete_root : (node child : ℕ) → Tree → Tree
delete_root node child h = detach node (black child (set_root child h))

-- Its child takes its place in its parent.
abbrev pub bypass : (succ child : ℕ) → Tree → Tree
bypass succ child h =
    if is_left_child h succ
    then set_left (h.parent succ) child h
    else set_right (h.parent succ) child h

-- `succ` takes the place of `node`, with its children, its parent and its colour.
abbrev pub take_place : (node succ : ℕ) → Tree → Tree
take_place node succ h =
    let h1 = set_left succ (h.left node) h in
    let h2 = set_right succ (h1.right node) h1 in
    let h3 = set_parent succ (h2.parent node) h2 in
    let h4 = copy_color succ node h3 in
    let h5 = relink_left node succ h4 in
    let h6 = adopt (h5.left succ) succ h5 in adopt (h6.right succ) succ h6

-- The parent of `child`, which may be the sentinel, is set.
abbrev pub splice : (node succ child : ℕ) → Tree → Tree
splice node succ child h =
    if succ == node
    then set_parent child (h.parent succ) h
    else take_place node succ (
        if h.parent succ == node
        then set_parent child succ h
        else set_parent child (h.parent succ) h)

-- The tree and the node to rebalance from, null if there is none.
abbrev pub unlink : (node succ child : ℕ) → Tree → Tree × ℕ
unlink node succ child h = if succ == h.root then (delete_root node child h, 0) else (
  detach node (splice node succ child (bypass succ child h)),
  if is_red h succ then 0 else child,
)

unfoldable pub delete_node : (node fuel : ℕ) → Tree → Run (Tree × ℕ)
delete_node node fuel h = successor h node fuel >>= λ s. done (unlink node s.0 s.1 h)

-- A red brother: the parent is turned, so that the next brother is black.
abbrev pub black_brother_left : (at : ℕ) → Tree → Tree
black_brother_left at h =
    let brother = h.right (h.parent at) in
    if is_red h brother
    then (let h1 = red (h.parent at) (black brother h) in left_rotate (h1.parent at) h1)
    else h

abbrev pub black_brother_right : (at : ℕ) → Tree → Tree
black_brother_right at h =
    let brother = h.left (h.parent at) in
    if is_red h brother
    then (let h1 = red (h.parent at) (black brother h) in right_rotate (h1.parent at) h1)
    else h

abbrev pub has_black_children : Tree → (node : ℕ) → Bool
has_black_children h node = is_black h (h.left node) && is_black h (h.right node)

-- A brother with a red child: after it the tree is balanced.
abbrev pub turn_brother_left : (at : ℕ) → Tree → Tree
turn_brother_left at h =
    let brother = h.right (h.parent at) in
    if is_black h (h.right brother)
    then right_rotate brother (red brother (black (h.left brother) h))
    else h

abbrev pub turn_brother_right : (at : ℕ) → Tree → Tree
turn_brother_right at h =
    let brother = h.left (h.parent at) in
    if is_black h (h.left brother)
    then left_rotate brother (red brother (black (h.right brother) h))
    else h

abbrev pub finish_left : (at : ℕ) → Tree → Tree
finish_left at h =
    let brother = h.right (h.parent at) in
    let h1 = black (h.parent at) (copy_color brother (h.parent at) h) in
    left_rotate (h1.parent at) (black (h1.right brother) h1)

abbrev pub finish_right : (at : ℕ) → Tree → Tree
finish_right at h =
    let brother = h.left (h.parent at) in
    let h1 = black (h.parent at) (copy_color brother (h.parent at) h) in
    right_rotate (h1.parent at) (black (h1.left brother) h1)

-- One round of the loop: the tree and the next node.
unfoldable pub delete_round_left : (at : ℕ) → Tree → Tree × ℕ
delete_round_left at h =
    let h1 = black_brother_left at h in
    let brother = h1.right (h1.parent at) in
    if has_black_children h1 brother
    then (red brother h1, (red brother h1).parent at)
    else (let h2 = finish_left at (turn_brother_left at h1) in (h2, h2.root))

unfoldable pub delete_round_right : (at : ℕ) → Tree → Tree × ℕ
delete_round_right at h =
    let h1 = black_brother_right at h in
    let brother = h1.left (h1.parent at) in
    if has_black_children h1 brother
    then (red brother h1, (red brother h1).parent at)
    else (let h2 = finish_right at (turn_brother_right at h1) in (h2, h2.root))

unfoldable pub delete_round : (at : ℕ) → Tree → Tree × ℕ
delete_round at h = if is_left_child h at then delete_round_left at h else delete_round_right at h

unfoldable pub delete_fixup : (fuel at : ℕ) → Tree → Run Tree
delete_fixup zero at h = out_of_fuel
delete_fixup (suc fuel) at h = elim (not (at == h.root) && is_black h at) [
  | true ↦ delete_fixup fuel (delete_round at h).1 (delete_round at h).0
  | false ↦ done (black at h)
]

unfoldable pub delete : Option Tree → (node fuel : ℕ) → Run (Option Tree × Ret)
delete none node fuel = done (none, Ret.arg_invalid)
delete (some h) node fuel = elim (node == 0) [
  | true ↦ done (some h, Ret.arg_invalid)
  | false ↦ delete_node node fuel h >>= λ r. elim (r.1 == 0) [
    | true ↦ done (some r.0, Ret.ok)
    | false ↦ delete_fixup fuel r.1 r.0 >>= λ g. done (some g, Ret.ok)
  ]
]
