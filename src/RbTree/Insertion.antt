-- ===== src/RbTree/Insertion.antt =====
-- `st_rbtree_insert` and its static function `insert_node`.
use lua_sharedtable.Base.{
  ℕ, zero, suc, Bool, true, false, not, ◌&&◌, ◌||◌, Option, none, some, if◌then◌else◌, ◌==◌, Ret,
  Run, done, out_of_fuel, ◌>>=◌,
}
use lua_sharedtable.RbTree.{
  Tree, Compare, is_negative, is_positive, set_left, set_right, set_parent, set_root, red, black,
  is_empty, is_red, is_left_child, is_right_child, left_rotate, right_rotate,
}

-- `existed_node` is an optional pointer to a node, `none` if it is null: `*existed_node = node`.
abbrev pub note : Option ℕ → (node : ℕ) → Option ℕ
note none node = none
note (some old) node = some node

-- Where the walk of `insert_node` ends: at a node equal to the new one, if that is not allowed, or
-- at the pointer `p`, the left or the right one of `curr`.
pub data Walk : Type 0 where
  refused : (existed : Option ℕ) → Walk
  place : (existed : Option ℕ) → (curr : ℕ) → (on_left : Bool) → Walk

abbrev pub child : Tree → (node : ℕ) → (on_left : Bool) → ℕ
child h node on_left = if on_left then h.left node else h.right node

abbrev pub set_child : (node : ℕ) → (on_left : Bool) → (v : ℕ) → Tree → Tree
set_child node on_left v h = if on_left then set_left node v h else set_right node v h

-- One round of the walk at `curr`, by whether the new node is before or behind it.
abbrev pub walk_step :
    Tree
    → (allow_equal : ℕ) → Option ℕ
    → (curr : ℕ) → (rest : Option ℕ → ℕ → Run Walk) → (is_less is_more : Bool) → Run Walk
walk_step h allow_equal existed curr rest is_less is_more =
    let equal = not is_less && not is_more in
    let seen = if equal then note existed curr else existed in
    elim (equal && (allow_equal == 0)) [
      | true ↦ done (Walk.refused seen)
      | false ↦ elim (child h curr is_less == h.sentinel) [
        | true ↦ done (Walk.place seen curr is_less)
        | false ↦ rest seen (child h curr is_less)
      ]
    ]

unfoldable pub walk :
    Compare → Tree → (node allow_equal fuel : ℕ) → Option ℕ → (curr : ℕ) → Run Walk
walk cmp h node allow_equal zero existed curr = out_of_fuel
walk cmp h node allow_equal (suc fuel) existed curr =
    walk_step h allow_equal existed curr (walk cmp h node allow_equal fuel)
      (is_negative (cmp node curr)) (is_positive (cmp node curr))

-- The new leaf at `*p`.
abbrev pub put_leaf : (node curr : ℕ) → (on_left : Bool) → Tree → Tree
put_leaf node curr on_left h = red node (
    set_right node h.sentinel
      (set_left node h.sentinel (set_parent node curr (set_child curr on_left node h))))

abbrev pub put_root : (node : ℕ) → Tree → Tree
put_root node h =
    set_root node
      (black node (set_right node h.sentinel (set_left node h.sentinel (set_parent node 0 h))))

-- `need_rebalance` is not read where the code does not set it.
pub record Placed : Type 0 where
  pub tree : Tree
  pub ret : Ret
  pub existed : Option ℕ
  pub need_rebalance : Bool

abbrev pub placed : (node : ℕ) → Tree → Walk → Placed
placed node h (refused seen) = record {
  tree = h;
  ret = Ret.existed;
  existed = seen;
  need_rebalance = false;
}
placed node h (place seen curr on_left) = record {
  tree = put_leaf node curr on_left h;
  ret = Ret.ok;
  existed = seen;
  need_rebalance = true;
}

unfoldable pub insert_node :
    Compare → Tree → (node allow_equal : ℕ) → Option ℕ → (fuel : ℕ) → Run Placed
insert_node cmp h node allow_equal existed fuel = elim (is_empty h) [
  | true ↦
      done
        (record { tree = put_root node h; ret = Ret.ok; existed = existed; need_rebalance = false })
  | false ↦ walk cmp h node allow_equal fuel existed h.root >>= λ w. done (placed node h w)
]

-- The parent of `node` and its `uncle` black, the grandparent red: the next node is that one.
abbrev pub recolor : (node uncle : ℕ) → Tree → Tree × ℕ
recolor node uncle h =
    let h1 = black uncle (black (h.parent node) h) in
    let grand = h1.parent (h1.parent node) in (red grand h1, grand)

-- With a black uncle: an inner node changes places with its parent, then the parent becomes black,
-- the grandparent red, and the grandparent is turned.
abbrev pub bend_left : (node : ℕ) → Tree → Tree × ℕ
bend_left node h =
    if is_right_child h node then (left_rotate (h.parent node) h, h.parent node) else (h, node)

abbrev pub bend_right : (node : ℕ) → Tree → Tree × ℕ
bend_right node h =
    if is_left_child h node then (right_rotate (h.parent node) h, h.parent node) else (h, node)

abbrev pub turn_right : (node : ℕ) → Tree → Tree
turn_right node h =
    let h1 = black (h.parent node) h in
    let h2 = red (h1.parent (h1.parent node)) h1 in right_rotate (h2.parent (h2.parent node)) h2

abbrev pub turn_left : (node : ℕ) → Tree → Tree
turn_left node h =
    let h1 = black (h.parent node) h in
    let h2 = red (h1.parent (h1.parent node)) h1 in left_rotate (h2.parent (h2.parent node)) h2

-- One round of the loop where the parent of `node` is a left child.
unfoldable pub insert_round_left : (node : ℕ) → Tree → Tree × ℕ
insert_round_left node h =
    let uncle = h.right (h.parent (h.parent node)) in
    if is_red h uncle
    then recolor node uncle h
    else (let (h1, at) = bend_left node h in (turn_right at h1, at))

-- One round where it is a right child.
unfoldable pub insert_round_right : (node : ℕ) → Tree → Tree × ℕ
insert_round_right node h =
    let uncle = h.left (h.parent (h.parent node)) in
    if is_red h uncle
    then recolor node uncle h
    else (let (h1, at) = bend_right node h in (turn_left at h1, at))

unfoldable pub insert_round : (node : ℕ) → Tree → Tree × ℕ
insert_round node h =
    if is_left_child h (h.parent node) then insert_round_left node h else insert_round_right node h

unfoldable pub insert_fixup : (fuel node : ℕ) → Tree → Run Tree
insert_fixup zero node h = out_of_fuel
insert_fixup (suc fuel) node h = elim (not (node == h.root) && is_red h (h.parent node)) [
  | true ↦ insert_fixup fuel (insert_round node h).1 (insert_round node h).0
  | false ↦ done (black h.root h)
]

-- The rest of `st_rbtree_insert` behind the call of `insert_node`.
abbrev pub rebalance : (fuel node : ℕ) → Placed → Run (Tree × Ret × Option ℕ)
rebalance fuel node p = elim p.need_rebalance [
  | true ↦ insert_fixup fuel node p.tree >>= λ h. done (h, p.ret, p.existed)
  | false ↦ done (p.tree, p.ret, p.existed)
]

-- A null pointer to the tree is `none`.
unfoldable pub insert :
    Compare
    → Option Tree
    → (node allow_equal : ℕ) → Option ℕ
    → (fuel : ℕ) → Run (Option Tree × Ret × Option ℕ)
insert cmp none node allow_equal existed fuel = done (none, Ret.arg_invalid, existed)
insert cmp (some h) node allow_equal existed fuel =
    elim ((node == 0) || not ((allow_equal == 0) || (allow_equal == 1))) [
      | true ↦ done (some h, Ret.arg_invalid, existed)
      | false ↦ insert_node cmp h node allow_equal existed fuel >>= λ p.
          rebalance fuel node p >>= λ r. done (some r.0, r.1, r.2)
    ]
