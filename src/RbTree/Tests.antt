-- ===== src/RbTree/Tests.antt =====
-- Runs of rbtree.c on a tree of three nodes, whose addresses are their keys.
use lua_sharedtable.Base.{
  ℕ, ◌≡◌, refl, inl, inr, false, [], ◌∷◌, arith, ◌||◌, ◌==◌, ltb, if◌then◌else◌, Option, none, some,
  Ret, Run, done, out_of_fuel, abort, undefined,
}
use lua_sharedtable.RbTree.{
  Tree, pos, negsuc, Compare, node_is_inited, left_rotate, right_rotate, left_most, left_most_loop,
  right_most, right_most_loop,
}
use lua_sharedtable.RbTree.Insertion.{
  insert, insert_node, walk, insert_fixup, insert_round, insert_round_left, insert_round_right,
}
use lua_sharedtable.RbTree.Lookup.{
  search, search_loop, get_next, next_loop, replace, side_left, side_right_eq,
}
use lua_sharedtable.RbTree.Deletion.{
  delete, delete_node, delete_fixup, delete_round, delete_round_left, delete_round_right, successor,
}
use lua_sharedtable.RbTree.Shape.{tip, fork}
use lua_sharedtable.RbTree.Loop.{RedBlack}
use lua_sharedtable.RbTree.Order.{IsOrder, Sorted}
use lua_sharedtable.RbTree.Inserted.{InsertOutcome, insert-Inserted}
use lua_sharedtable.RbTree.Ends.{right_most-last}
use lua_sharedtable.RbTree.Search.{SearchOutcome, search-nearest}
use lua_sharedtable.RbTree.Next.{get_next-next_in}
use lua_sharedtable.RbTree.Height.{search-RedBlack}
use lua_sharedtable.RbTree.Deleted.{delete-RedBlack}
use lua_sharedtable.RbTree.Replace.{replace-RedBlack}

abbrev by_key : Compare
by_key a b = if ltb a b then negsuc 0 else if a == b then pos 0 else pos 1

by_key-IsOrder : IsOrder by_key
by_key-IsOrder = record {
  from = λ n x k a b. ground arith;
  turn = λ n k a. ground arith;
  flip = λ n k. ground arith;
}

abbrev three : Tree
three = record {
  left = λ k. if k == 2 then 1 else 9;
  parent = λ k. if k == 2 then 0 else 2;
  right = λ k. if k == 2 then 3 else 9;
  color = λ k. if (k == 1) || (k == 3) then 1 else 0;
  root = 2;
  sentinel = 9;
}

abbrev three_tree : RedBlack three (1 ∷ 2 ∷ 3 ∷ [])
three_tree = record {
  shape = fork 0 (fork 1 tip 1 tip) 2 (fork 1 tip 3 tip);
  n = 1;
  place = (
    0,
    record {
      holds = omega arith;
      above = refl;
      distinct = (omega arith, (omega arith, (omega arith, tt)));
      black_end = refl;
    },
  );
  is_black = refl;
  balanced = (0, refl, (tt, tt, refl, refl), (tt, tt, refl, refl));
  order = refl;
}

abbrev tree_of : Option Tree → Tree
tree_of none = three
tree_of (some h) = h

abbrev ran : Run (Option Tree × Ret × Option ℕ) → Tree
ran (done r) = tree_of r.0
ran abort = three
ran out_of_fuel = three
ran undefined = three

abbrev deleted : Run (Option Tree × Ret) → Tree
deleted (done r) = tree_of r.0
deleted abort = three
deleted out_of_fuel = three
deleted undefined = three

-- The colours of a red-black tree after a fourth and a fifth node.
abbrev five : Tree
five = ran (insert by_key (some (ran (insert by_key (some three) 4 0 none 9))) 5 0 none 9)

five_shape : (five.root ≡ 2) × (five.right 2 ≡ 4) × (five.left 4 ≡ 3) × (five.right 4 ≡ 5)
unfolding insert insert_node walk insert_fixup insert_round insert_round_left insert_round_right
    left_rotate right_rotate
five_shape = (refl, refl, refl, refl)

without_two :
    let g = deleted (delete (some five) 2 9) in
    (g.root ≡ 3) × (g.left 3 ≡ 1) × (g.right 3 ≡ 4) × (g.right 4 ≡ 5) × (g.left 4 ≡ 9)
unfolding insert insert_node walk insert_fixup insert_round insert_round_left insert_round_right
    left_rotate right_rotate delete delete_node delete_fixup delete_round delete_round_left
    delete_round_right successor left_most_loop
without_two = (refl, refl, refl, refl, refl)

-- The deletion of a black leaf turns its parent.
without_one :
    let g = deleted (delete (some five) 1 9) in
    (g.root ≡ 4) × (g.left 4 ≡ 2) × (g.right 4 ≡ 5) × (g.right 2 ≡ 3) × (g.left 2 ≡ 9)
unfolding insert insert_node walk insert_fixup insert_round insert_round_left insert_round_right
    left_rotate right_rotate delete delete_node delete_fixup delete_round delete_round_left
    delete_round_right successor left_most_loop
without_one = (refl, refl, refl, refl, refl)

search_runs :
    (search by_key (some three) 3 side_left 5 ≡ done 2)
    × (search by_key (some three) 5 side_right_eq 5 ≡ done 0)
    × (get_next (some three) 1 5 ≡ done 2)
    × (get_next (some three) 3 5 ≡ done 0)
    × (left_most three 5 ≡ done 1)
    × (right_most three 5 ≡ done 3)
unfolding search search_loop get_next next_loop left_most left_most_loop right_most right_most_loop
search_runs = (refl, refl, refl, refl, refl, refl)

three-Sorted : Sorted by_key (1 ∷ 2 ∷ 3 ∷ [])
three-Sorted = ((λ k i. ground arith), ((λ k i. ground arith), ((λ k i. absurd i), tt)))

insert-Inserted_example :
    (h' : Tree) × (ret : Ret) × (seen : Option ℕ) × (insert by_key (some three) 4 0 none 5
      ≡ done (some h', ret, seen))
    × InsertOutcome by_key three 4 0 none (1 ∷ 2 ∷ 3 ∷ []) h' ret seen
insert-Inserted_example =
    insert-Inserted by_key by_key-IsOrder three (1 ∷ 2 ∷ 3 ∷ []) three_tree 4 0 none 5 three-Sorted
      (omega arith) (omega arith) (omega arith) (inl refl) (omega arith)

search-nearest_example :
    (result : ℕ) × (search by_key (some three) 4 side_left 5 ≡ done result)
    × SearchOutcome by_key three 4 side_left (1 ∷ 2 ∷ 3 ∷ []) result
search-nearest_example =
    search-nearest by_key by_key-IsOrder three three_tree.shape 4 side_left 5 three_tree.place
      three-Sorted (λ k i. ground arith) (omega arith) (inl refl) (omega arith)

get_next-next_in_example : get_next (some three) 2 3 ≡ done 3
get_next-next_in_example =
    get_next-next_in three three_tree.shape 2 3 three_tree.place (inr (inl refl)) (omega arith)
      (omega arith) (omega arith)

right_most-last_example : right_most three 2 ≡ done 3
right_most-last_example = right_most-last three three_tree.shape 2 three_tree.place (omega arith)

-- The tree with a node beside it that is not initialised.
abbrev blank : Tree
blank = record three {
  left = λ k. if k == 4 then 0 else three.left k;
  parent = λ k. if k == 4 then 0 else three.parent k;
  right = λ k. if k == 4 then 0 else three.right k;
}

abbrev blank_tree : RedBlack blank (1 ∷ 2 ∷ 3 ∷ [])
blank_tree = record {
  shape = fork 0 (fork 1 tip 1 tip) 2 (fork 1 tip 3 tip);
  n = 1;
  place = (
    0,
    record {
      holds = omega arith;
      above = refl;
      distinct = (omega arith, (omega arith, (omega arith, tt)));
      black_end = refl;
    },
  );
  is_black = refl;
  balanced = (0, refl, (tt, tt, refl, refl), (tt, tt, refl, refl));
  order = refl;
}

-- Every node equals every other.
abbrev all_same : Compare
all_same a b = pos 0

replace-RedBlack_example :
    (h' : Tree) × (replace all_same (some blank) 2 4 ≡ (some h', Ret.ok))
    × RedBlack h' (1 ∷ 4 ∷ 3 ∷ [])
    × (node_is_inited h' 2 ≡ false)
replace-RedBlack_example =
    replace-RedBlack all_same blank (1 ∷ 2 ∷ 3 ∷ []) blank_tree 2 4 (inr (inl refl)) (omega arith)
      (omega arith) (omega arith) (omega arith) refl refl

delete-RedBlack_example :
    (h' : Tree) × (delete (some three) 2 4 ≡ done (some h', Ret.ok)) × RedBlack h' (1 ∷ 3 ∷ [])
delete-RedBlack_example =
    delete-RedBlack three (1 ∷ 2 ∷ 3 ∷ []) three_tree 2 4 (inr (inl refl)) (omega arith)
      (omega arith) (omega arith)

search-RedBlack_example :
    (result : ℕ) × (search by_key (some three) 5 side_right_eq 5 ≡ done result)
    × SearchOutcome by_key three 5 side_right_eq (1 ∷ 2 ∷ 3 ∷ []) result
search-RedBlack_example =
    search-RedBlack by_key by_key-IsOrder three (1 ∷ 2 ∷ 3 ∷ []) three_tree 5 side_right_eq 2 5
      three-Sorted (λ a i. ground arith) (omega arith) (inr (inr (inr (inr refl)))) (omega arith)
      (omega arith)
