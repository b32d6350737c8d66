-- ===== src/NodeList/Tests.antt =====
-- Runs of the functions of src/list/list.h on two small rings.
use lua_sharedtable.Base.{ℕ, ◌≡◌, refl, List, [], ◌∷◌, get_or, arith, false, done}
use lua_sharedtable.NodeList.{Store, insert_last, remove, is_inited, pop_first, join, for_each}
use lua_sharedtable.NodeList.Linked.{In, Disjoint}
use lua_sharedtable.NodeList.Ring.{Ring, for_each-Ring}
use lua_sharedtable.NodeList.Insert.{insert_last-Ring}
use lua_sharedtable.NodeList.Remove.{remove-Ring}
use lua_sharedtable.NodeList.Move.{Popped, pop_first-Popped}
use lua_sharedtable.NodeList.Join.{join-Ring}

-- The ring of 1 with 2 and 3, and the ring of 4 with 5.
abbrev rings : Store
rings = record {
  prev = λ i. get_or (0 ∷ 3 ∷ 1 ∷ 2 ∷ 5 ∷ 4 ∷ []) i 0;
  next = λ i. get_or (0 ∷ 2 ∷ 3 ∷ 1 ∷ 5 ∷ 4 ∷ []) i 0;
}

Ring-one : Ring rings 1 (2 ∷ 3 ∷ [])
Ring-one = record {
  linked = (refl, refl, (refl, refl, (refl, refl)));
  distinct = ((λ i. ground (arith, i)), ((λ i. ground (arith, i)), ((λ i. i), tt)));
  no_null = λ i. ground (arith, i);
}

Ring-four : Ring rings 4 (5 ∷ [])
Ring-four = record {
  linked = (refl, refl, (refl, refl));
  distinct = ((λ i. ground (arith, i)), ((λ i. i), tt));
  no_null = λ i. ground (arith, i);
}

apart : Disjoint (1 ∷ 2 ∷ 3 ∷ []) (4 ∷ 5 ∷ [])
apart k i j = ground (arith, i, j)

six_outside : ¬ In 6 (1 ∷ 2 ∷ 3 ∷ [])
six_outside i = ground (arith, i)

visits_both : for_each (insert_last 1 6 rings) 1 4 2 ≡ done (2 ∷ 3 ∷ 6 ∷ [])
unfolding for_each insert_last
visits_both = refl

insert_last-Ring_example :
    Ring (insert_last 1 6 rings) 1 (2 ∷ 3 ∷ 6 ∷ [])
    × ((other : ℕ) (ys : List ℕ)
        → Disjoint (other ∷ ys) (6 ∷ 1 ∷ 2 ∷ 3 ∷ [])
        → Ring rings other ys
        → Ring (insert_last 1 6 rings) other ys)
insert_last-Ring_example =
    insert_last-Ring rings 1 6 (2 ∷ 3 ∷ []) Ring-one (λ e. omega (arith, e)) six_outside

remove-Ring_example :
    Ring (remove 2 rings) 1 (3 ∷ [])
    × (is_inited (remove 2 rings) 2 ≡ false)
    × ((other : ℕ) (zs : List ℕ)
        → Disjoint (other ∷ zs) (1 ∷ 2 ∷ 3 ∷ [])
        → Ring rings other zs
        → Ring (remove 2 rings) other zs)
remove-Ring_example = remove-Ring rings 1 2 [] (3 ∷ []) Ring-one

pop_first-Popped_example : Popped rings 1 (2 ∷ 3 ∷ []) (pop_first 1 rings)
pop_first-Popped_example = pop_first-Popped rings 1 (2 ∷ 3 ∷ []) Ring-one

join-Ring_example : Ring (join 1 4 rings) 1 (2 ∷ 3 ∷ 5 ∷ []) × Ring (join 1 4 rings) 4 []
join-Ring_example = join-Ring rings 1 4 (2 ∷ 3 ∷ []) (5 ∷ []) Ring-one Ring-four apart

for_each-Ring_example : for_each rings 1 3 2 ≡ done (2 ∷ 3 ∷ [])
for_each-Ring_example = for_each-Ring rings 1 (2 ∷ 3 ∷ []) Ring-one
