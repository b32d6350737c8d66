-- ===== src/Array/Tests.antt =====
-- Runs of the functions of src/array/array.c on an array of numbers.
use lua_sharedtable.Base.{
  ℕ, zero, suc, ◌*◌, leb, ◌<◌, ◌≤◌, ◌≡◌, refl, true, ltb, ◌==◌, if◌then◌else◌, arith, Memory, none,
  some, [], ◌∷◌, ok, done,
}
use lua_sharedtable.Array.{
  below, same, above, Compare, StArray, Realloc, extend_when_needed, insert_many, remove_many,
}
use lua_sharedtable.Array.Search.{bsearch_left, bsearch_right, left_loop, right_loop}
use lua_sharedtable.Array.Contents.{IsArray, contents}
use lua_sharedtable.Array.Order.{IsOrdered, LeftSplit, RightSplit, left_code, right_code}
use lua_sharedtable.Array.Remove.{remove_many-cells}
use lua_sharedtable.Array.Bisect.{bsearch_left-LeftSplit, bsearch_right-RightSplit}

abbrev by_number : Compare ℕ
by_number a b = if ltb a b then below else if a == b then same else above

-- 2, 5, 5, 9
abbrev numbers : Memory ℕ
numbers zero = 2
numbers (suc zero) = 5
numbers (suc (suc zero)) = 5
numbers (suc (suc (suc i))) = 9

abbrev array : StArray ℕ
array = record {
  slots = numbers;
  has_space = true;
  element_size = 8;
  current_cnt = 4;
  total_cnt = 6;
  dynamic = true;
  compare = some by_number;
  inited = true;
}

array-IsArray : IsArray array
array-IsArray = record { fits = omega arith }

finds_the_run :
    (bsearch_left (some array) (some 5) none ≡ done (ok, 1))
    × (bsearch_right (some array) (some 5) none ≡ done (ok, 3))
unfolding bsearch_left bsearch_right left_loop right_loop
finds_the_run = (refl, refl)

above_only :
    (i j : ℕ) → i ≤ j → j < 4 → by_number 5 (numbers j) ≡ above → by_number 5 (numbers i) ≡ above
above_only zero j p q h = refl
above_only (suc i) zero p q h = absurd (omega arith)
above_only (suc i) (suc zero) p q h = cc
above_only (suc i) (suc (suc zero)) p q h = cc
above_only (suc i) (suc (suc (suc j))) p q h = cc

below_only :
    (i j : ℕ) → i ≤ j → j < 4 → by_number 5 (numbers i) ≡ below → by_number 5 (numbers j) ≡ below
below_only zero j p q h = cc
below_only (suc zero) j p q h = cc
below_only (suc (suc zero)) j p q h = cc
below_only (suc (suc (suc i))) zero p q h = absurd (omega arith)
below_only (suc (suc (suc i))) (suc zero) p q h = absurd (omega arith)
below_only (suc (suc (suc i))) (suc (suc zero)) p q h = absurd (omega arith)
below_only (suc (suc (suc i))) (suc (suc (suc j))) p q h = refl

array-IsOrdered : IsOrdered numbers by_number 5 4
array-IsOrdered = record { above_down = above_only; below_up = below_only }

bsearch_left-LeftSplit_example :
    (k : ℕ) × (bsearch_left (some array) (some 5) none
      ≡ done (left_code numbers by_number 5 4 k, k))
    × LeftSplit numbers by_number 5 4 k k
bsearch_left-LeftSplit_example =
    bsearch_left-LeftSplit array 5 none by_number refl refl array-IsOrdered

bsearch_right-RightSplit_example :
    (k : ℕ) × (bsearch_right (some array) (some 5) none
      ≡ done (right_code numbers by_number 5 4 k, k))
    × RightSplit numbers by_number 5 4 k k
bsearch_right-RightSplit_example =
    bsearch_right-RightSplit array 5 none by_number refl refl array-IsOrdered

-- A `realloc` that fails above 1000 bytes, and keeps the numbers of eight bytes that fit.
abbrev cut_block : Memory ℕ → (bytes : ℕ) → Memory ℕ
cut_block m bytes i = if leb (8 * suc i) bytes then m i else 77

abbrev small_blocks : Realloc ℕ
small_blocks m bytes = if ltb 1000 bytes then none else some (cut_block m bytes)

-- It has 70 elements of space then.
grows_once :
    (b : StArray ℕ) × (insert_many small_blocks (some array) 1 (some (λ i. 3)) 5 ≡ (some b, ok))
    × (b.total_cnt ≡ 70)
unfolding insert_many extend_when_needed
grows_once = (_, refl, refl)

remove_many-cells_example :
    (b : StArray ℕ) × (remove_many (some array) 1 2 ≡ done b)
    × IsArray b
    × (contents b ≡ 2 ∷ 9 ∷ [])
remove_many-cells_example = remove_many-cells array 1 2 refl (omega arith) array-IsArray

-- A `qsort` that leaves a list as it is.
