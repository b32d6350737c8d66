-- ===== src/Array/Search.antt =====
-- `st_array_indexof`, `st_array_bsearch_left` and `st_array_bsearch_right` of src/array/array.c.
use lua_sharedtable.Base.{
  ℕ, zero, suc, ◌+◌, ◌/◌, true, false, not, Option, none, some, if◌then◌else◌, ltb, Memory, Ret, ok,
  arg_invalid, not_found, uninited, Run, done, out_of_fuel, Result, value, failed,
}
use lua_sharedtable.Array.{below, same, above, Compare, StArray}

module _ {A : Type 0} where
  -- `compare != NULL ? compare : array->compare`
  abbrev pub chosen_compare : Option (Compare A) → StArray A → Option (Compare A)
  chosen_compare (some cmp) a = some cmp
  chosen_compare none a = a.compare

  -- The argument checks that the three functions share: the array, the element and the comparison.
  abbrev pub checked :
      {B : Type 0}
      → Option (StArray A)
      → Option A
      → Option (Compare A)
      → (Ret → B)
      → (StArray A → A → Compare A → B)
      → B
  checked none element compare refuse run = refuse arg_invalid
  checked (some a) none compare refuse run = refuse (if a.inited then arg_invalid else uninited)
  checked (some a) (some element) compare refuse run =
      if not a.inited then refuse uninited else elim (chosen_compare compare a) [
        | none ↦ refuse arg_invalid
        | some cmp ↦ run a element cmp
      ]

  module _ (m : Memory A) (cmp : Compare A) (element : A) where
    -- `for (i = 0; i < current_cnt; i++)`, by the rounds left
    unfoldable pub indexof_loop : (left i : ℕ) → Result ℕ
    indexof_loop zero i = failed not_found
    indexof_loop (suc left) i = elim (cmp element (m i)) [
      | same ↦ value i
      | below ↦ indexof_loop left (i + 1)
      | above ↦ indexof_loop left (i + 1)
    ]

    -- `while (start < end)`: the return code and `start` after the loop.
    unfoldable pub left_loop : (fuel start end : ℕ) → Ret → Run (Ret × ℕ)
    left_loop zero start end ret = out_of_fuel
    left_loop (suc fuel) start end ret = elim (ltb start end) [
      | false ↦ done (ret, start)
      | true ↦ elim (cmp element (m ((start + end) / 2))) [
        | above ↦ left_loop fuel ((start + end) / 2 + 1) end ret
        | same ↦ left_loop fuel start ((start + end) / 2) ok
        | below ↦ left_loop fuel start ((start + end) / 2) ret
      ]
    ]

    unfoldable pub right_loop : (fuel start end : ℕ) → Ret → Run (Ret × ℕ)
    right_loop zero start end ret = out_of_fuel
    right_loop (suc fuel) start end ret = elim (ltb start end) [
      | false ↦ done (ret, start)
      | true ↦ elim (cmp element (m ((start + end) / 2))) [
        | below ↦ right_loop fuel start ((start + end) / 2) ret
        | same ↦ right_loop fuel ((start + end) / 2 + 1) end ok
        | above ↦ right_loop fuel ((start + end) / 2 + 1) end ret
      ]
    ]

  unfoldable pub indexof : Option (StArray A) → Option A → Option (Compare A) → Result ℕ
  unfolding indexof_loop
  indexof array element compare =
      checked array element compare failed (λ a e cmp. indexof_loop a.slots cmp e a.current_cnt 0)

  -- The return code, and the index that is stored in `*idx` (0 where none is). The range of
  -- `n` elements is empty after at most `n` rounds.
  unfoldable pub bsearch_left : Option (StArray A) → Option A → Option (Compare A) → Run (Ret × ℕ)
  unfolding left_loop
  bsearch_left array element compare =
      checked array element compare (λ e. done (e, 0))
        (λ a e cmp. left_loop a.slots cmp e (a.current_cnt + 1) 0 a.current_cnt not_found)

  unfoldable pub bsearch_right : Option (StArray A) → Option A → Option (Compare A) → Run (Ret × ℕ)
  unfolding right_loop
  bsearch_right array element compare =
      checked array element compare (λ e. done (e, 0))
        (λ a e cmp. right_loop a.slots cmp e (a.current_cnt + 1) 0 a.current_cnt not_found)
