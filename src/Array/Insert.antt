-- ===== src/Array/Insert.antt =====
-- `st_array_insert_many` inserts the elements at the index, or leaves the elements as they are.
use lua_sharedtable.Base.{
  ℕ, suc, ◌+◌, ◌-◌, ◌≤◌, ◌<◌, ◌≡◌, List, ◌++◌, arith, max, inl, inr, Memory, if◌then◌else◌, leb,
  ltb, ◌&&◌, true, false, Bool-cases, Option, none, some, Ret, ok, out_of_memory, ◌*◌, ◌⊎◌,
}
use lua_sharedtable.Array.{StArray, Realloc, memmove, memcpy, min_size}
use lua_sharedtable.Array.Contents.{cells, contents, IsArray}

module _ {A : Type 0} where
  -- What C says of `realloc`: the block that it returns starts with what the old one held, as far as
  -- both reach.
  abbrev pub Keeps : Realloc A → StArray A → Type 0
  Keeps realloc a =
      (bytes : ℕ) (new : Memory A)
      → realloc a.slots bytes ≡ some new
      → (i : ℕ) → i < a.total_cnt
      → a.element_size * suc i ≤ bytes
      → new i ≡ a.slots i

  -- The size of the block for `incr` more elements, in elements and in bytes.
  abbrev pub grown_cnt : StArray A → (incr : ℕ) → ℕ
  grown_cnt a incr = a.total_cnt + max incr min_size

  abbrev pub grown_bytes : StArray A → (incr : ℕ) → ℕ
  grown_bytes a incr = a.element_size * grown_cnt a incr

  -- The size after an insertion: the old one if there is room.
  abbrev pub new_total : StArray A → (incr : ℕ) → ℕ
  new_total a incr =
      if leb (a.current_cnt + incr) a.total_cnt then a.total_cnt else grown_cnt a incr

  -- All but the elements and the sizes is as before.
  pub record SameSetup (a b : StArray A) : Type 0 where
    pub element_size : b.element_size ≡ a.element_size
    pub dynamic : b.dynamic ≡ a.dynamic
    pub compare : b.compare ≡ a.compare
    pub inited : b.inited ≡ a.inited

  -- The array after the extension: the elements stay, and `ST_OK` means that there is room.
  record Grown (realloc : Realloc A) (a : StArray A) (incr : ℕ) (r : StArray A × Ret) : Type 0 where
    setup : SameSetup a r.0
    count : r.0.current_cnt ≡ a.current_cnt
    space : a.total_cnt ≤ r.0.total_cnt
    same : (i : ℕ) → i < a.total_cnt → r.0.slots i ≡ a.slots i
    outcome :
        ((r.1 ≡ ok) × (a.current_cnt + incr ≤ r.0.total_cnt) × (r.0.total_cnt ≡ new_total a incr))
        ⊎ ((r.1 ≡ out_of_memory)
            × (r.0 ≡ a)
            × (a.total_cnt < a.current_cnt + incr)
            × (realloc a.slots (grown_bytes a incr) ≡ none))

  -- The list after an insertion.
  abbrev pub inserted : Memory A → (cnt idx : ℕ) → Memory A → (n : ℕ) → List A
  inserted m cnt idx elements n = cells m 0 idx ++ (cells elements 0 n ++ cells m idx (cnt - idx))

  module _ (a : StArray A) (idx : ℕ) (elements : Memory A) (n : ℕ) (le : idx ≤ a.current_cnt) where
    abbrev moved : Memory A
    moved =
        if ltb idx a.current_cnt
        then memmove a.slots (idx + n) idx (a.current_cnt - idx)
        else a.slots

    abbrev pub placed : Memory A
    placed = memcpy moved idx elements n

    pub placed_low : (j : ℕ) → j < idx → placed j ≡ a.slots j
    placed_low j h = elim (Bool-cases (ltb idx a.current_cnt)) [
      | inl more ↦ rw more (ground arith)
      | inr end ↦ rw end (ground arith)
    ]

    pub placed_mid : (k : ℕ) → k < n → placed (idx + k) ≡ elements k
    placed_mid k h =
        let inside : (leb idx (idx + k) && ltb (idx + k) (idx + n)) ≡ true = ground arith in
        let back : idx + k - idx ≡ k = omega arith in rw (inside, back)

    pub placed_high : (k : ℕ) → k < a.current_cnt - idx → placed (idx + n + k) ≡ a.slots (idx + k)
    placed_high k h =
        let more : ltb idx a.current_cnt ≡ true = ground arith in
        let outside : (leb idx (idx + n + k) && ltb (idx + n + k) (idx + n)) ≡ false =
          ground arith in
        let inside : (leb (idx + n) (idx + n + k)
              && ltb (idx + n + k) (idx + n + (a.current_cnt - idx)))
            ≡ true =
          ground arith in
        let back : idx + (idx + n + k - (idx + n)) ≡ idx + k = omega arith in
        rw (more, outside, inside, back)

  -- The invariant of the result, and the list that it holds.
  pub record Inserted (a : StArray A) (idx : ℕ) (elements : Memory A) (n : ℕ) (b : StArray A)
      : Type 0 where
    pub valid : IsArray b
    pub holds : contents b ≡ inserted a.slots a.current_cnt idx elements n
    pub setup : SameSetup a b
    pub count : b.current_cnt ≡ a.current_cnt + n

  -- The outcome of an insertion: there is room, or the array grows, or it cannot.
  abbrev pub Outcome :
      Realloc A → StArray A → (idx : ℕ) → Memory A → (n : ℕ) → Option (StArray A) × Ret → Type 0
  Outcome realloc a idx elements n r =
      ((b : StArray A) × (r ≡ (some b, ok))
        × Inserted a idx elements n b
        × (b.total_cnt ≡ new_total a n)
        × ((a.dynamic ≡ true) ⊎ (a.current_cnt + n ≤ a.total_cnt)))
      ⊎ ((r ≡ (some a, out_of_memory))
          × (a.total_cnt < a.current_cnt + n)
          × ((a.dynamic ≡ false) ⊎ (realloc a.slots (grown_bytes a n) ≡ none)))
