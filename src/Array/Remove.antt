-- ===== src/Array/Remove.antt =====
-- `st_array_remove_many` takes a range out of the list.
use lua_sharedtable.Base.{
  ℕ, ◌+◌, ◌-◌, ◌≤◌, ◌<◌, ◌≡◌, ap, ap₂, ◌∙◌, ◌++◌, arith, min, inl, inr, not, ◌==◌, Memory,
  if◌then◌else◌, leb, ltb, ◌&&◌, true, false, Bool-cases, some, done, abort, asserted, ◌⊎◌,
}
use lua_sharedtable.Array.{StArray, memmove, remove_many}
use lua_sharedtable.Array.Contents.{cells, contents, IsArray, cells-ext, cells-append}

module _ {A : Type 0} (a : StArray A) (idx cnt : ℕ) (lt : idx < a.current_cnt) where
  -- the number of elements that are removed
  abbrev pub removed : ℕ
  removed = if ltb a.current_cnt (idx + cnt) then a.current_cnt - idx else cnt

  removed-le : idx + removed ≤ a.current_cnt
  removed-le = ground arith

  removed-min : removed ≡ min cnt (a.current_cnt - idx)
  removed-min = ground arith

  abbrev pub closed : Memory A
  closed =
      if not (idx + removed == a.current_cnt)
      then memmove a.slots idx (idx + removed) (a.current_cnt - (idx + removed))
      else a.slots

  pub closed_low : (k : ℕ) → k < idx → closed k ≡ a.slots k
  closed_low k h = elim (Bool-cases (idx + removed == a.current_cnt)) [
    | inl end ↦ rw end
    | inr more ↦
        let outside : (leb idx k && ltb k (idx + (a.current_cnt - (idx + removed)))) ≡ false =
          ground arith in
        rw (more, outside)
  ]

  pub closed_high :
      (k : ℕ) → k < a.current_cnt - (idx + removed) → closed (idx + k) ≡ a.slots (idx + removed + k)
  closed_high k h =
      let more : (idx + removed == a.current_cnt) ≡ false = ground arith in
      let inside : (leb idx (idx + k) && ltb (idx + k) (idx + (a.current_cnt - (idx + removed))))
          ≡ true =
        ground arith in
      let back : idx + removed + (idx + k - idx) ≡ idx + removed + k = omega arith in
      rw (more, inside, back)

  cells-closed :
      cells closed 0 (a.current_cnt - removed)
      ≡ cells a.slots 0 idx ++ cells a.slots (idx + removed) (a.current_cnt - (idx + removed))
  cells-closed =
      let size : a.current_cnt - removed ≡ idx + (a.current_cnt - (idx + removed)) =
        omega (arith, removed-le) in
      ap (cells closed 0) size
      ∙ cells-append closed 0 idx (a.current_cnt - (idx + removed))
      ∙ ap₂ ◌++◌ (cells-ext closed a.slots 0 0 idx (λ k l. closed_low (0 + k) (omega arith))) (
          cells-ext closed a.slots (0 + idx) (idx + removed) (a.current_cnt - (idx + removed))
            (λ k l. ap closed (omega arith) ∙ closed_high k l))

module _ {A : Type 0} where
  -- On an initialised array that fits its block, at an index below the count,
  -- `st_array_remove_many` takes out `cnt` elements from the index on, or as many as there are,
  -- and keeps the others in order.
  pub remove_many-cells :
      (a : StArray A) (idx cnt : ℕ)
      → a.inited ≡ true
      → idx < a.current_cnt
      → IsArray a
      → (b : StArray A) × (remove_many (some a) idx cnt ≡ done b)
        × IsArray b
        × (contents b
            ≡ cells a.slots 0 idx
              ++ cells a.slots
                  (idx + min cnt (a.current_cnt - idx))
                  (a.current_cnt - (idx + min cnt (a.current_cnt - idx))))
  unfolding remove_many
  remove_many-cells a idx cnt inited lt v =
      let k : ℕ = removed a idx cnt lt in
      (
        record a { slots = closed a idx cnt lt; current_cnt = a.current_cnt - k },
        asserted a.inited _ inited ∙ asserted (ltb idx a.current_cnt) _ (ground arith),
        record { fits = omega (arith, v.fits) },
        cells-closed a idx cnt lt
            ∙ ap (λ t. cells a.slots 0 idx ++ cells a.slots (idx + t) (a.current_cnt - (idx + t)))
                (removed-min a idx cnt lt),
      )

  -- On an array that is not initialised, or at an index that is not below the count, an assertion
  -- of `st_array_remove_many` ends the process.
  pub remove_many-abort :
      (a : StArray A) (idx cnt : ℕ)
      → (a.inited ≡ false) ⊎ (a.current_cnt ≤ idx)
      → remove_many (some a) idx cnt ≡ abort
  unfolding remove_many
  remove_many-abort a idx cnt bad = ground arith
