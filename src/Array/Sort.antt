-- ===== src/Array/Sort.antt =====
-- `st_array_sort`, by the `qsort` of the C library, and `st_array_indexof`.
use lua_sharedtable.Base.{
  ℕ, zero, suc, ◌+◌, ◌≤◌, ◌<◌, ◌≡◌, ◌≢◌, refl, sym, ap, ap₂, ◌∙◌, subst, List, [], ◌∷◌, arith, inl,
  inr, ◌==◌, length, get_or, Memory, true, Bool-cases, Option, none, some, Run, done, abort,
  st_assert, asserted, passed, ◌>>◌, Result, value, failed, not_found,
}
use lua_sharedtable.Array.{StArray, Compare, Sign, below, same, above}
use lua_sharedtable.Array.Search.{chosen_compare, indexof, indexof_loop}
use lua_sharedtable.Array.Contents.{cells, contents, IsArray, length-cells}

module _ {A : Type 0} where
  -- a block that starts with the elements of a list
  abbrev pub laid_out : List A → Memory A → Memory A
  laid_out l m j = get_or l j (m j)

  cells-laid_out :
      (l : List A) (m : Memory A) (f : Memory A) (i : ℕ)
      → ((k : ℕ) → k < length l → f (i + k) ≡ get_or l k (m k))
      → cells f i (length l) ≡ l
  cells-laid_out [] m f i h = refl
  cells-laid_out (x ∷ l) m f i h = ap₂ ◌∷◌ (ap f (omega arith) ∙ h 0 (omega arith)) (
      cells-laid_out l (λ k. m (suc k)) f (suc i)
        (λ k lt. ap f (omega arith) ∙ h (suc k) (omega arith)))

  -- `qsort` of the C library, on the list of the elements.
  module _ (qsort : Compare A → List A → List A) where
    unfoldable pub sort : Option (StArray A) → Option (Compare A) → Run (StArray A)
    sort none compare = abort
    sort (some a) compare = do
      st_assert a.inited
      elim (chosen_compare compare a) [
        | none ↦ abort
        | some cmp ↦ done (record a { slots = laid_out (qsort cmp (contents a)) a.slots })
      ]

    -- If `qsort` keeps the number of elements, `st_array_sort` on an initialised array that fits
    -- its block leaves in it what `qsort` makes of its elements, by the comparison given or else
    -- by that of the array.
    pub sort-contents :
        (a : StArray A) (compare : Option (Compare A)) (cmp : Compare A)
        → ((l : List A) → length (qsort cmp l) ≡ length l)
        → a.inited ≡ true
        → chosen_compare compare a ≡ some cmp
        → IsArray a
        → (b : StArray A) × (sort (some a) compare ≡ done b)
          × IsArray b
          × (contents b ≡ qsort cmp (contents a))
    unfolding sort
    sort-contents a compare cmp keeps inited chosen v =
        let l : List A = qsort cmp (contents a) in
        let size : a.current_cnt ≡ length l =
          sym (keeps (contents a) ∙ length-cells a.slots 0 a.current_cnt) in
        (
          record a { slots = laid_out l a.slots },
          asserted a.inited _ inited ∙ rw chosen refl,
          record { fits = v.fits },
          ap (cells (laid_out l a.slots) 0) size
              ∙ cells-laid_out l a.slots (laid_out l a.slots) 0
                  (λ k lt. ap (laid_out l a.slots) (omega arith)),
        )

-- The first element that compares equal, if there is one.
abbrev pub FirstSame : {A : Type 0} → Memory A → Compare A → A → (i end : ℕ) → Result ℕ → Type 0
FirstSame m cmp e i end (value k) =
    (i ≤ k) × (k < end) × (cmp e (m k) ≡ same) × ((j : ℕ) → i ≤ j → j < k → cmp e (m j) ≢ same)
FirstSame m cmp e i end (failed r) =
    (r ≡ not_found) × ((j : ℕ) → i ≤ j → j < end → cmp e (m j) ≢ same)

module _ {A : Type 0} (m : Memory A) (cmp : Compare A) (e : A) where
  -- One round that does not find the element.
  FirstSame-later :
      (i end : ℕ) (r : Result ℕ)
      → cmp e (m i) ≢ same
      → FirstSame m cmp e (i + 1) end r
      → FirstSame m cmp e i end r
  FirstSame-later i end (value k) miss (lo, hi, hit, before) = (
    omega arith,
    hi,
    hit,
    λ j p q. elim (Bool-cases (j == i)) [
      | inl here ↦ let at : j ≡ i = ground arith in rw at miss
      | inr later ↦ before j (ground arith) q
    ],
  )
  FirstSame-later i end (failed r) miss (code, before) = (
    code,
    λ j p q. elim (Bool-cases (j == i)) [
      | inl here ↦ let at : j ≡ i = ground arith in rw at miss
      | inr later ↦ before j (ground arith) q
    ],
  )

  indexof_loop-FirstSame :
      (left i end : ℕ) → i + left ≡ end → FirstSame m cmp e i end (indexof_loop m cmp e left i)
  unfolding indexof_loop
  indexof_loop-FirstSame zero i end size = (refl, λ j p q. absurd (omega arith))
  indexof_loop-FirstSame (suc left) i end size =
      round (cmp e (m i)) refl (indexof_loop-FirstSame left (i + 1) end (omega arith))
    where
      round :
          (s : Sign)
          → cmp e (m i) ≡ s
          → FirstSame m cmp e (i + 1) end (indexof_loop m cmp e left (i + 1))
          → FirstSame m cmp e i end (elim s [
            | same ↦ value i
            | below ↦ indexof_loop m cmp e left (i + 1)
            | above ↦ indexof_loop m cmp e left (i + 1)
          ])
      round same h later = (omega arith, omega arith, h, λ j p q. absurd (omega arith))
      round below h later = FirstSame-later i end _ (λ hit. cc) later
      round above h later = FirstSame-later i end _ (λ hit. cc) later

-- On an initialised array with a comparison, `st_array_indexof` returns the index of the first
-- element that compares equal, and `ST_NOT_FOUND` exactly if there is none.
pub indexof-FirstSame :
    {A : Type 0} (a : StArray A) (element : A) (compare : Option (Compare A)) (cmp : Compare A)
    → a.inited ≡ true
    → chosen_compare compare a ≡ some cmp
    → FirstSame a.slots cmp element 0 a.current_cnt (indexof (some a) (some element) compare)
unfolding indexof
indexof-FirstSame a element compare cmp inited chosen =
    subst (FirstSame a.slots cmp element 0 a.current_cnt)
      (sym (passed a.inited _ _ inited ∙ rw chosen refl))
      (indexof_loop-FirstSame a.slots cmp element a.current_cnt 0 a.current_cnt (omega arith))
