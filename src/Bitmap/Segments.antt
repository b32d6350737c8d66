-- ===== src/Bitmap/Segments.antt =====
-- The word that `word_bits_value_` returns is zero, or equal to another, exactly if the bits of
-- the range are.
use lua_sharedtable.Base.{
  ℕ, ◌+◌, ◌-◌, ◌*◌, ◌/◌, ◌%◌, ◌≤◌, ◌<◌, ◌≡◌, sym, ap, ◌∙◌, Bool, true, false, ◌&&◌, inl, inr, arith,
  ltb, leb, ◌==◌, done, Bool-cases,
}
use lua_sharedtable.Bits.{bit}
use lua_sharedtable.Bits.Laws.{bit-zero}
use lua_sharedtable.Bits.Extent.{bits-ext}
use lua_sharedtable.Bitmap.{Bitmap, IsBitmap, word_bits_value}
use lua_sharedtable.Bitmap.Words.{test, seen, SameWord, IsSegment, segment}

-- no bit of the range is one that the search looks for
abbrev pub Clean : Bitmap → Bool → ℕ → ℕ → Type 0
Clean bm reverse start end = (i : ℕ) → start ≤ i → i < end → seen reverse (test bm i) ≡ false

abbrev pub Agree : Bitmap → Bitmap → ℕ → ℕ → Type 0
Agree a b start end = (i : ℕ) → start ≤ i → i < end → test a i ≡ test b i

module _ (start end : ℕ) (h : SameWord start end) where
  abbrev index : ℕ → ℕ
  index k = 64 * (start / 64) + k

  -- A bit of the word inside the range is a bit of the bitmap, and the other way round.
  at_index :
      (k : ℕ)
      → leb (start % 64) k ≡ true
      → ltb k ((end - 1) % 64 + 1) ≡ true
      → (start ≤ index k) × (index k < end)
  at_index k p q = ground arith

  in_word :
      (i : ℕ)
      → start ≤ i
      → i < end
      → (leb (start % 64) (i % 64) ≡ true)
        × (ltb (i % 64) ((end - 1) % 64 + 1) ≡ true)
        × (i / 64 ≡ start / 64)
  in_word i p q = ground arith

  test-index : (bm : Bitmap) (k : ℕ) → k < 64 → test bm (index k) ≡ bit (bm (start / 64)) k
  test-index bm k l =
      let word : index k / 64 ≡ start / 64 = omega arith in
      let place : index k % 64 ≡ k = omega arith in rw (word, place)

  test-in_word :
      (bm : Bitmap) (i : ℕ) → start ≤ i → i < end → test bm i ≡ bit (bm (start / 64)) (i % 64)
  test-in_word bm i p q = rw (in_word i p q).2

  abbrev inside : ℕ → Bool
  inside k = leb (start % 64) k && ltb k ((end - 1) % 64 + 1)

  inside→index : (k : ℕ) → inside k ≡ true → (start ≤ index k) × (index k < end)
  inside→index k p = at_index k (ground arith) (ground arith)

  inside-in_word : (i : ℕ) → start ≤ i → i < end → inside (i % 64) ≡ true
  inside-in_word i p q = rw ((in_word i p q).0, (in_word i p q).1)

  module _ (bm : Bitmap) (reverse : Bool) {v : ℕ} (s : IsSegment bm start end reverse v) where
    seen-bit : (i : ℕ) → start ≤ i → i < end → seen reverse (test bm i) ≡ bit v (i % 64)
    seen-bit i p q = rw (test-in_word bm i p q) (
        sym (
          s.bits (i % 64) (omega arith)
          ∙ ap (λ b. b && seen reverse (bit (bm (start / 64)) (i % 64))) (inside-in_word i p q)))

    pub zero→Clean : v ≡ 0 → Clean bm reverse start end
    zero→Clean z i p q = seen-bit i p q ∙ ap (λ (t : ℕ). bit t (i % 64)) z ∙ bit-zero (i % 64)

    pub Clean→zero : Clean bm reverse start end → v ≡ 0
    Clean→zero clean =
        bits-ext 64 v 0 s.fits (omega arith) λ k l. s.bits k l ∙ unset k l ∙ sym (bit-zero k)
      where
        unset : (k : ℕ) → k < 64 → (inside k && seen reverse (bit (bm (start / 64)) k)) ≡ false
        unset k l = elim (Bool-cases (inside k)) [
          | inl here ↦
              let (p, q) = inside→index k here in
              rw here (ap (seen reverse) (sym (test-index bm k l)) ∙ clean (index k) p q)
          | inr there ↦ rw there
        ]

  module _ (bm1 bm2 : Bitmap) {v1 v2 : ℕ} (s1 : IsSegment bm1 start end false v1)
      (s2 : IsSegment bm2 start end false v2) where
    pub eq→Agree : v1 ≡ v2 → Agree bm1 bm2 start end
    eq→Agree e i p q =
        seen-bit bm1 false s1 i p q
        ∙ ap (λ (t : ℕ). bit t (i % 64)) e
        ∙ sym (seen-bit bm2 false s2 i p q)

    pub Agree→eq : Agree bm1 bm2 start end → v1 ≡ v2
    Agree→eq agree =
        bits-ext 64 v1 v2 s1.fits s2.fits λ k l. s1.bits k l ∙ same k l ∙ sym (s2.bits k l)
      where
        same :
            (k : ℕ)
            → k < 64
            → (inside k && bit (bm1 (start / 64)) k) ≡ (inside k && bit (bm2 (start / 64)) k)
        same k l = elim (Bool-cases (inside k)) [
          | inl here ↦
              let (p, q) = inside→index k here in
              ap (λ b. inside k && b)
                (sym (test-index bm1 k l) ∙ agree (index k) p q ∙ test-index bm2 k l)
          | inr there ↦ rw there
        ]

-- A range inside one word: the value is zero exactly if the range is clean.
pub value-Clean :
    (bm : Bitmap) (reverse : Bool) (start end : ℕ)
    → IsBitmap bm
    → SameWord start end
    → (v : ℕ) × (word_bits_value bm start end reverse ≡ done v)
      × ((v == 0) ≡ true → Clean bm reverse start end)
      × ((v == 0) ≡ false → ¬ Clean bm reverse start end)
value-Clean bm reverse start end ok h =
    let (v, s) = segment start end h bm reverse ok in
    (
      v,
      s.returned,
      (λ z. zero→Clean start end h bm reverse s (ground arith)),
      λ nz clean. absurd (ground (arith, Clean→zero start end h bm reverse s clean)),
    )
