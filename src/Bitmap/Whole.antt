-- ===== src/Bitmap/Whole.antt =====
-- The functions that look at the first `nbits` bits, word by word: `st_bitmap_are_all_cleared`,
-- `st_bitmap_are_all_set` and `st_bitmap_equal`. From `nbits` above 2 ^ 32 - 64 on, `boundary`
-- wraps to 0 and an assertion ends the process, so the lemmas stop there.
use lua_sharedtable.Base.{
  ℕ, zero, suc, ◌+◌, ◌-◌, ◌*◌, ◌%◌, ◌≤◌, ◌<◌, ◌≡◌, ◌↔◌, refl, ap, Bool, true, false, not, inl, inr,
  arith, ◌==◌, ltb, if◌then◌else◌, Bool-cases, done, Run, some, value, ◌>>=◌, abort,
}
use lua_sharedtable.Bits.{word32}
use lua_sharedtable.Bitmap.{
  Bitmap, IsBitmap, add32, checked, rounds, in_one_word, word_bits_value, words_loop, word_bits,
  word_bits_reverse, are_all_cleared, are_all_set, equal,
}
use lua_sharedtable.Bitmap.Words.{test, SameWord, segment}
use lua_sharedtable.Bitmap.Segments.{Clean, Agree, zero→Clean, Clean→zero, eq→Agree, Agree→eq}

-- The call returns `good` exactly if `Q` holds.
abbrev pub Answers : Run Bool → Bool → Type 0 → Type 0
Answers r good Q = (b : Bool) × (r ≡ done b) × (b ≡ good → Q) × (Q → b ≡ good)

module _ (P : ℕ → Type 0) where
  abbrev Between : ℕ → ℕ → Type 0
  Between start end = (i : ℕ) → start ≤ i → i < end → P i

  -- The loop's answer, from that of its test on each range inside one word.
  module _ (differs : ℕ → ℕ → Run Bool) (nbits : ℕ) (small : nbits ≤ word32 - 64)
      (step : (start end : ℕ)
        → SameWord start end
        → Answers (differs start end) false (Between start end)) where
    words_loop-Answers :
        (fuel idx boundary : ℕ)
        → idx ≤ nbits
        → (idx < nbits → (boundary ≡ idx + 64) × (idx % 64 ≡ 0))
        → nbits + 64 ≤ idx + 64 * fuel
        → Answers (words_loop differs nbits fuel idx boundary) true (Between idx nbits)
    unfolding words_loop
    words_loop-Answers zero idx boundary le inv enough = absurd (omega arith)
    words_loop-Answers (suc fuel) idx boundary le inv enough = elim (Bool-cases (ltb idx nbits)) [
      | inr over ↦ rw (over, words_loop) (true, refl, (λ _ i p q. absurd (ground arith)), λ _. refl)
      | inl more ↦
          let stop : ℕ = if ltb nbits boundary then nbits else boundary in
          let here : SameWord idx stop = ground (arith, inv) in
          let (bad, ran, sound, complete) = step idx stop here in
          let rest =
            words_loop-Answers fuel stop (add32 stop 64) (ground arith) (ground arith)
              (ground (arith, inv)) in
          elim (Bool-cases bad) [
            | inl found ↦ (
              false,
              rw (more, words_loop, ran, found),
              (λ absurdity. cc),
              λ all. absurd (cc (complete (λ i p q. all i p (ground arith)))),
            )
            | inr clean ↦ (
              rest.0,
              rw (more, words_loop, ran, clean) rest.1,
              (λ good i p q. elim (Bool-cases (ltb i stop)) [
                | inl early ↦ sound clean i p (ground arith)
                | inr late ↦ rest.2 good i (ground arith) q
              ]),
              λ all. rest.3 (λ i p q. all i (ground arith) q),
            )
          ]
    ]

-- The three tests: a zero word means that no bit of the range is set, or none is clear; two equal
-- words mean that the bits agree.
word_bits-Answers :
    (bm : Bitmap) (start end : ℕ)
    → IsBitmap bm
    → SameWord start end
    → Answers
        (word_bits bm start end >>= λ word. done (not (word == 0)))
        false
        (Clean bm false start end)
unfolding word_bits
word_bits-Answers bm start end ok h =
    let (v, s) = segment start end h bm false ok in
    (
      not (v == 0),
      rw s.returned,
      (λ z. zero→Clean start end h bm false s (ground arith)),
      λ clean. rw (Clean→zero start end h bm false s clean),
    )

word_bits_reverse-Answers :
    (bm : Bitmap) (start end : ℕ)
    → IsBitmap bm
    → SameWord start end
    → Answers
        (word_bits_reverse bm start end >>= λ word. done (not (word == 0)))
        false
        (Clean bm true start end)
unfolding word_bits_reverse
word_bits_reverse-Answers bm start end ok h =
    let (v, s) = segment start end h bm true ok in
    (
      not (v == 0),
      rw s.returned,
      (λ z. zero→Clean start end h bm true s (ground arith)),
      λ clean. rw (Clean→zero start end h bm true s clean),
    )

two_words-Answers :
    (bm1 bm2 : Bitmap) (start end : ℕ)
    → IsBitmap bm1
    → IsBitmap bm2
    → SameWord start end
    → Answers
        (word_bits bm1 start end >>= λ a. word_bits bm2 start end >>= λ b. done (not (a == b)))
        false
        (Agree bm1 bm2 start end)
unfolding word_bits
two_words-Answers bm1 bm2 start end ok1 ok2 h =
    let (v1, s1) = segment start end h bm1 false ok1 in
    let (v2, s2) = segment start end h bm2 false ok2 in
    (
      not (v1 == v2),
      rw (s1.returned, s2.returned),
      (λ z. eq→Agree start end h bm1 bm2 s1 s2 (ground arith)),
      λ agree. ground (arith, Agree→eq start end h bm1 bm2 s1 s2 agree),
    )

module _ (nbits : ℕ) (small : nbits ≤ word32 - 64) where
  -- On a bitmap of 64-bit words and for at most 2 ^ 32 - 64 bits, `st_bitmap_are_all_cleared`
  -- terminates, and returns 1 exactly if none of the first `nbits` bits is set.
  pub are_all_cleared_iff :
      (bm : Bitmap)
      → IsBitmap bm
      → (b : Bool) × (are_all_cleared (some bm) nbits ≡ done (value b))
        × ((b ≡ true) ↔ ((i : ℕ) → i < nbits → test bm i ≡ false))
  unfolding are_all_cleared
  are_all_cleared_iff bm ok =
      let (b, ran, sound, complete) =
        words_loop-Answers (λ i. test bm i ≡ false)
          (λ idx stop. word_bits bm idx stop >>= λ word. done (not (word == 0))) nbits small
          (λ start end h. word_bits-Answers bm start end ok h) (rounds nbits) 0 64 (omega arith)
          (λ _. (omega arith, omega arith)) (omega arith) in
      (b, rw ran, ((λ good i p. sound good i (omega arith) p), λ all. complete (λ i _ p. all i p)))

  -- On a bitmap of 64-bit words and for at most 2 ^ 32 - 64 bits, `st_bitmap_are_all_set`
  -- terminates, and returns 1 exactly if all of the first `nbits` bits are set.
  pub are_all_set_iff :
      (bm : Bitmap)
      → IsBitmap bm
      → (b : Bool) × (are_all_set (some bm) nbits ≡ done (value b))
        × ((b ≡ true) ↔ ((i : ℕ) → i < nbits → test bm i ≡ true))
  unfolding are_all_set
  are_all_set_iff bm ok =
      let (b, ran, sound, complete) =
        words_loop-Answers (λ i. not (test bm i) ≡ false)
          (λ idx stop. word_bits_reverse bm idx stop >>= λ word. done (not (word == 0))) nbits small
          (λ start end h. word_bits_reverse-Answers bm start end ok h) (rounds nbits) 0 64
          (omega arith) (λ _. (omega arith, omega arith)) (omega arith) in
      (
        b,
        rw ran,
        (
          (λ good i p. flip (test bm i) (sound good i (omega arith) p)),
          λ all. complete (λ i _ p. rw (all i p)),
        ),
      )
    where
      flip : (b : Bool) → not b ≡ false → b ≡ true
      flip b h = ground arith

  -- On two bitmaps of 64-bit words and for at most 2 ^ 32 - 64 bits, `st_bitmap_equal`
  -- terminates, and returns 1 exactly if the first `nbits` bits of the two agree.
  pub equal_iff :
      (bm1 bm2 : Bitmap)
      → IsBitmap bm1
      → IsBitmap bm2
      → (b : Bool) × (equal (some bm1) (some bm2) nbits ≡ done (value b))
        × ((b ≡ true) ↔ ((i : ℕ) → i < nbits → test bm1 i ≡ test bm2 i))
  unfolding equal
  equal_iff bm1 bm2 ok1 ok2 =
      let (b, ran, sound, complete) =
        words_loop-Answers (λ i. test bm1 i ≡ test bm2 i)
          (λ idx stop.
            word_bits bm1 idx stop >>= λ a. word_bits bm2 idx stop >>= λ b. done (not (a == b)))
          nbits small (λ start end h. two_words-Answers bm1 bm2 start end ok1 ok2 h) (rounds nbits)
          0 64 (omega arith) (λ _. (omega arith, omega arith)) (omega arith) in
      (b, rw ran, ((λ good i p. sound good i (omega arith) p), λ all. complete (λ i _ p. all i p)))

module _ (P : ℕ → Type 0) (differs : ℕ → ℕ → Run Bool) (nbits : ℕ)
    (step : (start end : ℕ)
      → SameWord start end
      → Answers (differs start end) false (Between P start end))
    (stuck : (start : ℕ) → differs start 0 ≡ abort) where
  -- Past the last word boundary that a `uint32_t` holds, the loop runs into the assertion.
  words_loop-abort :
      (fuel idx boundary : ℕ)
      → word32 - 64 < nbits
      → idx ≤ word32 - 64
      → idx % 64 ≡ 0
      → boundary ≡ (idx + 64) % word32
      → word32 ≤ idx + 64 * fuel
      → Between P idx (word32 - 64)
      → words_loop differs nbits fuel idx boundary ≡ abort
  unfolding words_loop
  words_loop-abort zero idx boundary large le aligned e enough all = absurd (omega arith)
  words_loop-abort (suc fuel) idx boundary large le aligned e enough all =
      let more : ltb idx nbits ≡ true = ground arith in
      let short : ltb nbits boundary ≡ false = ground arith in
      elim (Bool-cases (idx == word32 - 64)) [
        | inl last ↦
            let wrapped : boundary ≡ 0 = ground arith in
            rw (more, words_loop, short, wrapped, stuck idx)
        | inr early ↦
            let here : SameWord idx boundary = (ground arith, ground arith) in
            let (bad, ran, sound, complete) = step idx boundary here in
            let clean : bad ≡ false = complete (λ i p q. all i p (ground arith)) in
            rw (more, words_loop, short, ran, clean, short)
              (words_loop-abort fuel boundary (add32 boundary 64) large (ground arith)
                (ground arith) refl (ground arith) (λ i p q. all i (ground arith) q))
      ]

word_bits-abort : (bm : Bitmap) (start : ℕ) → word_bits bm start 0 ≡ abort
unfolding word_bits word_bits_value in_one_word
word_bits-abort bm start = let empty : ltb start 0 ≡ false = ground arith in rw empty

-- On a bitmap of 64-bit words, for more than 2 ^ 32 - 64 bits (a `uint32_t`), of which the first
-- 2 ^ 32 - 64 are clear, `boundary` wraps to 0 and `st_bitmap_are_all_cleared` ends the process
-- by an assertion, whatever the last bits are.
pub are_all_cleared-abort :
    (bm : Bitmap) (nbits : ℕ)
    → IsBitmap bm
    → word32 - 64 < nbits
    → nbits < word32
    → ((i : ℕ) → i < word32 - 64 → test bm i ≡ false)
    → are_all_cleared (some bm) nbits ≡ abort
unfolding are_all_cleared
are_all_cleared-abort bm nbits ok large small clear = ap checked (
    words_loop-abort (λ i. test bm i ≡ false)
      (λ idx stop. word_bits bm idx stop >>= λ word. done (not (word == 0))) nbits
      (λ start end h. word_bits-Answers bm start end ok h) (λ start. rw (word_bits-abort bm start))
      (rounds nbits) 0 64 large (omega arith) (omega arith) (omega arith) (omega arith)
      (λ i _ p. clear i p))
