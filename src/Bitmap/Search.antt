-- ===== src/Bitmap/Search.antt =====
-- `st_bitmap_find_next_bit` returns the first index of the range whose bit has the given value.
use lua_sharedtable.Base.{
  ℕ, zero, suc, ◌+◌, ◌-◌, ◌*◌, ◌/◌, ◌%◌, ◌^◌, ◌≤◌, ◌<◌, ◌≡◌, refl, ap, ◌∙◌, Bool, true, false, inl,
  inr, arith, ◌==◌, ◌||◌, ltb, if◌then◌else◌, Bool-cases, done, Option, none, some, value, ◌>>=◌,
}
use lua_sharedtable.Bits.{word32}
use lua_sharedtable.Bitmap.{
  Bitmap, IsBitmap, add32, rounds, word_bits_value, next_word_loop, next_bit_loop, find_next_bit,
}
use lua_sharedtable.Bitmap.Words.{test, seen}
use lua_sharedtable.Bitmap.Segments.{Clean, value-Clean}

-- Where the search ends: at the first index that is seen, or nowhere.
abbrev pub First : Bitmap → Bool → ℕ → ℕ → Option ℕ → Type 0
First bm reverse start end none = Clean bm reverse start end
First bm reverse start end (some i) =
    (start ≤ i) × (i < end) × (seen reverse (test bm i) ≡ true) × Clean bm reverse start i

-- `if (boundary > end) boundary = end`
abbrev clip : ℕ → ℕ → ℕ
clip end boundary = if ltb end boundary then end else boundary

module _ (bm : Bitmap) (reverse : Bool) (ok : IsBitmap bm) where
  Clean-append : (a b c : ℕ) → Clean bm reverse a b → Clean bm reverse b c → Clean bm reverse a c
  Clean-append a b c p q i lo hi = elim (Bool-cases (ltb i b)) [
    | inl early ↦ p i lo (ground arith)
    | inr late ↦ q i (ground arith) hi
  ]

  -- A range of one index is clean exactly if the index is not seen.
  Clean-single : (i : ℕ) → seen reverse (test bm i) ≡ false → Clean bm reverse i (i + 1)
  Clean-single i off j p q = let e : j ≡ i = omega arith in rw e off

  hit-seen : (i : ℕ) → ¬ Clean bm reverse i (i + 1) → seen reverse (test bm i) ≡ true
  hit-seen i h = elim (Bool-cases (seen reverse (test bm i))) [
    | inl on ↦ on
    | inr off ↦ absurd (h (Clean-single i off))
  ]

  First-later :
      (a b c : ℕ) (r : Option ℕ)
      → a ≤ b
      → Clean bm reverse a b
      → First bm reverse b c r
      → First bm reverse a c r
  First-later a b c none le p q = Clean-append a b c p q
  First-later a b c (some i) le p (lo, hi, on, before) =
      (omega arith, hi, on, Clean-append a b i p before)

  module _ (left i v : ℕ) (small : i + 1 < 2 ^ 31)
      (ran : word_bits_value bm i (i + 1) reverse ≡ done v) where
    next : add32 i 1 ≡ i + 1
    next = omega arith

    not_last : (i == 2 ^ 31 - 1) ≡ false
    not_last = ground arith

    bit_hit : (v == 0) ≡ false → next_bit_loop bm reverse (suc left) i ≡ done (some i)
    unfolding next_bit_loop
    bit_hit h = rw (not_last, next_bit_loop, next, ran, ◌>>=◌, h)

    bit_miss :
        (v == 0) ≡ true
        → next_bit_loop bm reverse (suc left) i ≡ next_bit_loop bm reverse left (i + 1)
    unfolding next_bit_loop
    bit_miss h =
        rw (not_last, next_bit_loop, next, ran, ◌>>=◌, h) (ap (next_bit_loop bm reverse left) next)

  next_bit_loop-First :
      (left i end : ℕ)
      → i + left ≡ end
      → end < 2 ^ 31
      → (r : Option ℕ) × (next_bit_loop bm reverse left i ≡ done r) × First bm reverse i end r
  unfolding next_bit_loop
  next_bit_loop-First zero i end e small = (none, refl, λ j p q. absurd (omega arith))
  next_bit_loop-First (suc left) i end e small =
      let (v, ran, zero_, nonzero) =
        value-Clean bm reverse i (i + 1) ok (omega arith, omega arith) in
      let (r, later, first) = next_bit_loop-First left (i + 1) end (omega arith) small in
      elim (Bool-cases (v == 0)) [
        | inr hit ↦ (
          some i,
          bit_hit left i v (omega arith) ran hit,
          (omega arith, omega arith, hit-seen i (nonzero hit), λ j p q. absurd (omega arith)),
        )
        | inl miss ↦ (
          r,
          bit_miss left i v (omega arith) ran miss ∙ later,
          First-later i (i + 1) end r (omega arith) (zero_ miss) first,
        )
      ]

  -- What the loop over words hands to the loop over bits: the first range with a bit in it.
  WordFound : ℕ → ℕ → Option (ℕ × ℕ) → Type 0
  WordFound idx end none = Clean bm reverse idx end
  WordFound idx end (some (i, stop)) =
      (idx ≤ i) × (i < stop) × (stop ≤ end) × Clean bm reverse idx i × (¬ Clean bm reverse i stop)

  WordFound-later :
      (a b end : ℕ) (r : Option (ℕ × ℕ))
      → a ≤ b
      → Clean bm reverse a b
      → WordFound b end r
      → WordFound a end r
  unfolding WordFound
  WordFound-later a b end none le p q = Clean-append a b end p q
  WordFound-later a b end (some (i, stop)) le p (lo, inside, hi, before, found) =
      (omega arith, inside, hi, Clean-append a b i p before, found)

  module _ (end fuel idx boundary v : ℕ) where
    module _ (ran : word_bits_value bm idx (clip end boundary) reverse ≡ done v) where
      word_hit :
          (v == 0) ≡ false
          → next_word_loop bm end reverse (suc fuel) idx boundary
            ≡ done (some (idx, clip end boundary))
      unfolding next_word_loop
      word_hit h = rw (ran, ◌>>=◌, h)

      word_end :
          (v == 0) ≡ true
          → (clip end boundary == end) ≡ true
          → next_word_loop bm end reverse (suc fuel) idx boundary ≡ done none
      unfolding next_word_loop
      word_end h l = rw (ran, ◌>>=◌, h, l)

      word_miss :
          (v == 0) ≡ true
          → (clip end boundary == end) ≡ false
          → next_word_loop bm end reverse (suc fuel) idx boundary
            ≡ next_word_loop bm end reverse fuel (clip end boundary) (add32 (clip end boundary) 64)
      unfolding next_word_loop
      word_miss h l = rw (ran, ◌>>=◌, h, l)

  next_word_loop-WordFound :
      (end fuel idx boundary : ℕ)
      → end ≤ 2 ^ 31
      → idx < end
      → boundary ≡ (idx / 64 + 1) * 64
      → end / 64 + 1 ≤ idx / 64 + fuel
      → (r : Option (ℕ × ℕ)) × (next_word_loop bm end reverse fuel idx boundary ≡ done r)
        × WordFound idx end r
  unfolding WordFound
  next_word_loop-WordFound end zero idx boundary small lt e enough = absurd (omega arith)
  next_word_loop-WordFound end (suc fuel) idx boundary small lt e enough =
      let st : ℕ = clip end boundary in
      let (v, ran, zero_, nonzero) = value-Clean bm reverse idx st ok (ground arith) in
      elim (Bool-cases (v == 0)) [
        | inr hit ↦ (
          some (idx, st),
          word_hit end fuel idx boundary v ran hit,
          (omega arith, ground arith, ground arith, (λ j p q. absurd (omega arith)), nonzero hit),
        )
        | inl miss ↦ elim (Bool-cases (st == end)) [
          | inl last ↦ (
            none,
            word_end end fuel idx boundary v ran miss last,
            let at_end : st ≡ end = ground arith in rw at_end at (zero_ miss),
          )
          | inr more ↦
              let (r, later, found) =
                next_word_loop-WordFound end fuel st (add32 st 64) small (ground arith)
                  (ground arith) (ground arith) in
              (
                r,
                word_miss end fuel idx boundary v ran miss more ∙ later,
                WordFound-later idx st end r (ground arith) (zero_ miss) found,
              )
        ]
      ]

  -- The bit that the first loop promises is found by the second.
  in_range :
      (start i stop end : ℕ) (r : Option ℕ)
      → WordFound start end (some (i, stop))
      → First bm reverse i stop r
      → First bm reverse start end r
  unfolding WordFound
  in_range start i stop end none (lo, inside, hi, before, found) clean = absurd (found clean)
  in_range start i stop end (some k) (lo, inside, hi, before, found) (p, q, on, clean) =
      (omega arith, omega arith, on, Clean-append start i k before clean)

-- On a bitmap of 64-bit words, for a range that is not empty and ends below 2 ^ 31, and a bit
-- value of 0 or 1, `st_bitmap_find_next_bit` terminates and returns the first index of the range
-- whose bit has that value, and -1 if there is none.
pub find_next_bit-First :
    (bm : Bitmap) (start end bit_value : ℕ)
    → IsBitmap bm
    → start < end
    → end < 2 ^ 31
    → bit_value < 2
    → (r : Option ℕ) × (find_next_bit (some bm) start end bit_value ≡ done (value r))
      × First bm (bit_value == 0) start end r
unfolding find_next_bit WordFound
find_next_bit-First bm start end bit_value ok lt small binary =
    let rev : Bool = bit_value == 0 in
    let boundary : ℕ = ((start / 64 + 1) * 64) % word32 in
    let checks : ltb start end ≡ true = ground arith in
    let values : ((bit_value == 1) || (bit_value == 0)) ≡ true = ground arith in
    let (range, ran, found) =
      next_word_loop-WordFound bm rev ok end (rounds end) start boundary (omega arith) lt
        (omega arith) (omega arith) in
    go range ran found checks values
  where
    go :
        (range : Option (ℕ × ℕ))
        → next_word_loop bm end
            (bit_value == 0)
            (rounds end)
            start
            (((start / 64 + 1) * 64) % word32)
          ≡ done range
        → WordFound bm (bit_value == 0) ok start end range
        → ltb start end ≡ true
        → ((bit_value == 1) || (bit_value == 0)) ≡ true
        → (r : Option ℕ) × (find_next_bit (some bm) start end bit_value ≡ done (value r))
          × First bm (bit_value == 0) start end r
    go none ran found checks values = (none, rw (checks, values, ran), found)
    go (some (i, stop)) ran found checks values =
        let (r, bits, first) =
          next_bit_loop-First bm (bit_value == 0) ok (stop - i) i stop (omega (arith, found.1))
            (omega (arith, found.2, small)) in
        (
          r,
          rw (checks, values, ran, bits),
          in_range bm (bit_value == 0) ok start i stop end r found first,
        )
