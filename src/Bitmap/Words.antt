-- ===== src/Bitmap/Words.antt =====
-- The bits of one word that `mask_` and `word_bits_value_` select.
use lua_sharedtable.Base.{
  ℕ, ◌+◌, ◌-◌, ◌*◌, ◌/◌, ◌%◌, ◌^◌, ◌≤◌, ◌<◌, ◌≡◌, refl, ap₂, ◌∙◌, Bool, true, false, not, ◌&&◌, inl,
  inr, arith, ◌==◌, ltb, leb, done, if◌then◌else◌, Bool-cases,
}
use mathlib.Core.Bool.{and_comm}
use lua_sharedtable.Bits.{bit, bit_and, word64, shl64, shr64, not64}
use lua_sharedtable.Bits.Laws.{
  bit-bit_and, bit-mod_pow, bit-mul_pow, bit-div_pow, bit-ones, bit-complement,
}
use lua_sharedtable.Bits.Extent.{bit_and-lt}
use lua_sharedtable.Bitmap.{Bitmap, IsBitmap, bits_all_set, in_one_word, mask, word_bits_value}

-- the mask as a number
abbrev pub mask_word : ℕ → ℕ → ℕ
mask_word s e = bit_and (shl64 bits_all_set s) (shr64 bits_all_set (64 - e))

pub mask-done : (s e : ℕ) → s < e → e ≤ 64 → mask s e ≡ done (mask_word s e)
unfolding mask in_one_word
mask-done s e h k = ground arith

-- `mask_(s, e)` has exactly the bits from `s` up to `e` set.
pub bit-mask_word : (s e k : ℕ) → s < e → e ≤ 64 → bit (mask_word s e) k ≡ (leb s k && ltb k e)
unfolding shl64 shr64
bit-mask_word s e k h l = ground (
  arith,
  bit-bit_and ((bits_all_set * 2 ^ s) % word64) (bits_all_set / 2 ^ (64 - e)) k,
  bit-mod_pow (bits_all_set * 2 ^ s) 64 k,
  bit-mul_pow bits_all_set s k,
  bit-ones 64 (k - s),
  bit-div_pow bits_all_set (64 - e) k,
  bit-ones 64 (k + (64 - e)),
)

pub bit-not64 : (x k : ℕ) → x < word64 → k < 64 → bit (not64 x) k ≡ not (bit x k)
unfolding not64
bit-not64 x k h l = ground (arith, bit-complement 64 x k h)

-- bit `i` of the whole bitmap
abbrev pub test : Bitmap → ℕ → Bool
test bm i = bit (bm (i / 64)) (i % 64)

-- what a search for `reverse` looks at: set bits, or clear ones
abbrev pub seen : Bool → Bool → Bool
seen reverse b = if reverse then not b else b

abbrev pub SameWord : ℕ → ℕ → Type 0
SameWord start end = (start < end) × (start / 64 ≡ (end - 1) / 64)

-- the value of `word_bits_value_` on a range inside one word
pub record IsSegment (bm : Bitmap) (start end : ℕ) (reverse : Bool) (v : ℕ) : Type 0 where
  pub returned : word_bits_value bm start end reverse ≡ done v
  pub fits : v < word64
  pub bits :
      (k : ℕ)
      → k < 64
      → bit v k ≡ (
          (leb (start % 64) k && ltb k ((end - 1) % 64 + 1))
          && seen reverse (bit (bm (start / 64)) k))

abbrev pub Segment : Bitmap → ℕ → ℕ → Bool → Type 0
Segment bm start end reverse = (v : ℕ) × IsSegment bm start end reverse v

abbrev chosen : Bitmap → ℕ → Bool → ℕ
chosen bm w reverse = if reverse then not64 (bm w) else bm w

chosen-lt : (bm : Bitmap) (w : ℕ) (reverse : Bool) → IsBitmap bm → chosen bm w reverse < word64
unfolding not64
chosen-lt bm w true ok = omega arith
chosen-lt bm w false ok = ok w

bit-chosen :
    (bm : Bitmap) (w k : ℕ) (reverse : Bool)
    → IsBitmap bm
    → k < 64
    → bit (chosen bm w reverse) k ≡ seen reverse (bit (bm w) k)
bit-chosen bm w k true ok h = bit-not64 (bm w) k (ok w) h
bit-chosen bm w k false ok h = refl

module _ (start end : ℕ) (h : SameWord start end) where
  abbrev low : ℕ
  low = start % 64

  abbrev high : ℕ
  high = (end - 1) % 64 + 1

  low-lt-high : low < high
  low-lt-high = omega arith

  high-le : high ≤ 64
  high-le = omega arith

  one_word : in_one_word start end ≡ done true
  unfolding in_one_word
  one_word = ground arith

  module _ (bm : Bitmap) (reverse : Bool) where
    value-full :
        ((low == 0) && (high == 64)) ≡ true
        → word_bits_value bm start end reverse ≡ done (chosen bm (start / 64) reverse)
    unfolding word_bits_value
    value-full full = rw (one_word, full)

    value-part :
        ((low == 0) && (high == 64)) ≡ false
        → word_bits_value bm start end reverse
          ≡ done (bit_and (chosen bm (start / 64) reverse) (mask_word low high))
    unfolding word_bits_value
    value-part part = rw (one_word, part, mask-done low high low-lt-high high-le)

    pub segment : IsBitmap bm → Segment bm start end reverse
    segment ok =
        let w : ℕ = chosen bm (start / 64) reverse in
        elim (Bool-cases ((low == 0) && (high == 64))) [
          | inl full ↦ (
            w,
            record {
              returned = value-full full;
              fits = chosen-lt bm (start / 64) reverse ok;
              bits = λ k l. bit-chosen bm (start / 64) k reverse ok l ∙ ground arith;
            },
          )
          | inr part ↦ (
            bit_and w (mask_word low high),
            record {
              returned = value-part part;
              fits = bit_and-lt 64 w (mask_word low high) (chosen-lt bm (start / 64) reverse ok);
              bits = λ k l.
                  bit-bit_and w (mask_word low high) k
                  ∙ ap₂ ◌&&◌ (bit-chosen bm (start / 64) k reverse ok l)
                      (bit-mask_word low high k low-lt-high high-le)
                  ∙ and_comm (seen reverse (bit (bm (start / 64)) k)) (leb low k && ltb k high);
            },
          )
        ]
