-- ===== src/Bitmap/Single.antt =====
-- `st_bitmap_get`, `st_bitmap_set` and `st_bitmap_clear` on the set of indices that a bitmap holds.
use lua_sharedtable.Base.{
  ℕ, ◌+◌, ◌-◌, ◌/◌, ◌%◌, ◌<◌, ◌≡◌, sym, ap, ◌∙◌, Bool, true, false, not, inl, inr, arith, ◌==◌, ltb,
  if◌then◌else◌, Bool-cases, not_zero-eq, write, done, abort,
}
use lua_sharedtable.Bits.{bit, bit_and, bit_or, not64, shl64, shr64, word64, word32}
use lua_sharedtable.Bits.Laws.{bit-zero, bit-bit_and, bit-bit_or}
use lua_sharedtable.Bits.Extent.{bits-ext, bit_and-lt, bit_or-lt}
use lua_sharedtable.Bitmap.{
  Bitmap, IsBitmap, bits_all_set, add32, in_one_word, word_bits_value, word_bits, get, set, clear,
}
use lua_sharedtable.Bitmap.Words.{
  test, mask_word, mask-done, bit-mask_word, bit-not64, segment, SameWord,
}
use lua_sharedtable.Bitmap.Segments.{Clean, zero→Clean, Clean→zero}

get_below :
    (bm : Bitmap) (idx : ℕ) → IsBitmap bm → idx + 1 < word32 → get bm idx ≡ done (test bm idx)
unfolding get word_bits
get_below bm idx ok small =
    let h : SameWord idx (idx + 1) = (omega arith, omega arith) in
    let next : add32 idx 1 ≡ idx + 1 = omega arith in
    let (v, s) = segment idx (idx + 1) h bm false ok in
    rw (next, s.returned)
      (ap done (
        not_zero-eq v (test bm idx)
          (λ z. zero→Clean idx (idx + 1) h bm false s z idx (omega arith) (omega arith))
          (λ off. Clean→zero idx (idx + 1) h bm false s (only off))))
  where
    only : test bm idx ≡ false → Clean bm false idx (idx + 1)
    only off i p q = let e : i ≡ idx = omega arith in rw e off

get_last : (bm : Bitmap) (idx : ℕ) → idx + 1 ≡ word32 → get bm idx ≡ abort
unfolding get word_bits word_bits_value in_one_word
get_last bm idx last =
    let next : add32 idx 1 ≡ 0 = omega arith in
    let empty : ltb idx 0 ≡ false = ground arith in rw (next, empty)

-- On a bitmap of 64-bit words and for a `uint32_t` index, `st_bitmap_get` returns the bit, but at
-- the last index that a `uint32_t` holds: there `idx + 1` wraps to 0, and an assertion ends the
-- process.
pub get-test :
    (bm : Bitmap) (idx : ℕ)
    → IsBitmap bm
    → idx < word32
    → get bm idx ≡ (if ltb (idx + 1) word32 then done (test bm idx) else abort)
get-test bm idx ok small = elim (Bool-cases (ltb (idx + 1) word32)) [
  | inl below ↦ rw below (get_below bm idx ok (ground arith))
  | inr last ↦ rw last (get_last bm idx (ground arith))
]

-- The mask of a single bit.
abbrev single : ℕ → ℕ
single b = mask_word b (b + 1)

bit-single : (b k : ℕ) → b < 64 → bit (single b) k ≡ (k == b)
bit-single b k h = bit-mask_word b (b + 1) k (omega arith) (omega arith) ∙ ground arith

shl64-lt : (x s : ℕ) → shl64 x s < word64
unfolding shl64
shl64-lt x s = omega arith

single-lt : (b : ℕ) → single b < word64
single-lt b =
    bit_and-lt 64 (shl64 bits_all_set b) (shr64 bits_all_set (64 - (b + 1)))
      (shl64-lt bits_all_set b)

masked : (x b : ℕ) → x < word64 → b < 64 → not (bit_and x (single b) == 0) ≡ bit x b
masked x b fits h =
    not_zero-eq (bit_and x (single b)) (bit x b)
      (λ z.
        ground (
          arith,
          bit-bit_and x (single b) b,
          bit-single b b,
          bit-zero b,
          ap (λ (t : ℕ). bit t b) z,
        ))
      (λ off.
        bits-ext 64 (bit_and x (single b)) 0 (bit_and-lt 64 x (single b) fits) (omega arith)
          λ k l. unset off k ∙ sym (bit-zero k))
  where
    bit_of : (k : ℕ) → k ≡ b → bit x k ≡ bit x b
    bit_of k e = cc

    unset : bit x b ≡ false → (k : ℕ) → bit (bit_and x (single b)) k ≡ false
    unset off k = bit-bit_and x (single b) k ∙ ground (arith, bit-single b k, bit_of k)

bit-set_word :
    (x b k : ℕ) → b < 64 → bit (bit_or x (single b)) k ≡ (if k == b then true else bit x k)
bit-set_word x b k h = ground (arith, bit-bit_or x (single b) k, bit-single b k)

bit-clear_word :
    (x b k : ℕ)
    → b < 64
    → k < 64
    → bit (bit_and x (not64 (single b))) k ≡ (if k == b then false else bit x k)
bit-clear_word x b k h l = ground (
  arith,
  bit-bit_and x (not64 (single b)) k,
  bit-not64 (single b) k (single-lt b) l,
  bit-single b k,
)

-- The bit `idx` of the bitmap has the given value, the others are those of `old`.
pub record Updated (old : Bitmap) (idx : ℕ) (b : Bool) (new : Bitmap) : Type 0 where
  pub words : IsBitmap new
  pub bits : (j : ℕ) → test new j ≡ (if j == idx then b else test old j)

-- Storing a word that differs from the old one at one bit updates that bit.
write-Updated :
    (bm : Bitmap) (idx v : ℕ) (b : Bool)
    → IsBitmap bm
    → v < word64
    → ((k : ℕ) → k < 64 → bit v k ≡ (if k == idx % 64 then b else bit (bm (idx / 64)) k))
    → Updated bm idx b (write bm (idx / 64) v)
write-Updated bm idx v b ok fits h = record {
  words = λ w. ground (arith, ok w);
  bits = λ j. ground (arith, h (j % 64));
}

-- On a bitmap of 64-bit words, `st_bitmap_set` sets the bit of the index, leaves all others as
-- they are, and returns what that bit was.
pub set-Updated :
    (bm : Bitmap) (idx : ℕ)
    → IsBitmap bm
    → (new : Bitmap) × (set bm idx ≡ done (new, test bm idx)) × Updated bm idx true new
unfolding set
set-Updated bm idx ok =
    let b : ℕ = idx % 64 in
    let w : ℕ = bm (idx / 64) in
    (
      write bm (idx / 64) (bit_or w (single b)),
      rw (
        mask-done b (b + 1) (omega arith) (omega arith),
        masked w b (ok (idx / 64)) (omega arith),
      ),
      write-Updated bm idx (bit_or w (single b)) true ok
          (bit_or-lt 64 w (single b) (ok (idx / 64)) (single-lt b))
          (λ k l. bit-set_word w b k (omega arith)),
    )

-- On a bitmap of 64-bit words, `st_bitmap_clear` clears the bit of the index, leaves all others
-- as they are, and returns what that bit was.
pub clear-Updated :
    (bm : Bitmap) (idx : ℕ)
    → IsBitmap bm
    → (new : Bitmap) × (clear bm idx ≡ done (new, test bm idx)) × Updated bm idx false new
unfolding clear
clear-Updated bm idx ok =
    let b : ℕ = idx % 64 in
    let w : ℕ = bm (idx / 64) in
    (
      write bm (idx / 64) (bit_and w (not64 (single b))),
      rw (
        mask-done b (b + 1) (omega arith) (omega arith),
        masked w b (ok (idx / 64)) (omega arith),
      ),
      write-Updated bm idx (bit_and w (not64 (single b))) false ok
          (bit_and-lt 64 w (not64 (single b)) (ok (idx / 64)))
          (λ k l. bit-clear_word w b k (omega arith) l),
    )
