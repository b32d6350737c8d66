-- ===== src/Bitmap/Tests.antt =====
-- Runs of the functions of src/bitmap/bitmap.c on small bitmaps.
use lua_sharedtable.Base.{
  ℕ, zero, suc, ◌%◌, ◌+◌, ◌-◌, ◌<◌, ◌≡◌, ◌↔◌, refl, Bool, true, false, Option, some, if◌then◌else◌,
  ltb, ◌==◌, arith, done, abort, value, failed, index_out_of_range,
}
use lua_sharedtable.Bits.{word32, shl64, shr64}
use lua_sharedtable.Bits.Laws.{bit-zero}
use lua_sharedtable.Bitmap.{
  Bitmap, IsBitmap, get, set, are_all_cleared, equal, find_next_bit, word_bits_value, in_one_word,
  mask, next_word_loop, next_bit_loop,
}
use lua_sharedtable.Bitmap.Words.{test}
use lua_sharedtable.Bitmap.Single.{get-test, set-Updated, Updated}
use lua_sharedtable.Bitmap.Whole.{are_all_cleared_iff, equal_iff, are_all_cleared-abort}
use lua_sharedtable.Bitmap.Search.{First, find_next_bit-First}

-- the bits 5 and 70
abbrev sparse_bits : Bitmap
sparse_bits zero = 32
sparse_bits (suc zero) = 64
sparse_bits (suc (suc w)) = 0

abbrev no_bits : Bitmap
no_bits w = 0

sparse_bits-IsBitmap : IsBitmap sparse_bits
sparse_bits-IsBitmap zero = omega arith
sparse_bits-IsBitmap (suc zero) = omega arith
sparse_bits-IsBitmap (suc (suc w)) = omega arith

finds_across_words : find_next_bit (some sparse_bits) 6 200 1 ≡ done (value (some 70))
unfolding find_next_bit next_word_loop next_bit_loop word_bits_value in_one_word mask shl64 shr64
finds_across_words = refl

refuses_an_empty_range : find_next_bit (some sparse_bits) 6 6 1 ≡ done (failed index_out_of_range)
unfolding find_next_bit
refuses_an_empty_range = refl

find_next_bit-First_example :
    (r : Option ℕ) × (find_next_bit (some sparse_bits) 6 200 1 ≡ done (value r))
    × First sparse_bits (1 == 0) 6 200 r
find_next_bit-First_example =
    find_next_bit-First sparse_bits 6 200 1 sparse_bits-IsBitmap (omega arith) (omega arith)
      (omega arith)

are_all_cleared_iff_example :
    (b : Bool) × (are_all_cleared (some sparse_bits) 100 ≡ done (value b))
    × ((b ≡ true) ↔ ((i : ℕ) → i < 100 → test sparse_bits i ≡ false))
are_all_cleared_iff_example = are_all_cleared_iff 100 (omega arith) sparse_bits sparse_bits-IsBitmap

equal_iff_example :
    (b : Bool) × (equal (some sparse_bits) (some no_bits) 70 ≡ done (value b))
    × ((b ≡ true) ↔ ((i : ℕ) → i < 70 → test sparse_bits i ≡ test no_bits i))
equal_iff_example =
    equal_iff 70 (omega arith) sparse_bits no_bits sparse_bits-IsBitmap (λ w. omega arith)

set-Updated_example :
    (new : Bitmap) × (set sparse_bits 71 ≡ done (new, test sparse_bits 71))
    × Updated sparse_bits 71 true new
set-Updated_example = set-Updated sparse_bits 71 sparse_bits-IsBitmap

get-test_example :
    get sparse_bits (word32 - 1)
    ≡ (if ltb (word32 - 1 + 1) word32 then done (test sparse_bits (word32 - 1)) else abort)
get-test_example = get-test sparse_bits (word32 - 1) sparse_bits-IsBitmap (omega arith)

are_all_cleared-abort_example : are_all_cleared (some no_bits) (word32 - 1) ≡ abort
are_all_cleared-abort_example =
    are_all_cleared-abort no_bits (word32 - 1) (λ w. omega arith) (omega arith) (omega arith)
      (λ i h. bit-zero (i % 64))
