-- ===== src/Bitmap.antt =====
-- src/bitmap/bitmap.c and bitmap.h: bit sets in arrays of 64-bit words. A bitmap is the memory at
-- its pointer, `none` a null pointer. An index is a `uint32_t`; an `int` flag is a Boolean.
pub mod Words
pub mod Segments
pub mod Single
pub mod Whole
pub mod Search
mod Tests
use lua_sharedtable.Base.{
  ℕ, zero, suc, ◌+◌, ◌-◌, ◌*◌, ◌/◌, ◌%◌, ◌^◌, ◌<◌, Bool, true, false, not, ◌&&◌, ◌||◌, Option, none,
  some, if◌then◌else◌, ltb, ◌==◌, Memory, write, Run, done, undefined, out_of_fuel, ◌>>=◌, ◌>>◌,
  st_assert, Result, value, failed, arg_invalid, index_out_of_range,
}
use lua_sharedtable.Bits.{bit_and, bit_or, word64, word32, shl64, shr64, not64}

abbrev pub Bitmap : Type 0
Bitmap = Memory ℕ

-- every word is a `uint64_t`
abbrev pub IsBitmap : Bitmap → Type 0
IsBitmap bm = (w : ℕ) → bm w < word64

abbrev pub bits_per_word : ℕ
bits_per_word = 64

abbrev pub bits_all_set : ℕ
bits_all_set = word64 - 1

-- `uint32_t` addition
abbrev pub add32 : ℕ → ℕ → ℕ
add32 a b = (a + b) % word32

unfoldable pub in_one_word : ℕ → ℕ → Run Bool
in_one_word start end = do
  st_assert (ltb start end)
  done (start / bits_per_word == (end - 1) / bits_per_word)

unfoldable pub mask : ℕ → ℕ → Run ℕ
unfolding in_one_word
mask start end = do
  inside ← in_one_word start end
  st_assert inside
  done (bit_and (shl64 bits_all_set start) (shr64 bits_all_set (bits_per_word - end)))

unfoldable pub word_bits_value : Bitmap → ℕ → ℕ → Bool → Run ℕ
unfolding in_one_word mask
word_bits_value bm start end reverse = do
  inside ← in_one_word start end
  st_assert inside
  let w_idx = start / bits_per_word
  let s = start % bits_per_word
  let e = (end - 1) % bits_per_word + 1
  let word = if reverse then not64 (bm w_idx) else bm w_idx
  if (s == 0) && (e == bits_per_word) then done word else (do m ← mask s e; done (bit_and word m))

unfoldable pub word_bits : Bitmap → ℕ → ℕ → Run ℕ
unfolding word_bits_value
word_bits bm start end = word_bits_value bm start end false

unfoldable pub word_bits_reverse : Bitmap → ℕ → ℕ → Run ℕ
unfolding word_bits_value
word_bits_reverse bm start end = word_bits_value bm start end true

unfoldable pub get : Bitmap → ℕ → Run Bool
unfolding word_bits
get bm idx = do word ← word_bits bm idx (add32 idx 1); done (not (word == 0))

-- The new bitmap, and whether the bit was set before.
unfoldable pub set : Bitmap → ℕ → Run (Bitmap × Bool)
unfolding mask
set bm idx = do
  let w_idx = idx / bits_per_word
  let b = idx % bits_per_word
  m ← mask b (b + 1)
  let original = bit_and (bm w_idx) m
  done (write bm w_idx (bit_or (bm w_idx) m), not (original == 0))

unfoldable pub clear : Bitmap → ℕ → Run (Bitmap × Bool)
unfolding mask
clear bm idx = do
  let w_idx = idx / bits_per_word
  let b = idx % bits_per_word
  m ← mask b (b + 1)
  let original = bit_and (bm w_idx) m
  done (write bm w_idx (bit_and (bm w_idx) (not64 m)), not (original == 0))

-- The loop over the words of the first `nbits` bits that three of the functions run:
-- `differs` is the test that makes them return 0.
unfoldable pub words_loop : (differs : ℕ → ℕ → Run Bool) (nbits fuel idx boundary : ℕ) → Run Bool
words_loop differs nbits zero idx boundary = out_of_fuel
words_loop differs nbits (suc fuel) idx boundary = elim (ltb idx nbits) [
  | false ↦ done true
  | true ↦
      let stop = if ltb nbits boundary then nbits else boundary in
      differs idx stop >>= λ bad. elim bad [
        | true ↦ done false
        | false ↦ words_loop differs nbits fuel stop (add32 stop bits_per_word)
      ]
]

-- A round for each word, and one for the last test.
abbrev pub rounds : ℕ → ℕ
rounds nbits = nbits / bits_per_word + 2

abbrev pub checked : Run Bool → Run (Result Bool)
checked r = r >>= λ b. done (value b)

unfoldable pub are_all_cleared : Option Bitmap → ℕ → Run (Result Bool)
unfolding words_loop word_bits
are_all_cleared none nbits = done (failed arg_invalid)
are_all_cleared (some bm) nbits = checked (
    words_loop (λ idx stop. word_bits bm idx stop >>= λ word. done (not (word == 0))) nbits
      (rounds nbits) 0 bits_per_word)

unfoldable pub are_all_set : Option Bitmap → ℕ → Run (Result Bool)
unfolding words_loop word_bits_reverse
are_all_set none nbits = done (failed arg_invalid)
are_all_set (some bm) nbits = checked (
    words_loop (λ idx stop. word_bits_reverse bm idx stop >>= λ word. done (not (word == 0))) nbits
      (rounds nbits) 0 bits_per_word)

unfoldable pub equal : Option Bitmap → Option Bitmap → ℕ → Run (Result Bool)
unfolding words_loop word_bits
equal none bm2 nbits = done (failed arg_invalid)
equal (some bm1) none nbits = done (failed arg_invalid)
equal (some bm1) (some bm2) nbits = checked (
    words_loop
      (λ idx stop.
        word_bits bm1 idx stop >>= λ a. word_bits bm2 idx stop >>= λ b. done (not (a == b)))
      nbits (rounds nbits) 0 bits_per_word)

-- The `while (1)` of `find_next_bit`: the range of one word in which the bit stands, or `none`.
unfoldable pub next_word_loop :
    (bm : Bitmap) (end : ℕ) (reverse : Bool) (fuel idx boundary : ℕ) → Run (Option (ℕ × ℕ))
next_word_loop bm end reverse zero idx boundary = out_of_fuel
next_word_loop bm end reverse (suc fuel) idx boundary =
    let stop = if ltb end boundary then end else boundary in
    word_bits_value bm idx stop reverse >>= λ word. elim (word == 0) [
      | false ↦ done (some (idx, stop))
      | true ↦ elim (stop == end) [
        | true ↦ done none
        | false ↦ next_word_loop bm end reverse fuel stop (add32 stop bits_per_word)
      ]
    ]

-- `for (int i = idx; i < boundary; i++)`, by the number of rounds left. An `int` is its bit
-- pattern, which is the number itself below 2 ^ 31; `i + 1` is not defined for the greatest `int`.
-- The result `none` is -1.
unfoldable pub next_bit_loop : (bm : Bitmap) (reverse : Bool) (left i : ℕ) → Run (Option ℕ)
next_bit_loop bm reverse zero i = done none
next_bit_loop bm reverse (suc left) i = elim (i == 2 ^ 31 - 1) [
  | true ↦ undefined
  | false ↦ word_bits_value bm i (add32 i 1) reverse >>= λ word. elim (word == 0) [
    | false ↦ done (some i)
    | true ↦ next_bit_loop bm reverse left (add32 i 1)
  ]
]

unfoldable pub find_next_bit : Option Bitmap → (start end bit_value : ℕ) → Run (Result (Option ℕ))
unfolding next_word_loop next_bit_loop
find_next_bit none start end bit_value = done (failed arg_invalid)
find_next_bit (some bm) start end bit_value =
    if not (ltb start end)
    then done (failed index_out_of_range)
    else if not ((bit_value == 1) || (bit_value == 0))
    then done (failed arg_invalid)
    else (do
      let reverse = bit_value == 0
      let boundary = ((start / bits_per_word + 1) * bits_per_word) % word32
      found ← next_word_loop bm end reverse (rounds end) start boundary
      elim found [
        | none ↦ done (value none)
        | some (idx, stop) ↦ next_bit_loop bm reverse (stop - idx) idx >>= λ at. done (value at)
      ])

unfoldable pub find_set_bit : Option Bitmap → (start end : ℕ) → Run (Result (Option ℕ))
unfolding find_next_bit
find_set_bit bm start end = find_next_bit bm start end 1

unfoldable pub find_clear_bit : Option Bitmap → (start end : ℕ) → Run (Result (Option ℕ))
unfolding find_next_bit
find_clear_bit bm start end = find_next_bit bm start end 0
