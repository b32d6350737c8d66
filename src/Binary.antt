-- ===== src/Binary.antt =====
-- src/binary/binary.c: 64-bit integers as little-endian groups of seven bits, each byte but the
-- last with its top bit set. A buffer is the memory at `buf`; `len` is its length.
pub mod Size
pub mod Bytes
pub mod Put
pub mod Load
mod Tests
use lua_sharedtable.Base.{
  ℕ, zero, suc, ◌+◌, ◌-◌, ◌*◌, ◌/◌, ◌%◌, ◌^◌, ◌<◌, Bool, true, false, ◌&&◌, ◌||◌, if◌then◌else◌,
  ltb, ◌==◌, Memory, write, Run, done, out_of_fuel, Result, value, failed, buf_overflow,
  buf_not_enough, num_overflow, arg_invalid,
}
use lua_sharedtable.Bits.{bit_and, bit_or, shl64, shr64}

-- every cell is a `uint8_t`
abbrev pub IsBytes : Memory ℕ → Type 0
IsBytes buf = (i : ℕ) → buf i < 256

-- `do { l++; x >>= 7; } while (x != 0);`
unfoldable pub size_loop : (fuel l x : ℕ) → Run ℕ
unfolding shr64
size_loop zero l x = out_of_fuel
size_loop (suc fuel) l x =
    let rest = size_loop fuel (l + 1) (shr64 x 7) in if shr64 x 7 == 0 then done (l + 1) else rest

-- A `uint64_t` has at most ten groups.
unfoldable pub vu64_size : ℕ → Run ℕ
unfolding size_loop
vu64_size x = size_loop 10 0 x

-- `for (i = 0; x != 0 && i < len; i++)`, by the cells `left` of the buffer: the buffer, `i` and `x`
-- after the loop.
unfoldable pub put_loop : (left i x : ℕ) → Memory ℕ → Memory ℕ × ℕ × ℕ
unfolding shr64
put_loop zero i x buf = (buf, i, x)
put_loop (suc left) i x buf = elim (x == 0) [
  | true ↦ (buf, i, x)
  | false ↦ put_loop left (i + 1) (shr64 x 7) (write buf i (bit_or (x % 256) 0x80))
]

unfoldable pub vu64_put : Memory ℕ → (len x : ℕ) → Memory ℕ × Result ℕ
unfolding put_loop
vu64_put buf len x =
    if x == 0
    then (if ltb 0 len then (write buf 0 0, value 1) else (buf, failed buf_overflow))
    else (let (buf', i, rest) = put_loop len 0 x buf in
        if ltb 0 rest
        then (buf', failed buf_overflow)
        else (write buf' (i - 1) (bit_and (buf' (i - 1)) 0x7f), value i))

-- What follows the loop of `bin_vu64_load`.
abbrev pub after_loop : (len : ℕ) → Result (ℕ × ℕ) → Result (ℕ × ℕ)
after_loop len (failed e) = failed e
after_loop len (value (i, x)) = if i == len then failed buf_not_enough else value (i + 1, x)

-- C leaves a shift by 64 bits or more undefined: `undefined_shl` stands for what it gives.
module _ (undefined_shl : ℕ → ℕ → ℕ) where
  unfoldable pub shifted : ℕ → ℕ → ℕ
  unfolding shl64
  shifted x s = if ltb s 64 then shl64 x s else undefined_shl x s

  -- The loop of `bin_vu64_load`: an early return, or `i` and `x` after the loop.
  unfoldable pub load_loop : Memory ℕ → (left i x shift : ℕ) → Result (ℕ × ℕ)
  unfolding shifted
  load_loop buf zero i x shift = value (i, x)
  load_loop buf (suc left) i x shift = elim (ltb (buf i) 0x80) [
    | true ↦
        if ltb 9 i || ((i == 9) && ltb 1 (buf i))
        then failed num_overflow
        else value (i, bit_or x (shifted (buf i) shift))
    | false ↦
        load_loop buf left (i + 1) (bit_or x (shifted (bit_and (buf i) 0x7f) shift)) (shift + 7)
  ]

  -- The number of bytes read and what is stored in `*rst`.
  unfoldable pub vu64_load : Memory ℕ → (len : ℕ) → (rst_is_null : Bool) → Result (ℕ × ℕ)
  unfolding load_loop
  vu64_load buf len true = failed arg_invalid
  vu64_load buf len false = after_loop len (load_loop buf len 0 0 0)
