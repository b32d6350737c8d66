-- ===== src/Binary/Bytes.antt =====
-- Bytes of an encoded integer, and the groups of seven bits that they hold.
use native.Mathlib.Nat.{
  lt-mul-div-succ, div-eq_of_lt, one-le-pow, pow-le-pow_right, div-div-eq-div-mul,
  mod-eq-sub-div-mul, div-mul-le_self,
}
use native.Mathlib.Numerals.{towards_suc}
use lua_sharedtable.Base.{
  ℕ, zero, suc, ◌+◌, ◌-◌, ◌*◌, ◌/◌, ◌%◌, ◌^◌, ◌≤◌, ◌<◌, ◌≡◌, ap, ◌∙◌, arith, Memory,
}
use lua_sharedtable.Bits.{bit_and, bit_or}
use lua_sharedtable.Bits.Laws.{bit-bit_and, bit-bit_or, bit-mod_pow, bit-mul_pow, bit-ones}
use lua_sharedtable.Bits.Extent.{bits-ext, bit_and-lt, bit_or-lt, bit_or-add}

-- `b & 0x7f`
pub byte_low : (b : ℕ) → b < 256 → bit_and b 0x7f ≡ b % 128
byte_low b h =
    bits-ext 8 (bit_and b 0x7f) (b % 128) (bit_and-lt 8 b 0x7f h) (omega arith)
      λ k l. ground (arith, bit-bit_and b 0x7f k, bit-ones 7 k, bit-mod_pow b 7 k)

-- `((uint8_t)x) | 0x80`
pub byte_marked : (x : ℕ) → bit_or (x % 256) 0x80 ≡ x % 128 + 128
byte_marked x = same ∙ bit_or-add 7 (x % 128) 1 (omega arith)
  where
    same : bit_or (x % 256) 0x80 ≡ bit_or (x % 128) (1 * 2 ^ 7)
    same =
        bits-ext 8 (bit_or (x % 256) 0x80) (bit_or (x % 128) 0x80)
          (bit_or-lt 8 (x % 256) 0x80 (omega arith) (omega arith))
          (bit_or-lt 8 (x % 128) 0x80 (omega arith) (omega arith))
          λ k l. ground (
            arith,
            bit-bit_or (x % 256) 0x80 k,
            bit-bit_or (x % 128) 0x80 k,
            bit-mod_pow x 8 k,
            bit-mod_pow x 7 k,
            bit-mul_pow 1 7 k,
            bit-ones 1 (k - 7),
          )

-- 128 ^ k
abbrev pub scale : ℕ → ℕ
scale k = 2 ^ (7 * k)

pub scale-pos : (k : ℕ) → 0 < scale k
scale-pos k = one-le-pow (7 * k) 2 (omega arith)

pub scale_mono : (a b : ℕ) → a ≤ b → scale a ≤ scale b
scale_mono a b h = pow-le-pow_right {n = 2} (omega arith) {i = 7 * a} {j = 7 * b} (omega arith)

pub scale-suc : (k : ℕ) → scale (suc k) ≡ scale k * 128
scale-suc k = ap (λ (t : ℕ). 2 ^ t) (omega arith) ∙ shift (7 * k)
  where
    shift : (s : ℕ) → 2 ^ (s + 7) ≡ 2 ^ s * 128
    shift s = simp towards_suc (omega arith)

-- group `k` of an integer
abbrev pub group : ℕ → ℕ → ℕ
group x k = x / scale k % 128

pub div-zero→lt : (x k : ℕ) → x / scale k ≡ 0 → x < scale k
div-zero→lt x k h =
    omega (arith, lt-mul-div-succ x {b = scale k} (scale-pos k), ap (λ (t : ℕ). scale k * t) h)

pub lt→div-zero : (x k : ℕ) → x < scale k → x / scale k ≡ 0
lt→div-zero x k h = div-eq_of_lt h

pub div-scale : (x k : ℕ) → x / 128 / scale k ≡ x / scale (suc k)
div-scale x k =
    div-div-eq-div-mul x 128 (scale k) ∙ ap (λ (t : ℕ). x / t) (omega (arith, scale-suc k))

mod-mul : (x p : ℕ) → x % (p * 128) ≡ x % p + x / p % 128 * p
mod-mul x p =
    let q : ℕ = x / p in
    let halves : q ≡ q / 128 * 128 + q % 128 = omega arith in
    omega (
      arith,
      ap (λ (t : ℕ). t * p) halves,
      ap (λ (t : ℕ). t * p) (div-div-eq-div-mul x p 128),
      mod-eq-sub-div-mul x (p * 128),
      mod-eq-sub-div-mul x p,
      div-mul-le_self x (p * 128),
      div-mul-le_self x p,
    )

-- The first `k + 1` groups are the first `k` and the next one.
pub mod-scale : (x k : ℕ) → x % scale (suc k) ≡ x % scale k + group x k * scale k
mod-scale x k = ap (λ (t : ℕ). x % t) (scale-suc k) ∙ mod-mul x (scale k)

-- The integer that the first `n` bytes of a buffer stand for.
unfoldable pub groups : Memory ℕ → ℕ → ℕ
groups buf zero = 0
groups buf (suc n) = groups buf n + buf n % 128 * scale n

pub groups-lt : (buf : Memory ℕ) (n : ℕ) → groups buf n < scale n
unfolding groups
groups-lt buf zero = omega arith
groups-lt buf (suc n) = omega (arith, scale-suc n, groups-lt buf n, digit (buf n) (scale n))
  where
    digit : (b p : ℕ) → b % 128 * p ≤ 127 * p
    digit b p = grind arith

-- Bytes that hold the groups of `x` stand for `x`.
pub groups-mod :
    (buf : Memory ℕ) (x n : ℕ)
    → ((k : ℕ) → k < n → buf k % 128 ≡ group x k)
    → groups buf n ≡ x % scale n
unfolding groups
groups-mod buf x zero h = omega arith
groups-mod buf x (suc n) h = omega (
  arith,
  mod-scale x n,
  groups-mod buf x n (λ k l. h k (omega arith)),
  ap (λ (t : ℕ). t * scale n) (h n (omega arith)),
)
