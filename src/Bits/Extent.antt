-- ===== src/Bits/Extent.antt =====
-- Words below `2 ^ n`: they are determined by their first `n` bits, and the operators keep them
-- below `2 ^ n`.
use native.Mathlib.Nat.{pow-suc}
use lua_sharedtable.Base.{
  ℕ, zero, suc, ◌+◌, ◌*◌, ◌/◌, ◌%◌, ◌^◌, ◌<◌, ◌≡◌, refl, ap, ◌∙◌, true, arith, ◌==◌, inl, inr,
  Bool-cases, ◌≢◌,
}
use lua_sharedtable.Bits.{
  bit, bit_and, bit_or, bit_and_step, bit_or_step, zero-bit_and, zero-bit_or,
}
use lua_sharedtable.Bits.Laws.{bit-zero, bit-at}

pub bits-ext : (n a b : ℕ) → a < 2 ^ n → b < 2 ^ n → ((k : ℕ) → k < n → bit a k ≡ bit b k) → a ≡ b
unfolding bit
bits-ext zero a b p q h = omega arith
bits-ext (suc n) a b p q h = ground (
  arith,
  h 0,
  bits-ext n (a / 2) (b / 2) (omega (arith, pow-suc 2 n)) (omega (arith, pow-suc 2 n))
      (λ k l. h (suc k) (omega arith)),
)

-- A word that is not zero has a bit set.
pub first_bit : (n a : ℕ) → a < 2 ^ n → a ≢ 0 → (k : ℕ) × (k < n) × (bit a k ≡ true)
unfolding bit
first_bit zero a p h = absurd (h (omega arith))
first_bit (suc n) a p h = elim (Bool-cases ((a % 2) == 1)) [
  | inl odd ↦ (0, omega arith, odd)
  | inr even ↦
      let (k, l, b) = first_bit n (a / 2) (omega (arith, pow-suc 2 n)) (ground arith) in
      (suc k, omega arith, b)
]

pub bit-lt : (n a k : ℕ) → a < 2 ^ n → bit a k ≡ true → k < n
unfolding bit
bit-lt zero a k p h =
    let none_set : bit 0 k ≡ true = bit-at 0 a k k (omega arith) refl ∙ h in
    absurd (cc (bit-zero k))
bit-lt (suc n) a zero p h = omega arith
bit-lt (suc n) a (suc k) p h = omega (arith, bit-lt n (a / 2) k (omega (arith, pow-suc 2 n)) h)

zero-of : (x : ℕ) → x < 1 → x ≡ 0
zero-of x h = omega arith

pub bit_and-lt : (n a b : ℕ) → a < 2 ^ n → bit_and a b < 2 ^ n
bit_and-lt zero a b h = omega (arith, zero-bit_and b, ap (λ (t : ℕ). bit_and t b) (zero-of a h))
bit_and-lt (suc n) a b h = omega (
  arith,
  pow-suc 2 n,
  bit_and_step a b,
  bit_and-lt n (a / 2) (b / 2) (omega (arith, pow-suc 2 n)),
)

pub bit_or-lt : (n a b : ℕ) → a < 2 ^ n → b < 2 ^ n → bit_or a b < 2 ^ n
bit_or-lt zero a b h l = omega (arith, zero-bit_or b, ap (λ (t : ℕ). bit_or t b) (zero-of a h))
bit_or-lt (suc n) a b h l = omega (
  arith,
  pow-suc 2 n,
  bit_or_step a b,
  bit_or-lt n (a / 2) (b / 2) (omega (arith, pow-suc 2 n)) (omega (arith, pow-suc 2 n)),
)

-- `|` of a word below `2 ^ s` and one that is shifted by `s` is their sum.
pub bit_or-add : (s x y : ℕ) → x < 2 ^ s → bit_or x (y * 2 ^ s) ≡ x + y * 2 ^ s
bit_or-add zero x y h =
    omega (arith, zero-bit_or (y * 2 ^ 0), ap (λ (t : ℕ). bit_or t (y * 2 ^ 0)) (zero-of x h))
bit_or-add (suc s) x y h = omega (
  arith,
  ap (λ (t : ℕ). y * t) (pow-suc 2 s),
  bit_or_step x (y * 2 ^ suc s),
  ap (λ (t : ℕ). bit_or (x / 2) t) (half s y),
  bit_or-add s (x / 2) y (omega (arith, pow-suc 2 s)),
)
  where
    half : (s y : ℕ) → y * 2 ^ suc s / 2 ≡ y * 2 ^ s
    half s y = omega (arith, ap (λ (t : ℕ). y * t) (pow-suc 2 s))
