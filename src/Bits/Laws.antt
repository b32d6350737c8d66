-- ===== src/Bits/Laws.antt =====
-- What each operator does to bit `k`.
use native.Mathlib.Nat.{
  pow-suc, one-le-pow, div-div-eq-div-mul, mod-eq-sub-div-mul, div-mul-le_self,
}
use lua_sharedtable.Base.{
  ℕ, zero, suc, ◌+◌, ◌-◌, ◌*◌, ◌/◌, ◌%◌, ◌^◌, ◌<◌, ◌≡◌, refl, sym, ap, ◌∙◌, false, not, ◌&&◌, ◌||◌,
  arith, ltb, if◌then◌else◌,
}
use lua_sharedtable.Bits.{bit, bit_and, bit_or, bit_and_step, bit_or_step}

pub bit-zero : (k : ℕ) → bit 0 k ≡ false
unfolding bit
bit-zero zero = refl
bit-zero (suc k) = bit-zero k

pub bit-bit_and : (a b k : ℕ) → bit (bit_and a b) k ≡ (bit a k && bit b k)
unfolding bit
bit-bit_and a b zero = ground (arith, bit_and_step a b)
bit-bit_and a b (suc k) =
    let half : bit_and a b / 2 ≡ bit_and (a / 2) (b / 2) = omega (arith, bit_and_step a b) in
    rw half (bit-bit_and (a / 2) (b / 2) k)

pub bit-bit_or : (a b k : ℕ) → bit (bit_or a b) k ≡ (bit a k || bit b k)
unfolding bit
bit-bit_or a b zero = ground (arith, bit_or_step a b)
bit-bit_or a b (suc k) =
    let half : bit_or a b / 2 ≡ bit_or (a / 2) (b / 2) = omega (arith, bit_or_step a b) in
    rw half (bit-bit_or (a / 2) (b / 2) k)

-- The index may be given by any expression.
pub bit-at : (a b m n : ℕ) → a ≡ b → m ≡ n → bit a m ≡ bit b n
bit-at a b m n p q = cc

pub bit-div_pow : (x s k : ℕ) → bit (x / 2 ^ s) k ≡ bit x (k + s)
unfolding bit
bit-div_pow x zero k = bit-at (x / 2 ^ 0) x k (k + 0) (omega arith) (omega arith)
bit-div_pow x (suc s) k =
    bit-at (x / 2 ^ suc s) (x / 2 / 2 ^ s) k k
      (ap (λ t. x / t) (omega (arith, pow-suc 2 s)) ∙ sym (div-div-eq-div-mul x 2 (2 ^ s))) refl
    ∙ bit-div_pow (x / 2) s k
    ∙ bit-at x x (suc (k + s)) (k + suc s) refl (omega arith)

pub bit-mul_pow : (x s k : ℕ) → bit (x * 2 ^ s) k ≡ (if ltb k s then false else bit x (k - s))
unfolding bit
bit-mul_pow x zero k = bit-at (x * 2 ^ 0) x k (k - 0) (omega arith) (omega arith) ∙ ground arith
bit-mul_pow x (suc s) zero = ground (arith, ap (λ (t : ℕ). x * t) (pow-suc 2 s))
bit-mul_pow x (suc s) (suc k) =
    let half : (x * 2 ^ suc s) / 2 ≡ x * 2 ^ s =
      omega (arith, ap (λ (t : ℕ). x * t) (pow-suc 2 s)) in
    let shift : suc k - suc s ≡ k - s = omega arith in
    rw (half, shift) (bit-mul_pow x s k ∙ ground arith)

-- The quotients by `p * 2` agree, as far as `omega` needs them.
quotients : (x p : ℕ) → x / (p * 2) * p ≡ x / 2 / p * p
quotients x p =
    ap (λ (t : ℕ). t * p) (ap (λ (t : ℕ). x / t) (omega arith) ∙ sym (div-div-eq-div-mul x 2 p))

half-mod : (x p : ℕ) → 0 < p → (x % (p * 2)) / 2 ≡ (x / 2) % p
half-mod x p h = omega (
  arith,
  quotients x p,
  mod-eq-sub-div-mul x (p * 2),
  mod-eq-sub-div-mul (x / 2) p,
  div-mul-le_self x (p * 2),
  div-mul-le_self (x / 2) p,
)

low-mod : (x p : ℕ) → 0 < p → (x % (p * 2)) % 2 ≡ x % 2
low-mod x p h = omega (arith, mod-eq-sub-div-mul x (p * 2), div-mul-le_self x (p * 2))

pub bit-mod_pow : (x n k : ℕ) → bit (x % 2 ^ n) k ≡ (ltb k n && bit x k)
unfolding bit
bit-mod_pow x zero k = bit-at (x % 2 ^ 0) 0 k k (omega arith) refl ∙ bit-zero k ∙ ground arith
bit-mod_pow x (suc n) zero = rw pow-suc (ground (arith, low-mod x (2 ^ n), one-le-pow n 2))
bit-mod_pow x (suc n) (suc k) =
    rw (pow-suc, half-mod x (2 ^ n) (one-le-pow n 2 (omega arith)))
      (bit-mod_pow (x / 2) n k ∙ ground arith)

pub bit-ones : (n k : ℕ) → bit (2 ^ n - 1) k ≡ ltb k n
unfolding bit
bit-ones zero k = bit-zero k ∙ ground arith
bit-ones (suc n) zero = ground (arith, pow-suc 2 n, one-le-pow n 2)
bit-ones (suc n) (suc k) =
    let half : (2 ^ suc n - 1) / 2 ≡ 2 ^ n - 1 = omega (arith, pow-suc 2 n, one-le-pow n 2) in
    rw half (bit-ones n k ∙ ground arith)

-- The complement in `n` bits.
pub bit-complement : (n x k : ℕ) → x < 2 ^ n → bit (2 ^ n - 1 - x) k ≡ (ltb k n && not (bit x k))
unfolding bit
bit-complement zero x k h =
    bit-at (2 ^ 0 - 1 - x) 0 k k (omega arith) refl ∙ bit-zero k ∙ ground arith
bit-complement (suc n) x zero h = ground (arith, pow-suc 2 n, one-le-pow n 2)
bit-complement (suc n) x (suc k) h =
    let half : (2 ^ suc n - 1 - x) / 2 ≡ 2 ^ n - 1 - x / 2 =
      omega (arith, pow-suc 2 n, one-le-pow n 2) in
    rw half (bit-complement n (x / 2) k (omega (arith, pow-suc 2 n)) ∙ ground arith)
