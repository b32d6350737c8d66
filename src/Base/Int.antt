-- ===== src/Base/Int.antt =====
-- The `int` of C, and the conversions to and from it that the sources leave to the compiler. The
-- numbers are small enough that no sum of `int` overflows.
use Prim.Native.Nat.{ℕ, zero, suc, ◌+◌, ◌-◌, ◌%◌, ◌^◌, ◌≤◌, ◌<◌}
use mathlib.Core.Path.{◌≡◌, refl, ap}
use mathlib.Core.Bool.{Bool, true, false}
use native.Mathlib.Omega.{arith}
use lua_sharedtable.Base.Tests.{ltb, ◌==◌, if◌then◌else◌}

pub data ℤ : Type 0 where
  pos negsuc : ℕ → ℤ

-- `a - b`
abbrev pub diff : (a b : ℕ) → ℤ
diff a b = if ltb a b then negsuc (b - a - 1) else pos (a - b)

infixl 20 ◌+ℤ◌
abbrev pub ◌+ℤ◌ : ℤ → ℤ → ℤ
pos a +ℤ pos b = pos (a + b)
pos a +ℤ negsuc b = diff a (suc b)
negsuc a +ℤ pos b = diff b (suc a)
negsuc a +ℤ negsuc b = negsuc (suc (a + b))

abbrev pub negate : ℤ → ℤ
negate (pos zero) = pos zero
negate (pos (suc n)) = negsuc n
negate (negsuc n) = pos (suc n)

-- Whether it is the number `n`.
abbrev pub is_nat : ℤ → (n : ℕ) → Bool
is_nat (pos a) n = a == n
is_nat (negsuc a) n = false

-- The rounds of a loop from 0 up to it.
abbrev pub to_nat : ℤ → ℕ
to_nat (pos n) = n
to_nat (negsuc n) = 0

-- What an `int16_t` holds after an `int` is stored: the lower 16 bits, with the upper one as sign.
abbrev pub low16 : ℤ → ℕ
low16 (pos n) = n % 2 ^ 16
low16 (negsuc n) = 2 ^ 16 - 1 - n % 2 ^ 16

abbrev pub signed16 : ℕ → ℤ
signed16 x = if ltb x (2 ^ 15) then pos x else negsuc (2 ^ 16 - 1 - x)

abbrev pub to_int16 : ℤ → ℤ
to_int16 z = signed16 (low16 z)

pub to_int16-pos : (n : ℕ) → n < 2 ^ 15 → to_int16 (pos n) ≡ pos n
to_int16-pos n small =
    let low : n % 2 ^ 16 ≡ n = omega arith in
    let fits : ltb n (2 ^ 15) ≡ true = ground arith in rw (low, fits) refl

-- `a - b` for a `b` that is no greater.
pub minus_le : (a b : ℕ) → b ≤ a → pos a +ℤ negate (pos b) ≡ pos (a - b)
minus_le a zero le = ap pos (omega arith)
minus_le a (suc b) le = let less : ltb a (suc b) ≡ false = ground arith in rw less refl
