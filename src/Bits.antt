-- ===== src/Bits.antt =====
-- Bits of words: the operators `&`, `|`, `~`, `<<` and `>>` of C, read bit by bit.
mod Step
pub mod Laws
pub mod Extent
use mathlib.Core.Bool.{Bool}
use lua_sharedtable.Base.{ℕ, zero, suc, ◌-◌, ◌*◌, ◌/◌, ◌%◌, ◌^◌, ◌==◌}
pub use Prim.Native.Nat.{bit_and, bit_or}
pub use Step.{bit_and_step, bit_or_step, zero-bit_and, zero-bit_or}

-- bit `k` of `x`
unfoldable pub bit : ℕ → ℕ → Bool
bit x zero = (x % 2) == 1
bit x (suc k) = bit (x / 2) k

-- the number of values of a `uint64_t` and of a `uint32_t`
abbrev pub word64 : ℕ
word64 = 0x1_0000_0000_0000_0000

abbrev pub word32 : ℕ
word32 = 0x1_0000_0000

-- `x << s`, `x >> s` and `~x` on a `uint64_t`, at `s < 64`
unfoldable pub shl64 : ℕ → ℕ → ℕ
shl64 x s = (x * 2 ^ s) % word64

unfoldable pub shr64 : ℕ → ℕ → ℕ
shr64 x s = x / 2 ^ s

unfoldable pub not64 : ℕ → ℕ
not64 x = word64 - 1 - x
