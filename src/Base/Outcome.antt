-- ===== src/Base/Outcome.antt =====
-- The outcome of a call. The source's `st_assert` ends the process through `st_bug`, which is
-- `abort`; a loop that is given too little fuel is `out_of_fuel`; `undefined` is behaviour that C does
-- not define. `Ret` holds the return codes of
-- inc/err.h without their prefix, and `errno` stands for a code of the system.
use Prim.Native.Nat.{ℕ}
use mathlib.Core.Path.{◌≡◌}
use mathlib.Core.Bool.{Bool, true, false}

pub data Ret : Type 0 where
  ok err again arg_invalid buf_not_enough buf_overflow bug_uninited chksum : Ret
  disk_in_err_state disk_out_of_space disk_unavailable dup empty_err eof existed fin : Ret
  index_out_of_range initted_twice io iter_finish net_again net_bind net_chksum net_create : Ret
  net_listen net_socket_opt net_timeout not_empty not_equal not_found not_ready no_gc_data : Ret
  num_overflow out_of_memory out_of_order out_of_range resp_dup resp_lost resp_timeout : Ret
  state_invalid table_modified timeout uninited unsupported : Ret
  errno : ℕ → Ret

pub data Run {ℓ} (A : Type ℓ) : Type ℓ where
  done : A → Run A
  abort out_of_fuel undefined : Run A

infixl 5 ◌>>=◌ ◌>>◌
abbrev pub ◌>>=◌ {ℓ κ} : {A : Type ℓ} {B : Type κ} → Run A → (A → Run B) → Run B
done a >>= f = f a
abort >>= f = abort
out_of_fuel >>= f = out_of_fuel
undefined >>= f = undefined

abbrev pub ◌>>◌ {ℓ} : {B : Type ℓ} → Run (Unit {0}) → Run B → Run B
m >> k = m >>= λ _. k

-- `st_assert(expr)`
abbrev pub st_assert : Bool → Run (Unit {0})
st_assert true = done tt
st_assert false = abort

-- What a function returns that shares its `int` between a result and an error code.
pub data Result {ℓ} (A : Type ℓ) : Type ℓ where
  value : A → Result A
  failed : Ret → Result A

-- An assertion that holds.
pub asserted {ℓ} : {B : Type ℓ} (b : Bool) (k : Run B) → b ≡ true → (st_assert b >> k) ≡ k
asserted b k h = rw h
