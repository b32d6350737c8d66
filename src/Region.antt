-- ===== src/Region.antt =====
-- src/region/region.c and region.h: the table of equal regions of a shared mapping. Pointers are
-- numbers, 0 the null pointer; an absent control block is `none`. The mutex makes each function
-- one step, so the model runs them one after another.
pub mod Valid
pub mod Alloc
pub mod Free
mod Tests
use lua_sharedtable.Base.{
  ℕ, zero, suc, ◌+◌, ◌-◌, ◌*◌, ◌/◌, ◌%◌, ◌^◌, ◌<◌, Bool, true, false, not, ◌&&◌, ◌||◌, Option, none,
  some, if◌then◌else◌, ltb, leb, ◌==◌, Memory, write, Ret, ok, arg_invalid, out_of_memory,
  out_of_range, errno, Result, value, failed,
}
use lua_sharedtable.Bits.{word64, word32}

-- `st_region_state_t`, and the zero that `memset` leaves
pub data RegionState : Type 0 where
  unset free busy : RegionState

abbrev pub is_free : RegionState → Bool
is_free free = true
is_free unset = false
is_free busy = false

abbrev pub max_num : ℕ
max_num = 1024

pub record Region : Type 0 where
  pub base_addr : ℕ
  pub page_size : ℕ
  pub reg_cnt : ℕ
  pub reg_size : ℕ
  pub states : Memory RegionState
  pub use_lock : Bool

-- `for (idx = 0; idx < reg_cnt; idx++) states[idx] = FREE`, by the rounds left
unfoldable pub mark_free : (left idx : ℕ) → Memory RegionState → Memory RegionState
mark_free zero idx states = states
mark_free (suc left) idx states = mark_free left (idx + 1) (write states idx free)

-- `page_size` is what `sysconf` returns, `lock_init` the code of `st_robustlock_init`. The product
-- of the page size and the pages is below 2 ^ 63.
unfoldable pub init :
    (page_size lock_init : ℕ)
    → Option Region
    → (base_addr pages_per_reg reg_cnt : ℕ) (use_lock : Bool) → Option Region × Ret
unfolding mark_free
init page_size lock_init none base_addr pages_per_reg reg_cnt use_lock = (none, arg_invalid)
init page_size lock_init (some r) base_addr pages_per_reg reg_cnt use_lock =
    if base_addr == 0
    then (some r, arg_invalid)
    else if reg_cnt == 0
    then (some r, arg_invalid)
    else if not (leb reg_cnt max_num)
    then (some r, arg_invalid)
    else (let fresh : Region = record {
      base_addr = base_addr;
      page_size = page_size;
      reg_cnt = reg_cnt;
      reg_size = page_size * pages_per_reg;
      states = mark_free reg_cnt 0 (λ idx. unset);
      use_lock = use_lock;
    } in
        if use_lock && not (lock_init == 0)
        then (some fresh, errno lock_init)
        else (some fresh, ok))

-- `lock_destroy` is the code of `st_robustlock_destroy`.
unfoldable pub destroy : (lock_destroy : ℕ) → Option Region → Option Region × Ret
destroy lock_destroy none = (none, arg_invalid)
destroy lock_destroy (some r) =
    if r.use_lock
    then (if not (lock_destroy == 0)
        then (some r, errno lock_destroy)
        else (some (record r { use_lock = false }), ok))
    else (some r, ok)

-- The start of a region, null for an index that is not one of a region. A negative `int` is `none`.
unfoldable pub base_addr_by_idx : Option Region → (idx : Option ℕ) → ℕ
base_addr_by_idx none idx = 0
base_addr_by_idx (some r) none = 0
base_addr_by_idx (some r) (some idx) =
    if not (ltb idx r.reg_cnt) then 0 else (r.base_addr + idx * r.reg_size) % word64

-- The loop of `st_region_alloc_reg`, by the rounds left.
unfoldable pub alloc_loop : (r : Region) (left idx : ℕ) → Option Region × Result ℕ
unfolding base_addr_by_idx
alloc_loop r zero idx = (some r, failed out_of_memory)
alloc_loop r (suc left) idx = elim (is_free (r.states idx)) [
  | true ↦ (
    some (record r { states = write r.states idx busy }),
    value (base_addr_by_idx (some r) (some idx)),
  )
  | false ↦ alloc_loop r left (idx + 1)
]

-- The control block, and what is stored in `*ret_addr`.
unfoldable pub alloc_reg : Option Region → (ret_addr_is_null : Bool) → Option Region × Result ℕ
unfolding alloc_loop
alloc_reg none null = (none, failed arg_invalid)
alloc_reg (some r) true = (some r, failed arg_invalid)
alloc_reg (some r) false = alloc_loop r r.reg_cnt 0

-- The conversion of a `uintptr_t` to an `int`.
abbrev pub to_int : ℕ → Option ℕ
to_int q = if ltb (q % word32) (2 ^ 31) then some (q % word32) else none

abbrev pub int_ge : Option ℕ → ℕ → Bool
int_ge none n = false
int_ge (some i) n = leb n i

abbrev pub state_at : Region → Option ℕ → RegionState
state_at r none = unset
state_at r (some idx) = r.states idx

abbrev pub set_free : Region → Option ℕ → Region
set_free r none = r
set_free r (some idx) = record r { states = write r.states idx free }

-- `madvise` is 0, or the `errno` with which `madvise` fails.
unfoldable pub free_reg : (madvise : ℕ) → Option Region → (addr : ℕ) → Option Region × Ret
unfolding base_addr_by_idx
free_reg madvise none addr = (none, arg_invalid)
free_reg madvise (some r) addr =
    if addr == 0
    then (some r, arg_invalid)
    else if ltb addr r.base_addr
    then (some r, arg_invalid)
    else (let idx = to_int ((addr - r.base_addr) / r.reg_size) in
        if int_ge idx r.reg_cnt
        then (some r, out_of_range)
        else if not (base_addr_by_idx (some r) idx == addr)
        then (some r, arg_invalid)
        else if is_free (state_at r idx)
        then (some r, ok)
        else if not (madvise == 0)
        then (some r, errno madvise)
        else (some (set_free r idx), ok))
