-- ===== src/Array.antt =====
-- src/array/array.c and array.h: static and dynamic arrays. The elements are the memory at
-- `start_addr`, one cell for each `element_size` bytes; a null pointer is `none`. Indices and
-- counts are `ssize_t` values that are not negative and whose sums do not overflow.
pub mod Contents
pub mod Insert
pub mod Remove
pub mod One
pub mod Search
pub mod Order
pub mod Bisect
pub mod Sort
mod Tests
use lua_sharedtable.Base.{
  ℕ, zero, suc, ◌+◌, ◌-◌, ◌*◌, ◌/◌, ◌<◌, ◌≡◌, Bool, true, false, not, ◌&&◌, ◌||◌, Option, none,
  some, List, if◌then◌else◌, ltb, leb, ◌==◌, max, Memory, Ret, ok, arg_invalid, index_out_of_range,
  not_found, out_of_memory, uninited, Run, done, abort, out_of_fuel, ◌>>=◌, ◌>>◌, st_assert,
}

-- The sign of what a comparison function returns.
pub data Sign : Type 0 where
  below same above : Sign

-- `st_array_compare_f`
abbrev pub Compare : Type 0 → Type 0
Compare A = A → A → Sign

pub record StArray (A : Type 0) : Type 0 where
  pub slots : Memory A
  pub has_space : Bool
  pub element_size : ℕ
  pub current_cnt : ℕ
  pub total_cnt : ℕ
  pub dynamic : Bool
  pub compare : Option (Compare A)
  pub inited : Bool

-- `callback.realloc` on the block of the array and a number of bytes.
abbrev pub Realloc : Type 0 → Type 0
Realloc A = Memory A → ℕ → Option (Memory A)

abbrev pub min_size : ℕ
min_size = 64

module _ {A : Type 0} where
  abbrev pub is_empty : StArray A → Bool
  is_empty a = a.current_cnt == 0

  abbrev pub is_full : StArray A → Bool
  is_full a = a.current_cnt == a.total_cnt

  -- `memmove` of `n` elements inside a block, and `memcpy` of `n` elements from another.
  abbrev pub memmove : Memory A → (dst src n : ℕ) → Memory A
  memmove m dst src n j = if leb dst j && ltb j (dst + n) then m (src + (j - dst)) else m j

  abbrev pub memcpy : Memory A → (dst : ℕ) → Memory A → (n : ℕ) → Memory A
  memcpy m dst from n j = if leb dst j && ltb j (dst + n) then from (j - dst) else m j

  unfoldable pub init_static :
      (element_size : ℕ)
      → Option (Memory A)
      → (total_cnt : ℕ) → Option (Compare A)
      → Run (StArray A)
  init_static element_size none total_cnt compare = abort
  init_static element_size (some start_addr) total_cnt compare = do
    st_assert (ltb 0 total_cnt)
    done (record {
      slots = start_addr;
      has_space = true;
      element_size = element_size;
      current_cnt = 0;
      total_cnt = total_cnt;
      dynamic = false;
      compare = compare;
      inited = true;
    })

  -- The array after a call of `realloc` for `incr` more elements.
  abbrev pub extended : StArray A → (incr : ℕ) → Option (Memory A) → StArray A × Ret
  extended a incr none = (a, out_of_memory)
  extended a incr (some addr) =
      (record a { slots = addr; has_space = true; total_cnt = a.total_cnt + incr }, ok)

  unfoldable pub extend_when_needed : Realloc A → StArray A → (incr_cnt : ℕ) → StArray A × Ret
  extend_when_needed realloc a incr_cnt =
      if leb (a.current_cnt + incr_cnt) a.total_cnt
      then (a, ok)
      else (let incr = max incr_cnt min_size in
          let capacity = a.element_size * (a.total_cnt + incr) in
          extended a incr (realloc a.slots capacity))

  -- `inited` is set once the block is there, and left as it was otherwise.
  abbrev pub set_up : Ret → StArray A → Option (StArray A) × Ret
  set_up ok a = (some (record a { inited = true }), ok)
  set_up e a = (some a, e)

  -- The array before the first allocation has no block: `blank` is the memory that `realloc` is
  -- given for a null pointer. `valid` says that both callbacks are there.
  unfoldable pub init_dynamic :
      (valid : Bool)
      → Realloc A
      → (blank : Memory A) → (element_size : ℕ) → Option (Compare A)
      → Option (StArray A)
      → Option (StArray A) × Ret
  unfolding extend_when_needed
  init_dynamic valid realloc blank element_size compare none = (none, arg_invalid)
  init_dynamic valid realloc blank element_size compare (some old) =
      let fresh : StArray A = record {
        slots = blank;
        has_space = false;
        element_size = element_size;
        current_cnt = 0;
        total_cnt = 0;
        dynamic = true;
        compare = compare;
        inited = old.inited;
      } in
      if not valid
      then (some old, arg_invalid)
      else (let (a, ret) = extend_when_needed realloc fresh min_size in set_up ret a)

  -- The part of `st_array_insert_many` behind the argument checks.
  abbrev pub place : StArray A → (idx : ℕ) → Memory A → (cnt : ℕ) → StArray A × Ret
  place a idx elements cnt =
      if ltb a.total_cnt (a.current_cnt + cnt)
      then (a, out_of_memory)
      else (let moved =
            if ltb idx a.current_cnt
            then memmove a.slots (idx + cnt) idx (a.current_cnt - idx)
            else a.slots in
          (
            record a { slots = memcpy moved idx elements cnt; current_cnt = a.current_cnt + cnt },
            ok,
          ))

  -- Any code but `ST_OK` is returned at once.
  abbrev pub when_ok : Ret → StArray A × Ret → StArray A → Option (StArray A) × Ret
  when_ok ok (b, r) a = (some b, r)
  when_ok e r a = (some a, e)

  unfoldable pub insert_many :
      Realloc A
      → Option (StArray A)
      → (idx : ℕ) → Option (Memory A)
      → (cnt : ℕ) → Option (StArray A) × Ret
  unfolding extend_when_needed
  insert_many realloc none idx elements cnt = (none, arg_invalid)
  insert_many realloc (some a) idx none cnt =
      if not a.inited then (some a, uninited) else (some a, arg_invalid)
  insert_many realloc (some a) idx (some elements) cnt =
      if not a.inited
      then (some a, uninited)
      else if not (leb idx a.current_cnt)
      then (some a, index_out_of_range)
      else (let (a', ret) = if a.dynamic then extend_when_needed realloc a cnt else (a, ok) in
          when_ok ret (place a' idx elements cnt) a')

  unfoldable pub append_many :
      Realloc A → StArray A → Option (Memory A) → (cnt : ℕ) → Option (StArray A) × Ret
  unfolding insert_many
  append_many realloc a elements cnt = insert_many realloc (some a) a.current_cnt elements cnt

  unfoldable pub remove_many : Option (StArray A) → (idx cnt : ℕ) → Run (StArray A)
  remove_many none idx cnt = abort
  remove_many (some a) idx cnt = do
    st_assert a.inited
    st_assert (ltb idx a.current_cnt)
    let n = if ltb a.current_cnt (idx + cnt) then a.current_cnt - idx else cnt
    let moved =
        if not (idx + n == a.current_cnt)
        then memmove a.slots idx (idx + n) (a.current_cnt - (idx + n))
        else a.slots
    done (record a { slots = moved; current_cnt = a.current_cnt - n })

  -- The array after `memset` to zero, and whether the block was handed to `callback.free`.
  unfoldable pub destroy : Option (StArray A) → Run (StArray A × Bool)
  destroy none = abort
  destroy (some a) =
      if not a.inited
      then done (a, false)
      else done (
        record {
          slots = a.slots;
          has_space = false;
          element_size = 0;
          current_cnt = 0;
          total_cnt = 0;
          dynamic = false;
          compare = none;
          inited = false;
        },
        a.dynamic && a.has_space,
      )
