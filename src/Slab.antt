-- ===== src/Slab.antt =====
-- src/slab/slab.c and slab.h: the choice of the group for the size of an object, with `st_bit_msb` of
-- src/inc/bit.h.
pub mod Index
mod Tests
use lua_sharedtable.Base.{
  ℕ, zero, suc, ◌+◌, ◌-◌, ◌/◌, ◌^◌, Bool, true, false, not, if◌then◌else◌, ltb, leb, ◌==◌,
  arg_invalid, Result, value, failed,
}

abbrev pub obj_size_min_shift : ℕ
obj_size_min_shift = 3

abbrev pub obj_size_max_shift : ℕ
obj_size_max_shift = 11

abbrev pub group_cnt : ℕ
group_cnt = obj_size_max_shift + 2

-- The place of the highest set bit of a positive integer, by halvings; `left` bounds their number.
unfoldable pub msb_loop : (left n : ℕ) → ℕ
msb_loop zero n = 0
msb_loop (suc left) n = let rest = msb_loop left (n / 2) in if n / 2 == 0 then 0 else rest + 1

-- `st_bit_msb` of a positive `uint64_t`
abbrev pub msb : ℕ → ℕ
msb n = msb_loop 64 n

unfoldable pub size_to_index : (size : ℕ) → Result ℕ
unfolding msb_loop
size_to_index size =
    if not (ltb 0 size)
    then failed arg_invalid
    else if leb size (2 ^ obj_size_min_shift)
    then value obj_size_min_shift
    else if ltb (2 ^ obj_size_max_shift) size
    then value (group_cnt - 1)
    else value (msb (size - 1) + 1)
