-- ===== src/Region/Tests.antt =====
-- Runs of the functions of src/region/region.c on a table of three regions.
use lua_sharedtable.Base.{
  ℕ, zero, suc, ◌+◌, ◌*◌, ◌<◌, ◌≤◌, ◌≡◌, refl, true, false, not, if◌then◌else◌, ◌==◌, arith, Memory,
  some, ok, errno, value,
}
use lua_sharedtable.Region.{
  Region, RegionState, unset, free, busy, is_free, init, alloc_reg, alloc_loop, base_addr_by_idx,
  free_reg,
}
use lua_sharedtable.Region.Valid.{IsRegion, start, init-IsRegion}
use lua_sharedtable.Region.Alloc.{
  AllocOutcome, Apart, take, alloc_reg-AllocOutcome, alloc_reg-Apart,
}
use lua_sharedtable.Region.Free.{
  Refused, release, free_reg-start, free_reg-Refused, free_reg-alloc_reg,
}

abbrev first_busy : Memory RegionState
first_busy zero = busy
first_busy (suc i) = free

abbrev table : Region
table = record {
  base_addr = 8192;
  page_size = 4096;
  reg_cnt = 3;
  reg_size = 4096;
  states = first_busy;
  use_lock = false;
}

table-IsRegion : IsRegion table
table-IsRegion = record {
  base_pos = omega arith;
  size_pos = omega arith;
  cnt_le = omega arith;
  in_memory = omega arith;
}

takes_the_second : alloc_reg (some table) false ≡ (some (take table 1), value 12288)
unfolding alloc_reg alloc_loop base_addr_by_idx
takes_the_second = refl

alloc_reg-AllocOutcome_example : AllocOutcome table 0 (alloc_reg (some table) false)
alloc_reg-AllocOutcome_example = alloc_reg-AllocOutcome table table-IsRegion

alloc_reg-Apart_example :
    (8192 ≤ 12288)
    × (12288 + 4096 ≤ 8192 + 3 * 4096)
    × ((i : ℕ) → table.states i ≡ busy → Apart 4096 12288 (start table i))
alloc_reg-Apart_example = alloc_reg-Apart table (take table 1) 12288 table-IsRegion takes_the_second

free_reg-alloc_reg_example : free_reg 0 (some (take table 1)) 12288 ≡ (some table, ok)
free_reg-alloc_reg_example =
    free_reg-alloc_reg table (take table 1) 12288 table-IsRegion takes_the_second

free_reg-start_example : free_reg 22 (some table) 8192 ≡ (
    if is_free busy
    then (some table, ok)
    else if not (22 == 0)
    then (some table, errno 22)
    else (some (release table 0), ok))
free_reg-start_example = free_reg-start table 22 0 table-IsRegion (omega arith)

free_reg-Refused_example : Refused table (free_reg 0 (some table) 8193)
free_reg-Refused_example = free_reg-Refused table 0 8193 table-IsRegion (λ i h. ground (arith, h))

init-IsRegion_example :
    (r : Region) × (init 4096 0 (some table) 8192 2 3 true ≡ (some r, ok))
    × IsRegion r
    × (r.base_addr ≡ 8192)
    × (r.page_size ≡ 4096)
    × (r.reg_size ≡ 8192)
    × (r.reg_cnt ≡ 3)
    × (r.use_lock ≡ true)
    × ((i : ℕ) → i < 3 → r.states i ≡ free)
    × ((i : ℕ) → 3 ≤ i → r.states i ≡ unset)
init-IsRegion_example =
    init-IsRegion 4096 table 8192 2 3 true (omega arith) (omega arith) (omega arith) (omega arith)
      (omega arith)
