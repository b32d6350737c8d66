-- ===== src/Region/Valid.antt =====
-- The invariant of the control block, established by `st_region_init`.
use native.Mathlib.Nat.{mod-eq_of_lt}
use lua_sharedtable.Base.{
  ℕ, zero, suc, ◌+◌, ◌*◌, ◌≤◌, ◌<◌, ◌≡◌, refl, ◌∙◌, Bool, true, false, not, ◌&&◌, arith,
  if◌then◌else◌, ltb, leb, ◌==◌, Memory, write, some, ok, passed,
}
use lua_sharedtable.Bits.{word64}
use lua_sharedtable.Region.{
  Region, RegionState, unset, free, max_num, mark_free, init, base_addr_by_idx,
}

-- The regions are not empty and lie in the address space, above the null pointer.
pub record IsRegion (r : Region) : Type 0 where
  pub base_pos : 0 < r.base_addr
  pub size_pos : 0 < r.reg_size
  pub cnt_le : r.reg_cnt ≤ max_num
  pub in_memory : r.base_addr + r.reg_cnt * r.reg_size ≤ word64

abbrev pub start : Region → ℕ → ℕ
start r i = r.base_addr + i * r.reg_size

-- Two places in the table: the one before ends where, or before, the other starts.
pub start_apart : (r : Region) (i j : ℕ) → i < j → start r i + r.reg_size ≤ start r j
start_apart r i j h = grind arith

pub start_inside :
    (r : Region) (i : ℕ)
    → i < r.reg_cnt
    → start r i + r.reg_size ≤ r.base_addr + r.reg_cnt * r.reg_size
start_inside r i h = grind arith

pub base_addr_by_idx-start :
    (r : Region) (i : ℕ)
    → IsRegion r
    → i < r.reg_cnt
    → base_addr_by_idx (some r) (some i) ≡ start r i
unfolding base_addr_by_idx
base_addr_by_idx-start r i v h =
    passed (ltb i r.reg_cnt) 0 _ (ground arith)
    ∙ mod-eq_of_lt {n = start r i} {m = word64}
        (omega (arith, start_inside r i h, v.size_pos, v.in_memory))

mark_free-free :
    (left idx : ℕ) (states : Memory RegionState) (j : ℕ)
    → mark_free left idx states j ≡ (if leb idx j && ltb j (idx + left) then free else states j)
unfolding mark_free
mark_free-free zero idx states j =
    let outside : (leb idx j && ltb j (idx + 0)) ≡ false = ground arith in rw outside
mark_free-free (suc left) idx states j =
    mark_free-free left (idx + 1) (write states idx free) j ∙ ground arith

-- For a base address, a number of regions from 1 to 1024 and regions that are not empty and end
-- in the address space, and with a lock that can be initialised, `st_region_init` succeeds with a
-- valid table that holds the address, the number, the page size, the size of a region in bytes
-- and the use of the lock as given, and whose regions are all free.
pub init-IsRegion :
    (page_size : ℕ) (old : Region) (base_addr pages_per_reg reg_cnt : ℕ) (use_lock : Bool)
    → 0 < base_addr
    → 0 < reg_cnt
    → reg_cnt ≤ max_num
    → 0 < page_size * pages_per_reg
    → base_addr + reg_cnt * (page_size * pages_per_reg) ≤ word64
    → (r : Region) × (init page_size 0 (some old) base_addr pages_per_reg reg_cnt use_lock
        ≡ (some r, ok))
      × IsRegion r
      × (r.base_addr ≡ base_addr)
      × (r.page_size ≡ page_size)
      × (r.reg_size ≡ page_size * pages_per_reg)
      × (r.reg_cnt ≡ reg_cnt)
      × (r.use_lock ≡ use_lock)
      × ((i : ℕ) → i < reg_cnt → r.states i ≡ free)
      × ((i : ℕ) → reg_cnt ≤ i → r.states i ≡ unset)
unfolding init
init-IsRegion page_size old base_addr pages_per_reg reg_cnt use_lock hb hc hm hs hmem =
    let no_null : (base_addr == 0) ≡ false = ground arith in
    let no_zero : (reg_cnt == 0) ≡ false = ground arith in
    let fits : leb reg_cnt max_num ≡ true = ground arith in
    (
      record {
        base_addr = base_addr;
        page_size = page_size;
        reg_cnt = reg_cnt;
        reg_size = page_size * pages_per_reg;
        states = mark_free reg_cnt 0 (λ idx. unset);
        use_lock = use_lock;
      },
      rw (no_null, no_zero, fits) (locked _ _ use_lock),
      record { base_pos = hb; size_pos = hs; cnt_le = hm; in_memory = hmem },
      refl,
      refl,
      refl,
      refl,
      refl,
      (λ i h. mark_free-free reg_cnt 0 (λ idx. unset) i ∙ ground arith),
      λ i h. mark_free-free reg_cnt 0 (λ idx. unset) i ∙ ground arith,
    )
  where
    locked : {A : Type 0} (x y : A) (b : Bool) → (if b && not (0 == 0) then x else y) ≡ y
    locked x y true = refl
    locked x y false = refl
