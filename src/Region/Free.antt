-- ===== src/Region/Free.antt =====
-- What `st_region_free_reg` releases, for every address.
use lua_sharedtable.Base.{
  ℕ, ◌+◌, ◌-◌, ◌*◌, ◌/◌, ◌%◌, ◌^◌, ◌<◌, ◌≡◌, ◌≢◌, refl, sym, ap, ◌∙◌, subst, fun_ext, true, false,
  not, ◌⊎◌, inl, inr, arith, Bool-cases, if◌then◌else◌, ltb, leb, ◌==◌, ==_iff, write, Option, none,
  some, Ret, ok, arg_invalid, out_of_range, errno, value,
}
use lua_sharedtable.Bits.{word32}
use lua_sharedtable.Region.{
  Region, RegionState, unset, free, busy, is_free, base_addr_by_idx, alloc_reg, free_reg, to_int,
  int_ge, state_at, set_free,
}
use lua_sharedtable.Region.Valid.{IsRegion, start, base_addr_by_idx-start}
use lua_sharedtable.Region.Alloc.{take, FirstFree, alloc_reg-AllocOutcome}
use native.Mathlib.Nat.{mod-eq_of_lt, div-eq_of_eq-mul_left}

-- The index that `st_region_free_reg` computes from an address.
abbrev pub index_of : Region → ℕ → Option ℕ
index_of r addr = to_int ((addr - r.base_addr) / r.reg_size)

to_int-small : (q : ℕ) → q < 2 ^ 31 → to_int q ≡ some q
to_int-small q h =
    let same : q % word32 ≡ q = mod-eq_of_lt {n = q} {m = word32} (omega (arith, h)) in
    let small : ltb q (2 ^ 31) ≡ true = ground arith in rw (same, small) refl

index_of-start : (r : Region) (i : ℕ) → IsRegion r → i < r.reg_cnt → index_of r (start r i) ≡ some i
index_of-start r i v h =
    let offset : (r.base_addr + i * r.reg_size - r.base_addr) / r.reg_size ≡ i =
      div-eq_of_eq-mul_left {n = r.reg_size} v.size_pos (omega arith) in
    rw offset (to_int-small i (omega (arith, h, v.cnt_le)))

abbrev pub release : Region → ℕ → Region
release r i = record r { states = write r.states i free }

-- On a valid table and the start of one of its regions, `st_region_free_reg` does nothing if that
-- region is free already; if `madvise` fails, it returns the code and changes nothing; otherwise
-- it makes that region free, and no other.
pub free_reg-start :
    (r : Region) (madvise i : ℕ)
    → IsRegion r
    → i < r.reg_cnt
    → free_reg madvise (some r) (start r i) ≡ (
        if is_free (r.states i)
        then (some r, ok)
        else if not (madvise == 0)
        then (some r, errno madvise)
        else (some (release r i), ok))
unfolding free_reg
free_reg-start r madvise i v h =
    let no_null : (start r i == 0) ≡ false = ground (arith, v.base_pos) in
    let above : ltb (start r i) r.base_addr ≡ false = ground arith in
    let inside : leb r.reg_cnt i ≡ false = ground arith in
    let own : (start r i == start r i) ≡ true = ground arith in
    rw (no_null, above, index_of-start r i v h, inside, base_addr_by_idx-start r i v h, own) refl

abbrev pub Refused : Region → Option Region × Ret → Type 0
Refused r result = (result ≡ (some r, arg_invalid)) ⊎ (result ≡ (some r, out_of_range))

-- The checks that come after the index.
abbrev pub after_index : (madvise : ℕ) → Region → ℕ → Option ℕ → Option Region × Ret
after_index madvise r addr idx =
    if int_ge idx r.reg_cnt
    then (some r, out_of_range)
    else if not (base_addr_by_idx (some r) idx == addr)
    then (some r, arg_invalid)
    else if is_free (state_at r idx)
    then (some r, ok)
    else if not (madvise == 0)
    then (some r, errno madvise)
    else (some (set_free r idx), ok)

after_index-Refused :
    (r : Region) (madvise addr : ℕ) (idx : Option ℕ)
    → IsRegion r
    → 0 < addr
    → ((i : ℕ) → i < r.reg_cnt → addr ≢ start r i)
    → Refused r (after_index madvise r addr idx)
unfolding base_addr_by_idx
after_index-Refused r madvise addr none v pos no_start =
    let other : (0 == addr) ≡ false = ground arith in inl (rw other refl)
after_index-Refused r madvise addr (some i) v pos no_start = elim (Bool-cases (leb r.reg_cnt i)) [
  | inl big ↦ inr (rw big refl)
  | inr small ↦
      let within : i < r.reg_cnt = ground arith in
      let other : (start r i == addr) ≡ false = ground (arith, no_start i within) in
      inl (rw (small, base_addr_by_idx-start r i v within, other) refl)
]

-- On a valid table and an address that is not the start of one of its regions,
-- `st_region_free_reg` changes nothing and returns `ST_ARG_INVALID` or `ST_OUT_OF_RANGE`.
pub free_reg-Refused :
    (r : Region) (madvise addr : ℕ)
    → IsRegion r
    → ((i : ℕ) → i < r.reg_cnt → addr ≢ start r i)
    → Refused r (free_reg madvise (some r) addr)
unfolding free_reg
free_reg-Refused r madvise addr v no_start = elim (Bool-cases (addr == 0)) [
  | inl null ↦ inl (rw null refl)
  | inr real ↦ elim (Bool-cases (ltb addr r.base_addr)) [
    | inl low ↦ inl (rw (real, low) refl)
    | inr high ↦
        let checks : free_reg madvise (some r) addr ≡ after_index madvise r addr (index_of r addr) =
          rw (real, high) refl in
        subst (Refused r) (sym checks)
          (after_index-Refused r madvise addr (index_of r addr) v (ground arith) no_start)
  ]
]

free-is : (s : RegionState) → is_free s ≡ true → s ≡ free
free-is free h = refl
free-is unset h = cc
free-is busy h = cc

write-undo :
    {A : Type 0} (m : ℕ → A) (k : ℕ) (new old : A) → m k ≡ old → write (write m k new) k old ≡ m
write-undo m k new old h = fun_ext λ j. elim (Bool-cases (j == k)) [
  | inl here ↦ rw here (sym h ∙ ap m (sym ((==_iff j k).0 here)))
  | inr there ↦ rw there refl
]

take-IsRegion : (r : Region) (k : ℕ) → IsRegion r → IsRegion (take r k)
take-IsRegion r k v = record {
  base_pos = v.base_pos;
  size_pos = v.size_pos;
  cnt_le = v.cnt_le;
  in_memory = v.in_memory;
}

free_reg-take :
    (r : Region) (k : ℕ)
    → IsRegion r
    → FirstFree r 0 k
    → free_reg 0 (some (take r k)) (start r k) ≡ (some r, ok)
free_reg-take r k v first =
    let own : (k == k) ≡ true = ground arith in
    let undone : write (write r.states k busy) k free ≡ r.states =
      write-undo r.states k busy free (free-is (r.states k) first.is_free_there) in
    free_reg-start (take r k) 0 k (take-IsRegion r k v) first.within
    ∙ rw own (ap (λ x. (some (record r { states = x }), ok)) undone)

-- On a valid table, a block that `st_region_alloc_reg` returned and that is freed at once, with a
-- `madvise` that succeeds, leaves the table as it was before both.
pub free_reg-alloc_reg :
    (r r' : Region) (addr : ℕ)
    → IsRegion r
    → alloc_reg (some r) false ≡ (some r', value addr)
    → free_reg 0 (some r') addr ≡ (some r, ok)
free_reg-alloc_reg r r' addr v ran = elim (alloc_reg-AllocOutcome r v) [
  | inl (k, first, took) ↦
      let same_table : take r k ≡ r' = cc in
      let same_addr : start r k ≡ addr = cc in
      subst (λ x. free_reg 0 (some x) addr ≡ (some r, ok)) same_table
        (subst (λ x. free_reg 0 (some (take r k)) x ≡ (some r, ok)) same_addr
          (free_reg-take r k v first))
  | inr (none_free, failed_so) ↦ cc
]
