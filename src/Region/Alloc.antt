-- ===== src/Region/Alloc.antt =====
-- What `st_region_alloc_reg` hands out, in every state of the table.
use lua_sharedtable.Base.{
  ℕ, zero, suc, ◌+◌, ◌*◌, ◌≤◌, ◌<◌, ◌≡◌, ◌≢◌, refl, sym, ap, ◌∙◌, subst, true, false, ◌⊎◌, inl, inr,
  arith, Bool-cases, ltb, ◌==◌, ==_iff, write, Option, some, out_of_memory, Result, value, failed,
}
use lua_sharedtable.Region.{Region, busy, is_free, base_addr_by_idx, alloc_loop, alloc_reg}
use lua_sharedtable.Region.Valid.{
  IsRegion, start, start_apart, start_inside, base_addr_by_idx-start,
}

-- The first free place of those at `from` and after it.
pub record FirstFree (r : Region) (from k : ℕ) : Type 0 where
  pub above : from ≤ k
  pub within : k < r.reg_cnt
  pub is_free_there : is_free (r.states k) ≡ true
  pub before : (i : ℕ) → from ≤ i → i < k → is_free (r.states i) ≡ false

abbrev pub take : Region → ℕ → Region
take r k = record r { states = write r.states k busy }

-- The two outcomes of the search from `from`.
abbrev pub AllocOutcome : Region → ℕ → Option Region × Result ℕ → Type 0
AllocOutcome r from result =
    ((k : ℕ) × FirstFree r from k × (result ≡ (some (take r k), value (start r k))))
    ⊎ (((i : ℕ) → from ≤ i → i < r.reg_cnt → is_free (r.states i) ≡ false)
        × (result ≡ (some r, failed out_of_memory)))

alloc_loop-free :
    (r : Region) (left idx : ℕ)
    → is_free (r.states idx) ≡ true
    → alloc_loop r (suc left) idx
      ≡ (some (take r idx), value (base_addr_by_idx (some r) (some idx)))
unfolding alloc_loop
alloc_loop-free r left idx h = rw (h, alloc_loop)

alloc_loop-taken :
    (r : Region) (left idx : ℕ)
    → is_free (r.states idx) ≡ false
    → alloc_loop r (suc left) idx ≡ alloc_loop r left (idx + 1)
unfolding alloc_loop
alloc_loop-taken r left idx h = rw (h, alloc_loop)

-- A place that is not free joins those behind it.
from_here :
    (r : Region) (idx n : ℕ)
    → is_free (r.states idx) ≡ false
    → ((i : ℕ) → idx + 1 ≤ i → i < n → is_free (r.states i) ≡ false)
    → (i : ℕ) → idx ≤ i
    → i < n
    → is_free (r.states i) ≡ false
from_here r idx n taken behind i ge lt = elim (Bool-cases (idx == i)) [
  | inl eq ↦ ap (λ x. is_free (r.states x)) (omega (arith, (==_iff idx i).0 eq)) ∙ taken
  | inr ne ↦ behind i (ground arith) lt
]

later :
    (r : Region) (idx : ℕ) (result : Option Region × Result ℕ)
    → is_free (r.states idx) ≡ false
    → AllocOutcome r (idx + 1) result
    → AllocOutcome r idx result
later r idx result taken (inl (k, first, ran)) = inl (
  k,
  record {
    above = omega (arith, first.above);
    within = first.within;
    is_free_there = first.is_free_there;
    before = from_here r idx k taken first.before;
  },
  ran,
)
later r idx result taken (inr (no_free, ran)) = inr (from_here r idx r.reg_cnt taken no_free, ran)

alloc_loop-Outcome :
    (r : Region) (left idx : ℕ)
    → IsRegion r
    → idx + left ≡ r.reg_cnt
    → AllocOutcome r idx (alloc_loop r left idx)
unfolding alloc_loop
alloc_loop-Outcome r zero idx v h = inr ((λ i ge lt. ground arith), refl)
alloc_loop-Outcome r (suc left) idx v h = elim (Bool-cases (is_free (r.states idx))) [
  | inl found ↦ inl (
    idx,
    record {
      above = ground arith;
      within = omega (arith, h);
      is_free_there = found;
      before = λ i ge lt. ground arith;
    },
    alloc_loop-free r left idx found
        ∙ ap (λ a. (some (take r idx), value a))
            (base_addr_by_idx-start r idx v (omega (arith, h))),
  )
  | inr taken ↦ subst (AllocOutcome r idx) (sym (alloc_loop-taken r left idx taken)) (
      later r idx (alloc_loop r left (idx + 1)) taken
        (alloc_loop-Outcome r left (idx + 1) v (omega (arith, h))))
]

-- On a valid table `st_region_alloc_reg` marks the first free region busy, changes nothing else
-- and returns the start of that region, or, exactly if no region is free, reports that the memory
-- is exhausted and leaves the table alone.
pub alloc_reg-AllocOutcome : (r : Region) → IsRegion r → AllocOutcome r 0 (alloc_reg (some r) false)
unfolding alloc_reg
alloc_reg-AllocOutcome r v = alloc_loop-Outcome r r.reg_cnt 0 v (omega arith)

-- Two blocks of `size` bytes that do not overlap.
abbrev pub Apart : (size a b : ℕ) → Type 0
Apart size a b = (a + size ≤ b) ⊎ (b + size ≤ a)

starts-Apart : (r : Region) (i j : ℕ) → i ≢ j → Apart r.reg_size (start r i) (start r j)
starts-Apart r i j ne = elim (Bool-cases (ltb i j)) [
  | inl lt ↦ inl (start_apart r i j (ground arith))
  | inr ge ↦ inr (start_apart r j i (ground arith))
]

free_not_busy : (r : Region) (k i : ℕ) → is_free (r.states k) ≡ true → r.states i ≡ busy → k ≢ i
free_not_busy r k i found taken same =
    let clash : is_free (r.states k) ≡ false =
      ap (λ x. is_free (r.states x)) same ∙ ap is_free taken in
    cc

-- What `st_region_alloc_reg` returns on a valid table is a block inside the mapping that overlaps
-- no region that was busy when it was called.
pub alloc_reg-Apart :
    (r r' : Region) (addr : ℕ)
    → IsRegion r
    → alloc_reg (some r) false ≡ (some r', value addr)
    → (r.base_addr ≤ addr)
      × (addr + r.reg_size ≤ r.base_addr + r.reg_cnt * r.reg_size)
      × ((i : ℕ) → r.states i ≡ busy → Apart r.reg_size addr (start r i))
alloc_reg-Apart r r' addr v ran = elim (alloc_reg-AllocOutcome r v) [
  | inl (k, first, took) ↦
      let at : start r k ≡ addr = cc in
      (
        omega (arith, at),
        omega (arith, at, start_inside r k first.within),
        λ i taken.
            subst (λ x. Apart r.reg_size x (start r i)) at
              (starts-Apart r k i (free_not_busy r k i first.is_free_there taken)),
      )
  | inr (none_free, failed_so) ↦ cc
]
