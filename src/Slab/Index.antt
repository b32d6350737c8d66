-- ===== src/Slab/Index.antt =====
-- The index that `st_slab_size_to_index` returns is that of the smallest objects that are large
-- enough.
use native.Mathlib.Nat.{pow-suc, pow-le-pow_right}
use lua_sharedtable.Base.{
  ℕ, zero, suc, sym, ap, subst, ◌-◌, ◌/◌, ◌^◌, ◌≤◌, ◌<◌, ◌≡◌, refl, arith, true, false, inl, inr,
  Bool-cases, ltb, leb, ◌==◌, value,
}
use lua_sharedtable.Slab.{msb_loop, msb, size_to_index}

-- `2 ^ m` is the greatest power of two that is not above `n`.
abbrev Bounds : (n m : ℕ) → Type 0
Bounds n m = (2 ^ m ≤ n) × (n < 2 ^ suc m)

msb_loop-one : (left n : ℕ) → (n / 2 == 0) ≡ true → msb_loop (suc left) n ≡ 0
unfolding msb_loop
msb_loop-one left n h = rw h refl

msb_loop-more :
    (left n : ℕ) → (n / 2 == 0) ≡ false → msb_loop (suc left) n ≡ suc (msb_loop left (n / 2))
unfolding msb_loop
msb_loop-more left n h = rw h (omega arith)

Bounds-double : (n m : ℕ) → Bounds (n / 2) m → Bounds n (suc m)
Bounds-double n m (lo, hi) = (omega (arith, lo, pow-suc 2 m), omega (arith, hi, pow-suc 2 (suc m)))

msb_loop-Bounds : (left n : ℕ) → 0 < n → n < 2 ^ left → Bounds n (msb_loop left n)
msb_loop-Bounds zero n pos small = absurd (omega (arith, pos, small))
msb_loop-Bounds (suc left) n pos small = elim (Bool-cases (n / 2 == 0)) [
  | inl one ↦ subst (Bounds n) (sym (msb_loop-one left n one)) (omega (arith, pos), ground arith)
  | inr more ↦ subst (Bounds n) (sym (msb_loop-more left n more)) (
      Bounds-double n (msb_loop left (n / 2))
        (msb_loop-Bounds left (n / 2) (ground arith) (omega (arith, small, pow-suc 2 left))))
]

-- What the index of a group says of a size.
pub record FitsGroup (size i : ℕ) : Type 0 where
  pub lower : 3 ≤ i
  pub upper : i ≤ 12
  pub large_enough : size ≤ 2048 → size ≤ 2 ^ i
  pub smallest : 3 < i → 2 ^ (i - 1) < size
  pub huge : 2048 < size → i ≡ 12
  pub not_huge : size ≤ 2048 → i ≤ 11

Bounds-FitsGroup :
    (size m : ℕ) → 8 < size → size ≤ 2048 → Bounds (size - 1) m → FitsGroup size (suc m)
Bounds-FitsGroup size m big small (lo, hi) =
    let above_two : 3 ≤ suc m = elim (Bool-cases (leb 3 (suc m))) [
      | inl fits ↦ ground arith
      | inr low ↦ absurd (
          omega (
            arith,
            hi,
            big,
            pow-le-pow_right {n = 2} (omega arith) {i = suc m} {j = 3} (ground arith),
          ))
    ] in
    let below_eleven : m ≤ 10 = elim (Bool-cases (leb m 10)) [
      | inl fits ↦ ground arith
      | inr high ↦ absurd (
          omega (
            arith,
            lo,
            small,
            big,
            pow-le-pow_right {n = 2} (omega arith) {i = 11} {j = m} (ground arith),
          ))
    ] in
    record {
      lower = above_two;
      upper = omega (arith, below_eleven);
      large_enough = λ h. omega (arith, hi);
      smallest = λ h. let at : suc m - 1 ≡ m = omega arith in rw at (omega (arith, lo, big));
      huge = λ h. absurd (omega (arith, h, small));
      not_huge = λ h. omega (arith, below_eleven);
    }

-- For every positive size `st_slab_size_to_index` returns an index from 3 to 12: up to 2048 bytes, that of the
-- smallest power of two, from 8 on, that the size does not exceed, and above that the last one.
pub size_to_index-FitsGroup :
    (size : ℕ) → 0 < size → (i : ℕ) × (size_to_index size ≡ value i) × FitsGroup size i
unfolding size_to_index
size_to_index-FitsGroup size pos =
    let real : ltb 0 size ≡ true = ground arith in
    elim (Bool-cases (leb size 8)) [
      | inl small ↦ (
        3,
        rw (real, small) refl,
        record {
          lower = omega arith;
          upper = omega arith;
          large_enough = λ h. ground arith;
          smallest = λ h. absurd (omega (arith, h));
          huge = λ h. absurd (ground (arith, h));
          not_huge = λ h. omega arith;
        },
      )
      | inr medium ↦ elim (Bool-cases (ltb 2048 size)) [
        | inl large ↦ (
          12,
          rw (real, medium, large) refl,
          record {
            lower = omega arith;
            upper = omega arith;
            large_enough = λ h. absurd (ground (arith, h));
            smallest = λ h. ground arith;
            huge = λ h. refl;
            not_huge = λ h. absurd (ground (arith, h));
          },
        )
        | inr normal ↦
            let le : size ≤ 2048 = ground arith in
            let big : 8 < size = ground arith in
            let bounds = msb_loop-Bounds 64 (size - 1) (omega (arith, big)) (omega (arith, le)) in
            (
              suc (msb (size - 1)),
              rw (real, medium, normal) (ap value (omega arith)),
              Bounds-FitsGroup size (msb (size - 1)) big le bounds,
            )
      ]
    ]
