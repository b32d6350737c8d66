-- ===== src/Binary/Size.antt =====
-- `bin_vu64_size`: the number of groups.
use lua_sharedtable.Base.{
  ℕ, zero, suc, ◌+◌, ◌/◌, ◌≤◌, ◌<◌, ◌≡◌, ◌≢◌, refl, ap, ◌∙◌, inl, inr, arith, ◌==◌, ltb, Bool-cases,
  done,
}
use lua_sharedtable.Bits.{shr64, word64}
use lua_sharedtable.Binary.{size_loop, vu64_size}
use lua_sharedtable.Binary.Bytes.{scale, scale-suc, scale_mono}

-- `x` has `m + 1` groups: it fits them, and it does not fit fewer.
pub record IsWidth (x m : ℕ) : Type 0 where
  pub fits : x < scale (suc m)
  pub needs : m ≢ 0 → scale m ≤ x

IsWidth-suc : (x m : ℕ) → x / 128 ≢ 0 → IsWidth (x / 128) m → IsWidth x (suc m)
IsWidth-suc x zero h w = record {
  fits = omega (arith, w.fits, scale-suc 1);
  needs = λ _. omega arith;
}
IsWidth-suc x (suc m) h w = record {
  fits = omega (arith, w.fits, scale-suc (suc (suc m)));
  needs = λ _. omega (arith, w.needs (omega arith), scale-suc (suc m));
}

fuel_left : (fuel x : ℕ) → x < scale (suc fuel) → x / 128 ≢ 0 → 0 < fuel
fuel_left zero x h high = absurd (high (omega arith))
fuel_left (suc fuel) x h high = omega arith

size_loop-IsWidth :
    (fuel l x : ℕ)
    → 0 < fuel
    → x < scale fuel
    → (m : ℕ) × (size_loop fuel l x ≡ done (l + suc m)) × IsWidth x m
unfolding size_loop
size_loop-IsWidth zero l x pos h = absurd (omega arith)
size_loop-IsWidth (suc fuel) l x pos h = elim (Bool-cases (shr64 x 7 == 0)) [
  | inl last ↦ (
    0,
    rw last (ap done (omega arith)),
    record { fits = ground arith; needs = λ h. absurd (h refl) },
  )
  | inr more ↦
      let high : x / 128 ≢ 0 = ground arith in
      let (m, ran, w) =
        size_loop-IsWidth fuel (l + 1) (x / 128) (fuel_left fuel x h high)
          (omega (arith, scale-suc fuel)) in
      (suc m, rw more (ran ∙ ap done (omega arith)), IsWidth-suc x m high w)
]

-- For an integer of 64 bits, `bin_vu64_size` terminates and returns the number of seven-bit
-- groups that the integer needs, at most ten.
pub vu64_size-IsWidth :
    (x : ℕ) → x < word64 → (m : ℕ) × (vu64_size x ≡ done (suc m)) × IsWidth x m × (m < 10)
unfolding vu64_size
vu64_size-IsWidth x small =
    let (m, ran, w) = size_loop-IsWidth 10 0 x (omega arith) (omega arith) in
    (m, ran ∙ ap done (omega arith), w, ten m w)
  where
    ten : (m : ℕ) → IsWidth x m → m < 10
    ten m w = elim (Bool-cases (ltb m 10)) [
      | inl below ↦ ground arith
      | inr above ↦ absurd (ground (arith, w.needs, scale_mono 10 m))
    ]
