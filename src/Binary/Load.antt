-- ===== src/Binary/Load.antt =====
-- `bin_vu64_load`: what it reads from any bytes, and the round trip with `bin_vu64_put`.
use native.Mathlib.Nat.{mod-eq_of_lt}
use lua_sharedtable.Base.{
  ℕ, zero, suc, ◌+◌, ◌*◌, ◌%◌, ◌≤◌, ◌<◌, ◌≡◌, refl, ap, ◌∙◌, Bool, true, false, ◌&&◌, ◌||◌, inl,
  inr, arith, ◌==◌, ltb, leb, if◌then◌else◌, Bool-cases, Result, Memory, value, failed,
  num_overflow, buf_not_enough,
}
use lua_sharedtable.Bits.{word64, bit_and, bit_or, shl64}
use lua_sharedtable.Bits.Extent.{bit_or-add}
use lua_sharedtable.Binary.{IsBytes, shifted, after_loop, load_loop, vu64_load, vu64_put}
use lua_sharedtable.Binary.Bytes.{scale, scale_mono, groups, groups-lt, groups-mod, group, byte_low}
use lua_sharedtable.Binary.Size.{IsWidth}
use lua_sharedtable.Binary.Put.{IsEncoding, vu64_put-IsEncoding}

abbrev Loaded : Type 0
Loaded = Result (ℕ × ℕ)

abbrev pub unless : Bool → Loaded → Loaded
unless true r = failed num_overflow
unless false r = r

-- The last byte, at `i`, holds bits past the 64th.
abbrev pub overflows : ℕ → ℕ → Bool
overflows i b = ltb 9 i || ((i == 9) && ltb 1 b)

-- There are more than ten groups, or the integer that they hold has more than 64 bits.
abbrev pub too_large : Memory ℕ → (n : ℕ) → Bool
too_large buf n = ltb 9 n || leb word64 (groups buf (suc n))

unless-if : (b : Bool) (r : Loaded) → unless b r ≡ (if b then failed num_overflow else r)
unless-if true r = refl
unless-if false r = refl

-- A group that does not overflow stays below 2 ^ 64 at its place.
scaled-le : (n m b c : ℕ) → b ≤ c → n ≤ m → b * scale n ≤ c * scale m
scaled-le n m b c p q = grind (arith, scale_mono n m q)

fits64 : (n b : ℕ) → b < 128 → overflows n b ≡ false → (n ≤ 9) × (b * scale n < word64)
fits64 n b h none_over = elim (Bool-cases (n == 9)) [
  | inl nine ↦ (ground arith, omega (arith, scaled-le n 9 b 1 (ground arith) (ground arith)))
  | inr other ↦ (ground arith, omega (arith, scaled-le n 8 b 127 (omega arith) (ground arith)))
]

module _ (undefined_shl : ℕ → ℕ → ℕ) (buf : Memory ℕ) where
  -- Below 64 bits, the next group is added above those that are read.
  add_group :
      (i b shift : ℕ)
      → shift ≡ 7 * i
      → i ≤ 9
      → b * scale i < word64
      → bit_or (groups buf i) (shifted undefined_shl b shift) ≡ groups buf i + b * scale i
  unfolding shifted
  add_group i b shift e le fits =
      let small : ltb shift 64 ≡ true = ground arith in
      rw (small, e, shl64, mod-eq_of_lt fits)
        (bit_or-add (7 * i) (groups buf i) b (groups-lt buf i))

  load_loop-short :
      (left i x shift : ℕ)
      → ((k : ℕ) → i ≤ k → k < i + left → 128 ≤ buf k)
      → (r : ℕ) × (load_loop undefined_shl buf left i x shift ≡ value (i + left, r))
  unfolding load_loop
  load_loop-short zero i x shift marked = (x, ap (λ k. value (k, x)) (omega arith))
  load_loop-short (suc left) i x shift marked =
      let go_on : ltb (buf i) 128 ≡ false = ground (arith, marked i) in
      let (r, ran) =
        load_loop-short left (i + 1) (bit_or x (shifted undefined_shl (bit_and (buf i) 0x7f) shift))
          (shift + 7) (λ k p q. marked k (omega arith) (omega arith)) in
      (r, rw (go_on, load_loop) (ran ∙ ap (λ k. value (k, r)) (omega arith)))

  module _ (bytes : IsBytes buf) (n : ℕ) (ends : buf n < 128)
      (marked : (k : ℕ) → k < n → 128 ≤ buf k) where
    last_group :
        (x shift : ℕ)
        → overflows n (buf n) ≡ false
        → shift ≡ 7 * n
        → (n ≤ 9 → x ≡ groups buf n)
        → bit_or x (shifted undefined_shl (buf n) shift) ≡ groups buf (suc n)
    unfolding groups
    last_group x shift fine es holds =
        let (le, fits) = fits64 n (buf n) ends fine in
        let low : buf n % 128 ≡ buf n = omega arith in
        rw (holds le, low) (add_group n (buf n) shift es le fits)

    next_group :
        (i x shift : ℕ)
        → i < n
        → shift ≡ 7 * i
        → (i ≤ 9 → x ≡ groups buf i)
        → i + 1 ≤ 9
        → bit_or x (shifted undefined_shl (bit_and (buf i) 0x7f) shift) ≡ groups buf (i + 1)
    unfolding groups
    next_group i x shift lt es holds le =
        let fits : (i ≤ 9) × (buf i % 128 * scale i < word64) =
          fits64 i (buf i % 128) (omega arith) (ground arith) in
        let next : i + 1 ≡ suc i = omega arith in
        rw (holds (omega arith), byte_low (buf i) (bytes i), next)
          (add_group i (buf i % 128) shift es fits.0 fits.1)

    -- `x` holds the groups before `i`, as long as 64 bits can hold them.
    load_loop-groups :
        (d left i x shift : ℕ)
        → i + d ≡ n
        → d < left
        → shift ≡ 7 * i
        → (i ≤ 9 → x ≡ groups buf i)
        → load_loop undefined_shl buf left i x shift
          ≡ unless (overflows n (buf n)) (value (n, groups buf (suc n)))
    unfolding load_loop
    load_loop-groups d zero i x shift e p es holds = absurd (omega arith)
    load_loop-groups zero (suc left) i x shift e p es holds =
        let here : i ≡ n = omega arith in
        let stop : ltb (buf n) 128 ≡ true = ground arith in
        rw (here, stop, load_loop, here)
          (last left x shift (omega arith) (λ le. holds (omega arith) ∙ ap (groups buf) here))
      where
        last :
            (left x shift : ℕ)
            → shift ≡ 7 * n
            → (n ≤ 9 → x ≡ groups buf n)
            → if◌then◌else◌ {A = Loaded}
                (overflows n (buf n))
                (failed num_overflow)
                (value (n, bit_or x (shifted undefined_shl (buf n) shift)))
              ≡ unless (overflows n (buf n)) (value (n, groups buf (suc n)))
        last left x shift es holds = elim (Bool-cases (overflows n (buf n))) [
          | inl over ↦ rw over
          | inr fine ↦ rw (fine, last_group x shift fine es holds)
        ]
    load_loop-groups (suc d) (suc left) i x shift e p es holds =
        let go_on : ltb (buf i) 128 ≡ false = ground (arith, marked i) in
        rw (go_on, load_loop)
          (load_loop-groups d left (i + 1)
            (bit_or x (shifted undefined_shl (bit_and (buf i) 0x7f) shift)) (shift + 7)
            (omega arith) (omega arith) (omega arith) (next_group i x shift (omega arith) es holds))

    pub vu64_load-guarded :
        (len : ℕ)
        → n < len
        → vu64_load undefined_shl buf len false
          ≡ unless (overflows n (buf n)) (value (n + 1, groups buf (suc n)))
    unfolding vu64_load groups
    vu64_load-guarded len h =
        let not_end : (n == len) ≡ false = ground arith in
        rw (load_loop-groups n len 0 0 0 (omega arith) h (omega arith) (λ _. refl))
          (finish (overflows n (buf n)) (groups buf (suc n)) len not_end)
      where
        finish :
            (over : Bool) (x len : ℕ)
            → (n == len) ≡ false
            → after_loop len (unless over (value (n, x))) ≡ unless over (value (n + 1, x))
        finish true x len h = refl
        finish false x len h = rw h

    -- The test of the last byte is one of the whole integer.
    overflows_eq : overflows n (buf n) ≡ too_large buf n
    unfolding groups
    overflows_eq =
        let low : buf n % 128 ≡ buf n = omega arith in
        let below = groups-lt buf n in
        let all = groups-lt buf (suc n) in
        elim (Bool-cases (n == 9)) [
          | inl nine ↦ let at : n ≡ 9 = ground arith in ground arith
          | inr other ↦ elim (Bool-cases (ltb 9 n)) [
            | inl long ↦ ground arith
            | inr short ↦
                let grows = scale_mono (suc n) 9 (ground arith) in ground (arith, all, grows)
          ]
        ]

    -- If the first byte without the mark is at `n`, within the buffer of bytes, `bin_vu64_load`
    -- reports an overflow if there are more than ten bytes up to it, or if the integer of their
    -- groups of seven bits needs more than 64 bits, and otherwise reads these `n + 1` bytes and
    -- returns that integer.
    pub vu64_load-groups :
        (len : ℕ)
        → n < len
        → vu64_load undefined_shl buf len false
          ≡ (if too_large buf n then failed num_overflow else value (n + 1, groups buf (suc n)))
    vu64_load-groups len h =
        vu64_load-guarded len h
        ∙ (ap (λ b. unless b (value (n + 1, groups buf (suc n)))) overflows_eq
            ∙ unless-if (too_large buf n) (value (n + 1, groups buf (suc n))))

  -- If every byte of the buffer is marked, `bin_vu64_load` reports that the buffer is too short.
  pub vu64_load-short :
      (len : ℕ)
      → ((k : ℕ) → k < len → 128 ≤ buf k)
      → vu64_load undefined_shl buf len false ≡ failed buf_not_enough
  unfolding vu64_load
  vu64_load-short len marked =
      let (r, ran) = load_loop-short len 0 0 0 (λ k _ p. marked k (omega arith)) in
      let end : ((0 + len) == len) ≡ true = ground arith in rw (ran, after_loop, end)

-- The encoding of an integer below 2 ^ 64 passes the test for overflow, and holds the integer.
module _ (x m : ℕ) (out : Memory ℕ) (small : x < word64) (w : IsWidth x m)
    (enc : IsEncoding out x m) where
  ten_groups : m ≤ 9
  ten_groups = elim (Bool-cases (leb m 9)) [
    | inl ok ↦ ground arith
    | inr more ↦ absurd (ground (arith, w.needs, scale_mono 10 m))
  ]

  top_group : m ≡ 9 → group x m ≤ 1
  top_group e = rw e (omega arith)

  not_over : overflows m (out m) ≡ false
  not_over = ground (arith, ten_groups, top_group, enc m)

  groups_of : groups out (suc m) ≡ x
  groups_of = groups-mod out x (suc m) (λ k l. ground (arith, enc k)) ∙ mod-eq_of_lt w.fits

-- For an integer of 64 bits with `m + 1` groups and a buffer of bytes with room for them, what
-- `bin_vu64_put` writes `bin_vu64_load` reads back, from a buffer of any length that holds it;
-- from a shorter one it reports that there is not enough.
pub load-put :
    (undefined_shl : ℕ → ℕ → ℕ) (buf : Memory ℕ) (len x m len' : ℕ)
    → IsBytes buf
    → x < word64
    → IsWidth x m
    → m < len
    → (out : Memory ℕ) × (vu64_put buf len x ≡ (out, value (suc m)))
      × (vu64_load undefined_shl out len' false
          ≡ (if leb len' m then failed buf_not_enough else value (m + 1, x)))
load-put undefined_shl buf len x m len' bytes small w room =
    let (out, ran, enc, frame) = vu64_put-IsEncoding buf len x m w room in
    let long_enough =
      vu64_load-guarded undefined_shl out (bytes_of out enc frame) m (ground (arith, enc m))
        (λ k l. ground (arith, enc k)) len' in
    (
      out,
      ran,
      elim (Bool-cases (leb len' m)) [
        | inl short ↦
            rw short (vu64_load-short undefined_shl out len' (λ k l. ground (arith, enc k)))
        | inr long ↦ rw long (
            long_enough (ground arith)
            ∙ ap (λ b. unless b (value (m + 1, groups out (suc m)))) (not_over x m out small w enc)
            ∙ ap (λ t. value (m + 1, t)) (groups_of x m out small w enc))
      ],
    )
  where
    bytes_of :
        (out : Memory ℕ) → IsEncoding out x m → ((k : ℕ) → m < k → out k ≡ buf k) → IsBytes out
    bytes_of out enc frame k = elim (Bool-cases (leb k m)) [
      | inl inside ↦ ground (arith, enc k)
      | inr outside ↦ rw (frame k (ground arith)) (bytes k)
    ]
