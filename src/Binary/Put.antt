-- ===== src/Binary/Put.antt =====
-- `bin_vu64_put`: what it writes, and when it runs out of space.
use lua_sharedtable.Base.{
  ℕ, zero, suc, ◌+◌, ◌-◌, ◌/◌, ◌%◌, ◌≤◌, ◌<◌, ◌≡◌, ◌≢◌, refl, sym, ap, ◌∙◌, true, false, inl, inr,
  arith, ◌==◌, ltb, if◌then◌else◌, Bool-cases, Memory, write, value, failed, buf_overflow,
}
use lua_sharedtable.Bits.{bit_and, bit_or}
use lua_sharedtable.Binary.{put_loop, vu64_put}
use lua_sharedtable.Binary.Bytes.{
  scale, scale-pos, scale_mono, div-zero→lt, lt→div-zero, group, div-scale, byte_low, byte_marked,
}
use lua_sharedtable.Binary.Size.{IsWidth}

-- What the loop leaves, started with the integer `y` at cell `i`: the buffer `out`, the next cell
-- `j` and the rest of the integer.
record Wrote (left i y : ℕ) (buf out : Memory ℕ) (j rest : ℕ) : Type 0 where
  lo : i ≤ j
  hi : j ≤ i + left
  remains : rest ≡ y / scale (j - i)
  stopped : rest ≢ 0 → j ≡ i + left
  nonzero : (d : ℕ) → i + d < j → y / scale d ≢ 0
  inside : (d : ℕ) → i + d < j → out (i + d) ≡ group y d + 128
  before : (k : ℕ) → k < i → out k ≡ buf k
  after : (k : ℕ) → j ≤ k → out k ≡ buf k

start-Wrote : (left i y : ℕ) (buf : Memory ℕ) → (y ≢ 0 → left ≡ 0) → Wrote left i y buf buf i y
start-Wrote left i y buf ends = record {
  lo = omega arith;
  hi = omega arith;
  remains = let none_done : i - i ≡ 0 = omega arith in rw none_done (omega arith);
  stopped = λ h. omega (arith, ends h);
  nonzero = λ d h. absurd (omega arith);
  inside = λ d h. absurd (omega arith);
  before = λ k h. refl;
  after = λ k h. refl;
}

step-Wrote :
    (left i y : ℕ) (buf out : Memory ℕ) (j rest : ℕ)
    → y ≢ 0
    → Wrote left (i + 1) (y / 128) (write buf i (bit_or (y % 256) 0x80)) out j rest
    → Wrote (suc left) i y buf out j rest
step-Wrote left i y buf out j rest h w = record {
  lo = omega (arith, w.lo);
  hi = omega (arith, w.hi);
  remains = w.remains ∙ div-scale y (j - (i + 1)) ∙ ap (λ k. y / scale k) (omega (arith, w.lo));
  stopped = λ p. omega (arith, w.stopped p);
  nonzero = nonzero;
  inside = inside;
  before = λ k p. w.before k (omega arith) ∙ ground arith;
  after = λ k p. w.after k p ∙ ground (arith, w.lo);
}
  where
    nonzero : (d : ℕ) → i + d < j → y / scale d ≢ 0
    nonzero zero p e = h (omega arith)
    nonzero (suc d) p e = w.nonzero d (omega arith) (div-scale y d ∙ e)

    inside : (d : ℕ) → i + d < j → out (i + d) ≡ group y d + 128
    inside zero p =
        let here : i + 0 ≡ i = omega arith in
        rw here (w.before i (omega arith) ∙ ground (arith, byte_marked y))
    inside (suc d) p =
        let shift : i + suc d ≡ i + 1 + d = omega arith in
        rw shift (w.inside d (omega arith) ∙ ap (λ (t : ℕ). t % 128 + 128) (div-scale y d))

put_loop-Wrote :
    (left i y : ℕ) (buf : Memory ℕ)
    → Wrote left i y buf
        (put_loop left i y buf).0
        (put_loop left i y buf).1
        (put_loop left i y buf).2
unfolding put_loop
put_loop-Wrote zero i y buf = start-Wrote 0 i y buf (λ _. refl)
put_loop-Wrote (suc left) i y buf = elim (Bool-cases (y == 0)) [
  | inl stop ↦ rw (stop, put_loop) (start-Wrote (suc left) i y buf (ground arith))
  | inr more ↦
      let next : Memory ℕ = write buf i (bit_or (y % 256) 0x80) in
      rw (more, put_loop)
        (step-Wrote left i y buf (put_loop left (i + 1) (y / 128) next).0
          (put_loop left (i + 1) (y / 128) next).1 (put_loop left (i + 1) (y / 128) next).2
          (ground arith) (put_loop-Wrote left (i + 1) (y / 128) next))
]

-- The bytes of an integer of `m + 1` groups: all but the last are marked.
abbrev pub IsEncoding : Memory ℕ → ℕ → ℕ → Type 0
IsEncoding buf x m = (k : ℕ) → k ≤ m → buf k ≡ group x k + (if k == m then 0 else 128)

module _ (x m len : ℕ) (w : IsWidth x m) (some_bits : x ≢ 0) (buf out : Memory ℕ) (j rest : ℕ)
    (r : Wrote len 0 x buf out j rest) where
  rest_quotient : rest ≡ x / scale j
  rest_quotient = r.remains ∙ ap (λ k. x / scale k) (omega arith)

  end_below : rest ≡ 0 → m < j
  end_below z = elim (Bool-cases (ltb m j)) [
    | inl below ↦ ground arith
    | inr over ↦
        let few : x < scale j = div-zero→lt x j (sym rest_quotient ∙ z) in
        absurd (ground (arith, w.needs, scale_mono j m, scale_mono j 0))
  ]

  end_above : j ≤ suc m
  end_above = elim (Bool-cases (ltb (suc m) j)) [
    | inl over ↦ absurd (r.nonzero (suc m) (ground arith) (lt→div-zero x (suc m) w.fits))
    | inr below ↦ ground arith
  ]

  rest_zero→end : rest ≡ 0 → j ≡ suc m
  rest_zero→end z = omega (arith, end_below z, end_above)

  full→rest : len ≤ m → rest ≢ 0
  full→rest h z = omega (arith, rest_zero→end z, r.hi)

  space→rest_zero : m < len → rest ≡ 0
  space→rest_zero h = elim (Bool-cases (rest == 0)) [
    | inl none_left ↦ ground arith
    | inr more ↦
        let at_end : j ≡ 0 + len = r.stopped (ground arith) in
        rest_quotient ∙ lt→div-zero x j (omega (arith, w.fits, scale_mono (suc m) j))
  ]

-- The mark of the last byte is taken off.
unmark-IsEncoding :
    (x m : ℕ) (out : Memory ℕ)
    → ((d : ℕ) → 0 + d < suc m → out (0 + d) ≡ group x d + 128)
    → IsEncoding (write out (suc m - 1) (bit_and (out (suc m - 1)) 0x7f)) x m
unmark-IsEncoding x m out h k le =
    let last : suc m - 1 ≡ m = omega arith in
    let zero_k : 0 + k ≡ k = omega arith in rw last (ground (arith, h k, byte_low (out m)))

-- Zero is a single byte.
zero-IsEncoding : (buf : Memory ℕ) → IsEncoding (write buf 0 0) 0 0
zero-IsEncoding buf k le = let e : k ≡ 0 = omega arith in rw e refl

width_of_zero : (m : ℕ) → IsWidth 0 m → m ≡ 0
width_of_zero m w = elim (Bool-cases (m == 0)) [
  | inl z ↦ ground arith
  | inr nz ↦ absurd (ground (arith, w.needs, scale-pos m))
]

Encoded : (buf : Memory ℕ) (len x m : ℕ) → Type 0
Encoded buf len x m =
    (out : Memory ℕ) × (vu64_put buf len x ≡ (out, value (suc m)))
    × IsEncoding out x m
    × ((k : ℕ) → m < k → out k ≡ buf k)

put_zero : (buf : Memory ℕ) (len : ℕ) → 0 < len → Encoded buf len 0 0
unfolding vu64_put Encoded
put_zero buf len room =
    let space : ltb 0 len ≡ true = ground arith in
    (write buf 0 0, rw space, zero-IsEncoding buf, λ k lt. ground arith)

put_nonzero :
    (buf : Memory ℕ) (len x m : ℕ) → (x == 0) ≡ false → IsWidth x m → m < len → Encoded buf len x m
unfolding vu64_put Encoded
put_nonzero buf len x m more w room =
    let out : Memory ℕ = (put_loop len 0 x buf).0 in
    let j : ℕ = (put_loop len 0 x buf).1 in
    let rest : ℕ = (put_loop len 0 x buf).2 in
    let r : Wrote len 0 x buf out j rest = put_loop-Wrote len 0 x buf in
    let gone : rest ≡ 0 = space→rest_zero x m len w (ground arith) buf out j rest r room in
    let end : j ≡ suc m = rest_zero→end x m len w (ground arith) buf out j rest r gone in
    (
      write out (suc m - 1) (bit_and (out (suc m - 1)) 0x7f),
      rw (more, gone, end) refl,
      unmark-IsEncoding x m out (λ d p. r.inside d (omega arith)),
      λ k p. ground (arith, r.after k),
    )

-- With room for all `m + 1` groups of `x`, `bin_vu64_put` writes them to the first cells of the
-- buffer, leaves the others alone and returns their number.
pub vu64_put-IsEncoding :
    (buf : Memory ℕ) (len x m : ℕ)
    → IsWidth x m
    → m < len
    → (out : Memory ℕ) × (vu64_put buf len x ≡ (out, value (suc m)))
      × IsEncoding out x m
      × ((k : ℕ) → m < k → out k ≡ buf k)
unfolding Encoded
vu64_put-IsEncoding buf len x m w room = elim (Bool-cases (x == 0)) [
  | inl zero_x ↦
      let e : x ≡ 0 = ground arith in
      let none_more : m ≡ 0 = width_of_zero m (rw e at w) in
      rw (e, none_more) (put_zero buf len (omega arith))
  | inr more ↦ put_nonzero buf len x m more w room
]

-- Without room for all `m + 1` groups of `x`, `bin_vu64_put` reports an overflow of the buffer,
-- and writes nothing past its end.
pub vu64_put-overflow :
    (buf : Memory ℕ) (len x m : ℕ)
    → IsWidth x m
    → len ≤ m
    → (out : Memory ℕ) × (vu64_put buf len x ≡ (out, failed buf_overflow))
      × ((k : ℕ) → len ≤ k → out k ≡ buf k)
unfolding vu64_put
vu64_put-overflow buf len x m w full = elim (Bool-cases (x == 0)) [
  | inl zero_x ↦
      let e : x ≡ 0 = ground arith in
      let none_more : m ≡ 0 = width_of_zero m (rw e at w) in
      let no_space : ltb 0 len ≡ false = ground arith in (buf, rw (zero_x, no_space), λ k p. refl)
  | inr more ↦
      let out : Memory ℕ = (put_loop len 0 x buf).0 in
      let j : ℕ = (put_loop len 0 x buf).1 in
      let rest : ℕ = (put_loop len 0 x buf).2 in
      let r : Wrote len 0 x buf out j rest = put_loop-Wrote len 0 x buf in
      let left_over : rest ≢ 0 = full→rest x m len w (ground arith) buf out j rest r full in
      let test : ltb 0 rest ≡ true = ground arith in
      (out, rw (more, test) refl, λ k p. r.after k (omega (arith, r.hi)))
]
