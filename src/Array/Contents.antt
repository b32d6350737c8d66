-- ===== src/Array/Contents.antt =====
-- The abstract view of an array: the list of its elements, and the invariant of its counts.
use lua_sharedtable.Base.{
  ℕ, zero, suc, ◌+◌, ◌≤◌, ◌<◌, ◌≡◌, refl, sym, ap, ap₂, ◌∙◌, List, [], ◌∷◌, ◌++◌, arith, length,
  Memory,
}
use lua_sharedtable.Array.{StArray}

module _ {A : Type 0} where
  -- `n` cells from index `i` on
  abbrev pub cells : Memory A → (i n : ℕ) → List A
  cells m i zero = []
  cells m i (suc n) = m i ∷ cells m (suc i) n

  abbrev pub contents : StArray A → List A
  contents a = cells a.slots 0 a.current_cnt

  pub record IsArray (a : StArray A) : Type 0 where
    pub fits : a.current_cnt ≤ a.total_cnt

  pub length-cells : (m : Memory A) (i n : ℕ) → length (cells m i n) ≡ n
  length-cells m i zero = refl
  length-cells m i (suc n) = ap suc (length-cells m (suc i) n)

  -- The cells at `i` of one block are those at `j` of another, if they agree one by one.
  pub cells-ext :
      (m m' : Memory A) (i j n : ℕ)
      → ((k : ℕ) → k < n → m (i + k) ≡ m' (j + k))
      → cells m i n ≡ cells m' j n
  cells-ext m m' i j zero h = refl
  cells-ext m m' i j (suc n) h =
      ap₂ ◌∷◌ (at_start (h 0 (omega arith)))
        (cells-ext m m' (suc i) (suc j) n (λ k l. shifted k (h (suc k) (omega arith))))
    where
      at_start : m (i + 0) ≡ m' (j + 0) → m i ≡ m' j
      at_start e =
          let p : i + 0 ≡ i = omega arith in
          let q : j + 0 ≡ j = omega arith in sym (ap m p) ∙ e ∙ ap m' q

      shifted : (k : ℕ) → m (i + suc k) ≡ m' (j + suc k) → m (suc i + k) ≡ m' (suc j + k)
      shifted k e =
          let p : suc i + k ≡ i + suc k = omega arith in
          let q : j + suc k ≡ suc j + k = omega arith in ap m p ∙ e ∙ ap m' q

  pub cells-append :
      (m : Memory A) (i a b : ℕ) → cells m i (a + b) ≡ cells m i a ++ cells m (i + a) b
  cells-append m i zero b =
      let p : 0 + b ≡ b = omega arith in let q : i + 0 ≡ i = omega arith in rw (p, q)
  cells-append m i (suc a) b =
      let p : suc a + b ≡ suc (a + b) = omega arith in
      let q : suc i + a ≡ i + suc a = omega arith in
      rw p (
        ap (λ t. m i ∷ t)
          (cells-append m (suc i) a b ∙ ap (λ t. cells m (suc i) a ++ cells m t b) q))
