-- ===== src/Array/One.antt =====
-- One element inserted into a static array, or removed, as `st_array_insert` and `st_array_remove` do: the
-- cells of the result.
use lua_sharedtable.Base.{
  ℕ, ◌+◌, ◌-◌, ◌≤◌, ◌<◌, ◌≡◌, refl, ap, ◌∙◌, arith, true, false, ltb, leb, Memory, some, ok, done,
  passed, asserted,
}
use lua_sharedtable.Array.{StArray, Realloc, insert_many, remove_many}
use lua_sharedtable.Array.Insert.{placed, placed_low, placed_mid, placed_high}
use lua_sharedtable.Array.Remove.{removed, closed, closed_low, closed_high}

module _ {A : Type 0} (a b : StArray A) where
  -- Nothing but the elements and their number differs.
  pub record SameFrame : Type 0 where
    pub inited : b.inited ≡ a.inited
    pub dynamic : b.dynamic ≡ a.dynamic
    pub compare : b.compare ≡ a.compare
    pub total : b.total_cnt ≡ a.total_cnt

  pub record OneMore (idx : ℕ) (e : A) : Type 0 where
    pub frame : SameFrame
    pub count : b.current_cnt ≡ a.current_cnt + 1
    pub low : (j : ℕ) → j < idx → b.slots j ≡ a.slots j
    pub here : b.slots idx ≡ e
    pub high : (j : ℕ) → idx ≤ j → j < a.current_cnt → b.slots (j + 1) ≡ a.slots j

  pub record OneLess (idx : ℕ) : Type 0 where
    pub frame : SameFrame
    pub count : b.current_cnt + 1 ≡ a.current_cnt
    pub low : (j : ℕ) → j < idx → b.slots j ≡ a.slots j
    pub high : (j : ℕ) → idx ≤ j → j < b.current_cnt → b.slots j ≡ a.slots (j + 1)

module _ {A : Type 0} (a : StArray A) (idx : ℕ) (inited : a.inited ≡ true) where
  pub insert_one :
      (realloc : Realloc A) (e : A)
      → a.dynamic ≡ false
      → idx ≤ a.current_cnt
      → a.current_cnt < a.total_cnt
      → (b : StArray A) × (insert_many realloc (some a) idx (some (λ i. e)) 1 ≡ (some b, ok))
        × OneMore a b idx e
  unfolding insert_many
  insert_one realloc e static le room =
      let m : Memory A = placed a idx (λ i. e) 1 le in
      let fits : ltb a.total_cnt (a.current_cnt + 1) ≡ false = ground arith in
      (
        record a { slots = m; current_cnt = a.current_cnt + 1 },
        passed a.inited _ _ inited
            ∙ passed (leb idx a.current_cnt) _ _ (ground arith)
            ∙ rw (static, fits) refl,
        record {
          frame = record { inited = refl; dynamic = refl; compare = refl; total = refl };
          count = refl;
          low = placed_low a idx (λ i. e) 1 le;
          here = ap m (omega arith) ∙ placed_mid a idx (λ i. e) 1 le 0 (omega arith);
          high = λ j h l.
              ap m (omega arith)
              ∙ placed_high a idx (λ i. e) 1 le (j - idx) (omega arith)
              ∙ ap a.slots (omega arith);
        },
      )

  pub remove_one :
      idx < a.current_cnt
      → (b : StArray A) × (remove_many (some a) idx 1 ≡ done b) × OneLess a b idx
  unfolding remove_many
  remove_one lt =
      let m : Memory A = closed a idx 1 lt in
      let one : removed a idx 1 lt ≡ 1 = ground arith in
      (
        record a { slots = m; current_cnt = a.current_cnt - removed a idx 1 lt },
        asserted a.inited _ inited ∙ asserted (ltb idx a.current_cnt) _ (ground arith),
        record {
          frame = record { inited = refl; dynamic = refl; compare = refl; total = refl };
          count = omega (arith, one, lt);
          low = closed_low a idx 1 lt;
          high = λ j h l.
              ap m (omega arith)
              ∙ closed_high a idx 1 lt (j - idx) (omega (arith, one, h, l))
              ∙ ap a.slots (omega (arith, one, h));
        },
      )
