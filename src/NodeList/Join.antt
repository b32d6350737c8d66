-- ===== src/NodeList/Join.antt =====
-- `st_list_join`: the nodes of one list behind those of another.
use lua_sharedtable.Base.{
  ℕ, ◌≡◌, ◌≢◌, refl, sym, ◌∙◌, subst, inl, inr, List, [], ◌∷◌, ◌++◌, arith, false, true,
}
use lua_sharedtable.NodeList.{Store, init, empty, join}
use lua_sharedtable.NodeList.Linked.{
  In, Disjoint, Linked, Linked-append, Linked-retarget, prev-In, In-apart, In-append,
  Distinct-append, append_nil,
}
use lua_sharedtable.NodeList.Ring.{Ring, empty_iff}

-- The end `p` of the first list leads to the start `y` of the second, whose end `l` leads to
-- `dest`; `src` is alone.
record Joined (s : Store) (dest src p y l : ℕ) (s' : Store) : Type 0 where
  over : s'.next p ≡ y
  back_over : s'.prev y ≡ p
  round : s'.next l ≡ dest
  back_round : s'.prev dest ≡ l
  alone : s'.next src ≡ src
  back_alone : s'.prev src ≡ src
  next_else : (k : ℕ) → k ≢ p → k ≢ l → k ≢ src → s'.next k ≡ s.next k
  prev_else : (k : ℕ) → k ≢ y → k ≢ dest → k ≢ src → s'.prev k ≡ s.prev k

join-Joined :
    (s : Store) (dest src : ℕ)
    → empty s src ≡ false
    → dest ≢ src
    → s.prev dest ≢ src
    → s.prev dest ≢ s.prev src
    → s.next src ≢ dest
    → s.next src ≢ src
    → s.prev src ≢ src
    → Joined s dest src (s.prev dest) (s.next src) (s.prev src) (join dest src s)
unfolding join init
join-Joined s dest src more a b c d e f = rw more (record {
  over = ground arith;
  back_over = ground arith;
  round = ground arith;
  back_round = ground arith;
  alone = ground arith;
  back_alone = ground arith;
  next_else = λ k x y z. ground arith;
  prev_else = λ k x y z. ground arith;
})

not_empty : (s : Store) (src : ℕ) → s.prev src ≢ src → empty s src ≡ false
unfolding empty
not_empty s src other = ground arith

join_nothing : (s : Store) (dest src : ℕ) → empty s src ≡ true → join dest src s ≡ s
unfolding join
join_nothing s dest src none = rw none refl

module _ (s : Store) (dest src : ℕ) (xs : List ℕ) (y : ℕ) (ys : List ℕ) (rd : Ring s dest xs)
    (rs : Ring s src (y ∷ ys)) (apart : Disjoint (dest ∷ xs) (src ∷ (y ∷ ys))) where
  before_join : In (s.prev dest) (dest ∷ xs)
  before_join = prev-In s dest xs dest rd.linked

  at_end : In (s.prev src) (y ∷ ys)
  at_end = prev-In s y ys src (rs.linked.2)

  outside : (k : ℕ) → In k (y ∷ ys) → k ≢ src
  outside k i = In-apart k src (y ∷ ys) (rs.distinct.0) i

  -- A node of the first ring is none of the second.
  differ : (k m : ℕ) → In k (dest ∷ xs) → In m (src ∷ (y ∷ ys)) → k ≢ m
  differ k m i j e = apart k i (subst (λ k. In k (src ∷ (y ∷ ys))) (sym e) j)

  joined : Joined s dest src (s.prev dest) y (s.prev src) (join dest src s)
  joined =
      let (fwd, back, rest) = rs.linked in
      let more : empty s src ≡ false = not_empty s src (outside (s.prev src) at_end) in
      subst (λ n. Joined s dest src (s.prev dest) n (s.prev src) (join dest src s)) fwd
        (join-Joined s dest src more (differ dest src (inl refl) (inl refl))
          (differ (s.prev dest) src before_join (inl refl))
          (differ (s.prev dest) (s.prev src) before_join (inr at_end))
          (λ e. differ dest y (inl refl) (inr (inl refl)) (sym e ∙ fwd))
          (λ e. outside y (inl refl) (sym fwd ∙ e)) (outside (s.prev src) at_end))

  Joined-Linked :
      (s' : Store)
      → Joined s dest src (s.prev dest) y (s.prev src) s'
      → Linked s' dest (xs ++ (y ∷ ys)) dest
  Joined-Linked s' j =
      let (y_new, behind) = rs.distinct.1 in
      Linked-append s' dest xs y ys dest
        (Linked-retarget s s' dest xs dest y rd.distinct
          (λ k i other.
            j.next_else k other (differ k (s.prev src) i (inr at_end)) (differ k src i (inl refl)))
          (λ k i.
            j.prev_else k (differ k y (inr i) (inr (inl refl)))
              (In-apart k dest xs (rd.distinct.0) i) (differ k src (inr i) (inl refl)))
          j.over j.back_over rd.linked)
        (Linked-retarget s s' y ys src dest (rs.distinct.1)
          (λ k i other.
            j.next_else k (λ e. differ (s.prev dest) k before_join (inr i) (sym e)) other
              (outside k i))
          (λ k i.
            j.prev_else k (In-apart k y ys y_new i)
              (λ e. differ dest k (inl refl) (inr (inr i)) (sym e)) (outside k (inr i)))
          j.round j.back_round (rs.linked.2))

  Joined-Ring : Ring (join dest src s) dest (xs ++ (y ∷ ys)) × Ring (join dest src s) src []
  Joined-Ring = (
    record {
      linked = Joined-Linked (join dest src s) joined;
      distinct =
          Distinct-append (dest ∷ xs) (y ∷ ys) rd.distinct (rs.distinct.1)
            (λ k i j. apart k i (inr j));
      no_null = λ i. elim (In-append 0 (dest ∷ xs) (y ∷ ys) i) [
        | inl l ↦ rd.no_null l
        | inr r ↦ rs.no_null (inr r)
      ];
    },
    record {
      linked = (joined.alone, joined.back_alone);
      distinct = ((λ i. i), tt);
      no_null = λ i. elim i [ inl e ↦ rs.no_null (inl e) | inr none ↦ none ];
    },
  )

-- On two rings without a common node, `st_list_join` puts the nodes of the second behind those of
-- the first, in order, and leaves the second list empty.
pub join-Ring :
    (s : Store) (dest src : ℕ) (xs ys : List ℕ)
    → Ring s dest xs
    → Ring s src ys
    → Disjoint (dest ∷ xs) (src ∷ ys)
    → Ring (join dest src s) dest (xs ++ ys) × Ring (join dest src s) src []
join-Ring s dest src xs [] rd rs apart =
    let none : empty s src ≡ true = (empty_iff s src [] rs).1 refl in
    let same : join dest src s ≡ s = join_nothing s dest src none in
    (
      subst (λ l. Ring (join dest src s) dest l) (sym (append_nil xs))
          (subst (λ t. Ring t dest xs) (sym same) rd),
      subst (λ t. Ring t src []) (sym same) rs,
    )
join-Ring s dest src xs (y ∷ ys) rd rs apart = Joined-Ring s dest src xs y ys rd rs apart
