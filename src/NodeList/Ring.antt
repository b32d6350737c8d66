-- ===== src/NodeList/Ring.antt =====
-- The ring of a list head and the list that it stands for; `st_list_init`, `st_list_empty`,
-- `st_list_is_inited` and the walk of `st_list_for_each`.
use lua_sharedtable.Base.{
  ℕ, zero, suc, ◌+◌, ◌<◌, ◌≡◌, ◌≢◌, refl, sym, ap, ◌∙◌, subst, ◌↔◌, inl, inr, List, [], ◌∷◌, length,
  arith, ◌==◌, ==_iff, true, false, Run, done, ◌>>=◌,
}
use lua_sharedtable.NodeList.{Store, init, empty, for_each}
use lua_sharedtable.NodeList.Linked.{In, Distinct, Linked, prev-In, Linked-frame}

-- The ring of `head` with the nodes of the list, all different and none of them null.
pub record Ring (s : Store) (head : ℕ) (xs : List ℕ) : Type 0 where
  pub linked : Linked s head xs head
  pub distinct : Distinct (head ∷ xs)
  pub no_null : ¬ In 0 (head ∷ xs)

-- `st_list_init` makes a node that is not null an empty list.
pub init-Ring : (s : Store) (head : ℕ) → head ≢ 0 → Ring (init head s) head []
unfolding init
init-Ring s head real =
    let own : (head == head) ≡ true = ground arith in
    record {
      linked = (rw own refl, rw own refl);
      distinct = ((λ i. i), tt);
      no_null = λ i. elim i [ inl e ↦ real (sym e) | inr i ↦ i ];
    }

-- On a ring, `st_list_empty` is true exactly if the list is empty.
pub empty_iff :
    (s : Store) (head : ℕ) (xs : List ℕ) → Ring s head xs → (empty s head ≡ true) ↔ (xs ≡ [])
unfolding empty
empty_iff s head [] r = (λ h. refl, λ h. (==_iff head (s.prev head)).1 (sym (r.linked.1)))
empty_iff s head (x ∷ xs) r = (
  λ h. absurd (
      r.distinct.0 (
        subst (λ k. In k (x ∷ xs)) (sym ((==_iff head (s.prev head)).0 h))
          (prev-In s x xs head (r.linked.2)))),
  λ h. cc,
)

for_each_more :
    (s : Store) (head fuel node : ℕ)
    → (node == head) ≡ false
    → for_each s head (suc fuel) node
      ≡ (for_each s head fuel (s.next node) >>= λ rest. done (node ∷ rest))
unfolding for_each
for_each_more s head fuel node h = rw (h, for_each)

for_each-Linked :
    (s : Store) (head a : ℕ) (xs : List ℕ) (fuel : ℕ)
    → Linked s a xs head
    → ¬ In head xs
    → length xs < fuel
    → for_each s head fuel (s.next a) ≡ done xs
unfolding for_each
for_each-Linked s head a xs zero linked outside enough = absurd (omega arith)
for_each-Linked s head a [] (suc fuel) (fwd, back) outside enough =
    let at_end : (head == head) ≡ true = ground arith in rw (fwd, at_end, for_each)
for_each-Linked s head a (x ∷ xs) (suc fuel) (fwd, back, linked) outside enough =
    let differ : x ≢ head = λ e. outside (inl (sym e)) in
    let inside : (x == head) ≡ false = ground (arith, differ) in
    ap (for_each s head (suc fuel)) fwd
    ∙ for_each_more s head fuel x inside
    ∙ ap (λ (r : Run (List ℕ)). r >>= λ rest. done (x ∷ rest))
        (for_each-Linked s head x xs fuel linked (λ i. outside (inr i)) (omega arith))

-- The walk of `st_list_for_each` over a ring ends and visits each node of the list once, in
-- order.
pub for_each-Ring :
    (s : Store) (head : ℕ) (xs : List ℕ)
    → Ring s head xs
    → for_each s head (length xs + 1) (s.next head) ≡ done xs
for_each-Ring s head xs r =
    for_each-Linked s head head xs (length xs + 1) r.linked r.distinct.0 (omega arith)

-- A ring of which no node is written stays as it is.
pub Ring-frame :
    (s s' : Store) (head : ℕ) (xs : List ℕ)
    → ((k : ℕ) → In k (head ∷ xs) → (s'.next k ≡ s.next k) × (s'.prev k ≡ s.prev k))
    → Ring s head xs
    → Ring s' head xs
Ring-frame s s' head xs same r = record {
  linked =
      Linked-frame s s' head xs head (λ k i. (same k i).0) (λ k i. (same k (inr i)).1)
        (same head (inl refl)).1 r.linked;
  distinct = r.distinct;
  no_null = r.no_null;
}
