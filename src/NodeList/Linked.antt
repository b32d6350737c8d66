-- ===== src/NodeList/Linked.antt =====
-- Chains of linked nodes, and how they change with the store.
use lua_sharedtable.Base.{
  ℕ, ◌≡◌, ◌≢◌, refl, sym, ap, ◌∙◌, subst, ◌⊎◌, inl, inr, List, [], ◌∷◌, ◌++◌,
}
use lua_sharedtable.NodeList.{Store}

abbrev pub In : ℕ → List ℕ → Type 0
In k [] = ⊥
In k (x ∷ xs) = (k ≡ x) ⊎ In k xs

abbrev pub Distinct : List ℕ → Type 0
Distinct [] = Unit {0}
Distinct (x ∷ xs) = (¬ In x xs) × Distinct xs

abbrev pub Disjoint : List ℕ → List ℕ → Type 0
Disjoint xs ys = (k : ℕ) → In k xs → ¬ In k ys

pub In-apart : (k b : ℕ) (xs : List ℕ) → ¬ In b xs → In k xs → k ≢ b
In-apart k b xs outside i e = outside (subst (λ k. In k xs) e i)

pub In-append : (k : ℕ) (xs ys : List ℕ) → In k (xs ++ ys) → In k xs ⊎ In k ys
In-append k [] ys i = inr i
In-append k (x ∷ xs) ys (inl e) = inl (inl e)
In-append k (x ∷ xs) ys (inr i) = elim (In-append k xs ys i) [ inl l ↦ inl (inr l) | inr r ↦ inr r ]

pub append_nil : (xs : List ℕ) → xs ++ [] ≡ xs
append_nil [] = refl
append_nil (x ∷ xs) = ap (λ l. x ∷ l) (append_nil xs)

pub append-In : (k : ℕ) (xs ys : List ℕ) → In k xs ⊎ In k ys → In k (xs ++ ys)
append-In k [] ys (inr i) = i
append-In k [] ys (inl i) = absurd i
append-In k (x ∷ xs) ys (inl (inl e)) = inl e
append-In k (x ∷ xs) ys (inl (inr i)) = inr (append-In k xs ys (inl i))
append-In k (x ∷ xs) ys (inr i) = inr (append-In k xs ys (inr i))

pub Distinct-append :
    (xs ys : List ℕ) → Distinct xs → Distinct ys → Disjoint xs ys → Distinct (xs ++ ys)
Distinct-append [] ys p q apart = q
Distinct-append (x ∷ xs) ys (new, p) q apart = (
  (λ i. elim (In-append x xs ys i) [ inl l ↦ new l | inr r ↦ apart x (inl refl) r ]),
  Distinct-append xs ys p q (λ k i. apart k (inr i)),
)

pub Distinct-split :
    (xs ys : List ℕ) → Distinct (xs ++ ys) → Distinct xs × Distinct ys × Disjoint xs ys
Distinct-split [] ys d = (tt, d, λ k i. absurd i)
Distinct-split (x ∷ xs) ys (new, d) =
    let (l, r, apart) = Distinct-split xs ys d in
    (
      ((λ i. new (append-In x xs ys (inl i))), l),
      r,
      λ k i. elim i [
        | inl e ↦ λ j. new (append-In x xs ys (inr (subst (λ k. In k ys) e j)))
        | inr i ↦ apart k i
      ],
    )

-- The pointers lead from `a` through the nodes of the list to `b`, and back.
abbrev pub Linked : Store → (a : ℕ) → List ℕ → (b : ℕ) → Type 0
Linked s a [] b = (s.next a ≡ b) × (s.prev b ≡ a)
Linked s a (x ∷ xs) b = (s.next a ≡ x) × (s.prev x ≡ a) × Linked s x xs b

pub Linked-append :
    (s : Store) (a : ℕ) (xs : List ℕ) (y : ℕ) (ys : List ℕ) (b : ℕ)
    → Linked s a xs y
    → Linked s y ys b
    → Linked s a (xs ++ (y ∷ ys)) b
Linked-append s a [] y ys b (fwd, back) q = (fwd, back, q)
Linked-append s a (x ∷ xs) y ys b (fwd, back, p) q = (fwd, back, Linked-append s x xs y ys b p q)

pub Linked-split :
    (s : Store) (a : ℕ) (xs : List ℕ) (y : ℕ) (ys : List ℕ) (b : ℕ)
    → Linked s a (xs ++ (y ∷ ys)) b
    → Linked s a xs y × Linked s y ys b
Linked-split s a [] y ys b (fwd, back, q) = ((fwd, back), q)
Linked-split s a (x ∷ xs) y ys b (fwd, back, p) =
    let (l, r) = Linked-split s x xs y ys b p in ((fwd, back, l), r)

-- The node before the end is one of the chain.
pub prev-In : (s : Store) (a : ℕ) (xs : List ℕ) (b : ℕ) → Linked s a xs b → In (s.prev b) (a ∷ xs)
prev-In s a [] b (fwd, back) = inl back
prev-In s a (x ∷ xs) b (fwd, back, p) = inr (prev-In s x xs b p)

-- A chain depends on the pointers of its own nodes only.
pub Linked-frame :
    (s s' : Store) (a : ℕ) (xs : List ℕ) (b : ℕ)
    → ((k : ℕ) → In k (a ∷ xs) → s'.next k ≡ s.next k)
    → ((k : ℕ) → In k xs → s'.prev k ≡ s.prev k)
    → s'.prev b ≡ s.prev b
    → Linked s a xs b
    → Linked s' a xs b
Linked-frame s s' a [] b same_next same_prev at_end (fwd, back) =
    (same_next a (inl refl) ∙ fwd, at_end ∙ back)
Linked-frame s s' a (x ∷ xs) b same_next same_prev at_end (fwd, back, p) = (
  same_next a (inl refl) ∙ fwd,
  same_prev x (inl refl) ∙ back,
  Linked-frame s s' x xs b (λ k i. same_next k (inr i)) (λ k i. same_prev k (inr i)) at_end p,
)

-- The end of a chain can be linked to another node `c`.
pub Linked-retarget :
    (s s' : Store) (a : ℕ) (xs : List ℕ) (b c : ℕ)
    → Distinct (a ∷ xs)
    → ((k : ℕ) → In k (a ∷ xs) → k ≢ s.prev b → s'.next k ≡ s.next k)
    → ((k : ℕ) → In k xs → s'.prev k ≡ s.prev k)
    → s'.next (s.prev b) ≡ c
    → s'.prev c ≡ s.prev b
    → Linked s a xs b
    → Linked s' a xs c
Linked-retarget s s' a [] b c distinct same_next same_prev new_next new_prev (fwd, back) =
    (ap s'.next (sym back) ∙ new_next, new_prev ∙ back)
Linked-retarget s s' a (x ∷ xs) b c (not_in, distinct) same_next same_prev new_next new_prev
      (fwd, back, p) =
    let inside : a ≢ s.prev b =
      λ e. not_in (subst (λ k. In k (x ∷ xs)) (sym e) (prev-In s x xs b p)) in
    (
      same_next a (inl refl) inside ∙ fwd,
      same_prev x (inl refl) ∙ back,
      Linked-retarget s s' x xs b c distinct (λ k i. same_next k (inr i))
          (λ k i. same_prev k (inr i)) new_next new_prev p,
    )
