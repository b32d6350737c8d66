-- ===== src/RbTree/Order.antt =====
-- What rbtree.c relies on of the callback `cmp`, and the order of the nodes.
use lua_sharedtable.Base.{
  ℕ, ◌≡◌, refl, sym, ◌∙◌, arith, Bool-cases, inl, inr, List, [], ◌∷◌, ◌++◌, true, false,
}
use lua_sharedtable.NodeList.Linked.{In, In-append, append-In}
use lua_sharedtable.RbTree.{Compare, is_negative, is_positive}

-- `cmp` is a total preorder: neither less nor greater counts as equal.
pub record IsOrder (cmp : Compare) : Type 0 where
  pub from :
      (n x k : ℕ)
      → is_negative (cmp n x) ≡ false
      → is_negative (cmp x k) ≡ false
      → is_negative (cmp n k) ≡ false
  pub turn : (n k : ℕ) → is_negative (cmp n k) ≡ true → is_negative (cmp k n) ≡ false
  pub flip : (n k : ℕ) → is_positive (cmp n k) ≡ is_negative (cmp k n)

pub below :
    {cmp : Compare} (laws : IsOrder cmp) (n x k : ℕ)
    → is_negative (cmp n x) ≡ true
    → is_negative (cmp k x) ≡ false
    → is_negative (cmp n k) ≡ true
below {cmp} laws n x k less h = elim (Bool-cases (is_negative (cmp n k))) [
  | inl e ↦ e
  | inr e ↦ absurd (ground (arith, less, laws.from n k x e h))
]

pub beyond :
    {cmp : Compare} (laws : IsOrder cmp) (n x k : ℕ)
    → is_positive (cmp n x) ≡ true
    → is_negative (cmp x k) ≡ false
    → is_positive (cmp n k) ≡ true
beyond {cmp} laws n x k more h =
    let less : is_negative (cmp x n) ≡ true = sym (laws.flip n x) ∙ more in
    laws.flip n k ∙ (elim (Bool-cases (is_negative (cmp k n))) [
      | inl e ↦ e
      | inr e ↦ absurd (ground (arith, less, laws.from x k n h e))
    ])

module _ (cmp : Compare) where
  abbrev pub AllFrom : (x : ℕ) → List ℕ → Type 0
  AllFrom x xs = (k : ℕ) → In k xs → is_negative (cmp k x) ≡ false

  -- No node is less than one before it.
  abbrev pub Sorted : List ℕ → Type 0
  Sorted [] = Unit {0}
  Sorted (x ∷ xs) = AllFrom x xs × Sorted xs

  abbrev pub InOrder : List ℕ → List ℕ → Type 0
  InOrder xs ys = (a b : ℕ) → In a xs → In b ys → is_negative (cmp b a) ≡ false

  pub Sorted-split : (xs ys : List ℕ) → Sorted (xs ++ ys) → Sorted xs × Sorted ys × InOrder xs ys
  Sorted-split [] ys s = (tt, s, λ a b i j. absurd i)
  Sorted-split (x ∷ xs) ys (first, s) =
      let (left, right, between) = Sorted-split xs ys s in
      (
        ((λ k i. first k (append-In k xs ys (inl i))), left),
        right,
        λ a b i j. elim i [
          | inl e ↦ rw e (first b (append-In b xs ys (inr j)))
          | inr i ↦ between a b i j
        ],
      )

  pub Sorted-append : (xs ys : List ℕ) → Sorted xs → Sorted ys → InOrder xs ys → Sorted (xs ++ ys)
  Sorted-append [] ys a b between = b
  Sorted-append (x ∷ xs) ys (first, a) b between = (
    (λ k i. elim (In-append k xs ys i) [ inl l ↦ first k l | inr r ↦ between x k (inl refl) r ]),
    Sorted-append xs ys a b (λ p q i j. between p q (inr i) j),
  )
