-- ===== src/RbTree/Descend.antt =====
-- The walk of `insert_node` from the root down to the place of the new node.
use lua_sharedtable.Base.{
  ℕ, zero, suc, ◌+◌, ◌≤◌, ◌≡◌, refl, sym, subst, ◌⊎◌, inl, inr, List, [], ◌∷◌, ◌++◌, arith, Bool,
  true, false, max, Option,
}
use lua_sharedtable.NodeList.Linked.{In, In-append}
use lua_sharedtable.RbTree.{Tree, Compare, is_negative, is_positive}
use lua_sharedtable.RbTree.Insertion.{Walk, refused, place, note}
use lua_sharedtable.RbTree.Shape.{
  Shape, tip, fork, Trail, top, in_left, in_right, inorder, around, before, behind, At, sink_left,
  sink_right,
}
use lua_sharedtable.RbTree.Balance.{IsBlack, Balanced, BlackAbove, Hole}
use lua_sharedtable.RbTree.Round.{depth}
use lua_sharedtable.RbTree.Order.{IsOrder, below, beyond, AllFrom, Sorted, Sorted-split}

abbrev pub height : Shape → ℕ
height tip = 0
height (fork c l x r) = suc (max (height l) (height r))

-- `k` may stand before the new node: it is not greater, and less if equals are not allowed.
abbrev pub Fits : Compare → (node allow_equal k : ℕ) → Type 0
Fits cmp node allow_equal k =
    (is_negative (cmp node k) ≡ false) × (allow_equal ≡ 0 → is_positive (cmp node k) ≡ true)

abbrev pub Before : Compare → (node allow_equal : ℕ) → List ℕ → Type 0
Before cmp node allow_equal xs = (k : ℕ) → In k xs → Fits cmp node allow_equal k

abbrev pub Behind : Compare → (node : ℕ) → List ℕ → Type 0
Behind cmp node xs = (k : ℕ) → In k xs → is_negative (cmp node k) ≡ true

-- A subtree in a tree of order `xs` and height at most `limit`, where the new node belongs.
pub record Spot (cmp : Compare) (h : Tree) (node allow_equal : ℕ) (xs : List ℕ) (limit : ℕ)
    (up : Trail) (p a : ℕ) (t : Shape) : Type 0 where
  pub at : At h up p a t
  pub n : ℕ
  pub hole : Hole up n
  pub balanced : Balanced t n
  pub joint : IsBlack t ⊎ BlackAbove up
  pub low : Before cmp node allow_equal (before up)
  pub high : Behind cmp node (behind up)
  pub sorted : Sorted cmp (inorder t)
  pub order : around up (inorder t) ≡ xs
  pub reach : depth up + height t ≤ limit

-- The last step of the walk led to this subtree.
abbrev pub EndsAt : (q : ℕ) → (on_left : Bool) → Trail → Type 0
EndsAt q on_left top = ⊥
EndsAt q on_left (in_left c x r up) = (q ≡ x) × (on_left ≡ true)
EndsAt q on_left (in_right c l x up) = (q ≡ x) × (on_left ≡ false)

-- The new node is neither less nor greater than `k`.
abbrev pub IsEqual : Compare → (node k : ℕ) → Type 0
IsEqual cmp node k = (is_negative (cmp node k) ≡ false) × (is_positive (cmp node k) ≡ false)

-- `*existed_node` is as it was, or an equal node.
abbrev pub Noted : Compare → (node : ℕ) → List ℕ → (old new : Option ℕ) → Type 0
Noted cmp node xs old new =
    (new ≡ old) ⊎ ((k : ℕ) × In k xs × IsEqual cmp node k × (new ≡ note old k))

-- What the walk finds.
abbrev pub Landed :
    Compare → Tree → (node allow_equal : ℕ) → List ℕ → (limit : ℕ) → Option ℕ → Walk → Type 0
Landed cmp h node allow_equal xs limit existed (refused seen) =
    (allow_equal ≡ 0) × ((k : ℕ) × In k xs × IsEqual cmp node k × (seen ≡ note existed k))
Landed cmp h node allow_equal xs limit existed (place seen q on_left) =
    Noted cmp node xs existed seen
    × ((up : Trail) × (a : ℕ) × EndsAt q on_left up
        × Spot cmp h node allow_equal xs limit up q a tip)

module _ (cmp : Compare) (laws : IsOrder cmp) (h : Tree) (node allow_equal : ℕ) (xs : List ℕ)
    (limit : ℕ) where
  abbrev pub Here : (up : Trail) (p a : ℕ) (t : Shape) → Type 0
  Here up p a t = Spot cmp h node allow_equal xs limit up p a t

  high-in_left :
      (up : Trail) (c x : ℕ) (r : Shape)
      → Behind cmp node (behind up)
      → AllFrom cmp x (inorder r)
      → is_negative (cmp node x) ≡ true
      → Behind cmp node (behind (in_left c x r up))
  high-in_left up c x r high first less k (inl e) = rw e less
  high-in_left up c x r high first less k (inr i) = elim (In-append k (inorder r) (behind up) i) [
    | inl j ↦ below laws node x k less (first k j)
    | inr j ↦ high k j
  ]

  low-in_right :
      (up : Trail) (c x : ℕ) (l : Shape)
      → Before cmp node allow_equal (before up)
      → ((k : ℕ) → In k (inorder l) → is_negative (cmp x k) ≡ false)
      → Fits cmp node allow_equal x
      → Before cmp node allow_equal (before (in_right c l x up))
  low-in_right up c x l low last (not_less, more) k i =
      elim (In-append k (before up) (inorder l ++ (x ∷ [])) i) [
        | inl j ↦ low k j
        | inr j ↦ elim (In-append k (inorder l) (x ∷ []) j) [
          | inl at_l ↦ (
            laws.from node x k not_less (last k at_l),
            λ strict. beyond laws node x k (more strict) (last k at_l),
          )
          | inr (inl e) ↦ subst (λ k. Fits cmp node allow_equal k) (sym e) (not_less, more)
          | inr (inr f) ↦ absurd f
        ]
      ]

  pub down_left :
      (up : Trail) (p a c : ℕ) (l : Shape) (x : ℕ) (r : Shape)
      → Here up p a (fork c l x r)
      → is_negative (cmp node x) ≡ true
      → Here (in_left c x r up) x (h.left x) l
  down_left up p a zero l x r s less =
      let (m, e, bl, br) = s.balanced in
      let (sl, (first, sr), between) = Sorted-split cmp (inorder l) (x ∷ inorder r) s.sorted in
      record {
        at = sink_left s.at;
        n = m;
        hole = (br, subst (λ n. Hole up n) e s.hole);
        balanced = bl;
        joint = inr refl;
        low = s.low;
        high = high-in_left up 0 x r s.high first less;
        sorted = sl;
        order = s.order;
        reach = let z = s.reach in omega arith;
      }
  down_left up p a (suc c) l x r s less =
      let (l_black, r_black, bl, br) = s.balanced in
      let (sl, (first, sr), between) = Sorted-split cmp (inorder l) (x ∷ inorder r) s.sorted in
      let above : BlackAbove up = elim s.joint [ inl e ↦ absurd (omega (arith, e)) | inr b ↦ b ] in
      record {
        at = sink_left s.at;
        n = s.n;
        hole = (br, r_black, above, s.hole);
        balanced = bl;
        joint = inl l_black;
        low = s.low;
        high = high-in_left up (suc c) x r s.high first less;
        sorted = sl;
        order = s.order;
        reach = let z = s.reach in omega arith;
      }

  pub down_right :
      (up : Trail) (p a c : ℕ) (l : Shape) (x : ℕ) (r : Shape)
      → Here up p a (fork c l x r)
      → Fits cmp node allow_equal x
      → Here (in_right c l x up) x (h.right x) r
  down_right up p a zero l x r s fits =
      let (m, e, bl, br) = s.balanced in
      let (sl, (first, sr), between) = Sorted-split cmp (inorder l) (x ∷ inorder r) s.sorted in
      record {
        at = sink_right s.at;
        n = m;
        hole = (bl, subst (λ n. Hole up n) e s.hole);
        balanced = br;
        joint = inr refl;
        low = low-in_right up 0 x l s.low (λ k i. between k x i (inl refl)) fits;
        high = s.high;
        sorted = sr;
        order = s.order;
        reach = let z = s.reach in omega arith;
      }
  down_right up p a (suc c) l x r s fits =
      let (l_black, r_black, bl, br) = s.balanced in
      let (sl, (first, sr), between) = Sorted-split cmp (inorder l) (x ∷ inorder r) s.sorted in
      let above : BlackAbove up = elim s.joint [ inl e ↦ absurd (omega (arith, e)) | inr b ↦ b ] in
      record {
        at = sink_right s.at;
        n = s.n;
        hole = (bl, l_black, above, s.hole);
        balanced = br;
        joint = inl r_black;
        low = low-in_right up (suc c) x l s.low (λ k i. between k x i (inl refl)) fits;
        high = s.high;
        sorted = sr;
        order = s.order;
        reach = let z = s.reach in omega arith;
      }
