-- ===== src/RbTree/Frame.antt =====
-- What a tree and a path need of the memory, after a write to nodes elsewhere, to the parent of
-- the tree, or to the pointer that holds it.
use lua_sharedtable.Base.{ℕ, ◌≡◌, ◌≢◌, refl, sym, ◌∙◌, subst, ◌⊎◌, inl, inr, ◌∷◌, ◌++◌}
use lua_sharedtable.NodeList.Linked.{In, Distinct, In-apart, append-In, Distinct-split}
use lua_sharedtable.RbTree.{Tree}
use lua_sharedtable.RbTree.Shape.{
  Shape, tip, fork, Trail, top, in_left, in_right, inorder, outer, Holds, Above,
}

-- Two memories agree on a node.
abbrev pub Same : (h h' : Tree) (k : ℕ) → Type 0
Same h h' k =
    (h'.left k ≡ h.left k)
    × (h'.right k ≡ h.right k)
    × (h'.parent k ≡ h.parent k)
    × (h'.color k ≡ h.color k)

pub Holds-frame :
    (h h' : Tree) (p a : ℕ) (t : Shape)
    → ((k : ℕ) → In k (inorder t) → Same h h' k)
    → h'.sentinel ≡ h.sentinel
    → Holds h p a t
    → Holds h' p a t
Holds-frame h h' p a tip same end e = e ∙ sym end
Holds-frame h h' p a (fork c l x r) same end (here, real, par, col, left, right) =
    let (ls, rs, ps, cs) = same x (append-In x (inorder l) (x ∷ inorder r) (inr (inl refl))) in
    (
      here,
      (λ e. real (e ∙ end)),
      ps ∙ par,
      cs ∙ col,
      subst (λ k. Holds h' x k l) (sym ls)
          (Holds-frame h h' x (h.left x) l
            (λ k i. same k (append-In k (inorder l) (x ∷ inorder r) (inl i))) end left),
      subst (λ k. Holds h' x k r) (sym rs)
          (Holds-frame h h' x (h.right x) r
            (λ k i. same k (append-In k (inorder l) (x ∷ inorder r) (inr (inr i)))) end right),
    )

-- The nodes of a fork are distinct.
pub Distinct-fork :
    (c : ℕ) (l : Shape) (x : ℕ) (r : Shape)
    → Distinct (inorder (fork c l x r))
    → Distinct (inorder l)
      × Distinct (inorder r)
      × (¬ In x (inorder l))
      × (¬ In x (inorder r))
      × ((k : ℕ) → In k (inorder l) → ¬ In k (inorder r))
Distinct-fork c l x r d =
    let (left, right, sides) = Distinct-split (inorder l) (x ∷ inorder r) d in
    (left, right.1, (λ i. sides x i (inl refl)), right.0, λ k i j. sides k i (inr j))

-- The parent of a tree becomes `q`.
pub Holds-adopt :
    (h h' : Tree) (p q a : ℕ) (t : Shape)
    → ((k : ℕ) → In k (inorder t) → (h'.left k ≡ h.left k) × (h'.right k ≡ h.right k))
    → ((k : ℕ) → In k (inorder t) → k ≢ a → h'.parent k ≡ h.parent k)
    → ((k : ℕ) → In k (inorder t) → h'.color k ≡ h.color k)
    → (a ≢ h.sentinel → h'.parent a ≡ q)
    → h'.sentinel ≡ h.sentinel
    → Distinct (inorder t)
    → Holds h p a t
    → Holds h' q a t
Holds-adopt h h' p q a tip sides par col new end d e = e ∙ sym end
Holds-adopt h h' p q a (fork c l x r) sides par col new end d (here, real, _, c_eq, left, right) =
    let mid : In x (inorder (fork c l x r)) =
      append-In x (inorder l) (x ∷ inorder r) (inr (inl refl)) in
    let (dl, dr, xl, xr, apart) = Distinct-fork c l x r d in
    (
      here,
      (λ e. real (e ∙ end)),
      subst (λ k. h'.parent k ≡ q) here (new (λ e. real (sym here ∙ e))),
      col x mid ∙ c_eq,
      subst (λ k. Holds h' x k l) (sym ((sides x mid).0))
          (Holds-frame h h' x (h.left x) l
            (λ k i.
              let j : In k (inorder (fork c l x r)) =
                append-In k (inorder l) (x ∷ inorder r) (inl i) in
              (
                (sides k j).0,
                (sides k j).1,
                par k j (λ e. In-apart k x (inorder l) xl i (e ∙ here)),
                col k j,
              ))
            end left),
      subst (λ k. Holds h' x k r) (sym ((sides x mid).1))
          (Holds-frame h h' x (h.right x) r
            (λ k i.
              let j : In k (inorder (fork c l x r)) =
                append-In k (inorder l) (x ∷ inorder r) (inr (inr i)) in
              (
                (sides k j).0,
                (sides k j).1,
                par k j (λ e. In-apart k x (inorder r) xr i (e ∙ here)),
                col k j,
              ))
            end right),
    )

pub Above-frame :
    (h h' : Tree) (p a : ℕ) (up : Trail)
    → ((k : ℕ) → In k (outer up) → Same h h' k)
    → h'.sentinel ≡ h.sentinel
    → h'.root ≡ h.root
    → Above h p a up
    → Above h' p a up
Above-frame h h' p a top same end at_root e = at_root ∙ e
Above-frame h h' p a (in_left c x r up) same end at_root (e, at, real, col, other, above) =
    let (ls, rs, ps, cs) = same x (inl refl) in
    (
      e,
      ls ∙ at,
      (λ e. real (e ∙ end)),
      cs ∙ col,
      subst (λ k. Holds h' x k r) (sym rs)
          (Holds-frame h h' x (h.right x) r
            (λ k i. same k (inr (append-In k (inorder r) (outer up) (inl i)))) end other),
      subst (λ k. Above h' k x up) (sym ps)
          (Above-frame h h' (h.parent x) x up
            (λ k i. same k (inr (append-In k (inorder r) (outer up) (inr i)))) end at_root above),
    )
Above-frame h h' p a (in_right c l x up) same end at_root (e, at, real, col, other, above) =
    let (ls, rs, ps, cs) = same x (inl refl) in
    (
      e,
      rs ∙ at,
      (λ e. real (e ∙ end)),
      cs ∙ col,
      subst (λ k. Holds h' x k l) (sym ls)
          (Holds-frame h h' x (h.left x) l
            (λ k i. same k (inr (append-In k (inorder l) (outer up) (inl i)))) end other),
      subst (λ k. Above h' k x up) (sym ps)
          (Above-frame h h' (h.parent x) x up
            (λ k i. same k (inr (append-In k (inorder l) (outer up) (inr i)))) end at_root above),
    )

-- The pointer that a path ends in holds `b`: that of a node, or the root.
abbrev pub Filled : (h h' : Tree) (b : ℕ) → Trail → Type 0
Filled h h' b top = h'.root ≡ b
Filled h h' b (in_left c x r up) = (h'.root ≡ h.root) × (h'.left x ≡ b) × (h'.right x ≡ h.right x)
Filled h h' b (in_right c l x up) = (h'.root ≡ h.root) × (h'.right x ≡ b) × (h'.left x ≡ h.left x)

-- The node with that pointer.
abbrev pub Slot : Trail → (k : ℕ) → Type 0
Slot top k = ⊥
Slot (in_left c x r up) k = k ≡ x
Slot (in_right c l x up) k = k ≡ x

module _ (h h' : Tree) (p a b : ℕ) where
  pub Above-refill :
      (up : Trail)
      → Filled h h' b up
      → ((k : ℕ)
          → In k (outer up)
          → ¬ Slot up k
          → (h'.left k ≡ h.left k) × (h'.right k ≡ h.right k))
      → ((k : ℕ) → In k (outer up) → (h'.parent k ≡ h.parent k) × (h'.color k ≡ h.color k))
      → h'.sentinel ≡ h.sentinel
      → Distinct (outer up)
      → Above h p a up
      → Above h' p b up
  Above-refill top filled sides rest end d e = filled
  Above-refill (in_left c x r up) (at_root, filled, other_side) sides rest end (new, d)
        (e, at, real, col, other, above) =
      let same : (k : ℕ) → In k (inorder r) ⊎ In k (outer up) → Same h h' k = λ k i.
        let j = append-In k (inorder r) (outer up) i in
        let (ls, rs) = sides k (inr j) (λ e. new (subst (λ k. In k (inorder r ++ outer up)) e j)) in
        let (ps, cs) = rest k (inr j) in (ls, rs, ps, cs) in
      (
        e,
        filled,
        (λ e. real (e ∙ end)),
        (rest x (inl refl)).1 ∙ col,
        subst (λ k. Holds h' x k r) (sym other_side)
            (Holds-frame h h' x (h.right x) r (λ k i. same k (inl i)) end other),
        subst (λ k. Above h' k x up) (sym ((rest x (inl refl)).0))
            (Above-frame h h' (h.parent x) x up (λ k i. same k (inr i)) end at_root above),
      )
  Above-refill (in_right c l x up) (at_root, filled, other_side) sides rest end (new, d)
        (e, at, real, col, other, above) =
      let same : (k : ℕ) → In k (inorder l) ⊎ In k (outer up) → Same h h' k = λ k i.
        let j = append-In k (inorder l) (outer up) i in
        let (ls, rs) = sides k (inr j) (λ e. new (subst (λ k. In k (inorder l ++ outer up)) e j)) in
        let (ps, cs) = rest k (inr j) in (ls, rs, ps, cs) in
      (
        e,
        filled,
        (λ e. real (e ∙ end)),
        (rest x (inl refl)).1 ∙ col,
        subst (λ k. Holds h' x k l) (sym other_side)
            (Holds-frame h h' x (h.left x) l (λ k i. same k (inl i)) end other),
        subst (λ k. Above h' k x up) (sym ((rest x (inl refl)).0))
            (Above-frame h h' (h.parent x) x up (λ k i. same k (inr i)) end at_root above),
      )
