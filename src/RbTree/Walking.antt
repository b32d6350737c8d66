-- ===== src/RbTree/Walking.antt =====
-- The walk of `insert_node` ends, and where.
use lua_sharedtable.Base.{
  ℕ, zero, suc, ◌≤◌, ◌≡◌, ◌≢◌, refl, sym, ap, ap₂, ◌∙◌, subst, inl, inr, List, ◌∷◌, ◌++◌, arith,
  Bool, true, false, ◌==◌, ==_iff, max, Option, none, some, Run, done,
}
use lua_sharedtable.NodeList.Linked.{In, append-In}
use lua_sharedtable.RbTree.{Tree, Compare, is_negative, is_positive}
use lua_sharedtable.RbTree.Insertion.{Walk, walk, walk_step, note, child}
use lua_sharedtable.RbTree.Shape.{
  Shape, tip, fork, Trail, in_left, in_right, inorder, around_eq, before, behind,
}
use lua_sharedtable.RbTree.Order.{IsOrder}
use lua_sharedtable.RbTree.Descend.{
  height, Spot, EndsAt, IsEqual, Noted, Landed, down_left, down_right,
}

module _ (cmp : Compare) (laws : IsOrder cmp) (h : Tree) (node allow_equal : ℕ) (xs : List ℕ)
    (limit : ℕ) where
  abbrev pub Here : (up : Trail) (p a : ℕ) (t : Shape) → Type 0
  Here up p a t = Spot cmp h node allow_equal xs limit up p a t

  -- One step of the walk, by what it finds at `curr`.
  abbrev onward : (seen : Option ℕ) (fuel curr : ℕ) (on_left : Bool) → Run Walk
  onward seen fuel curr on_left = elim (child h curr on_left == h.sentinel) [
    | true ↦ done (Walk.place seen curr on_left)
    | false ↦ walk cmp h node allow_equal fuel seen (child h curr on_left)
  ]

  walk_eq :
      (existed : Option ℕ) (fuel curr : ℕ) (is_less is_more : Bool)
      → is_negative (cmp node curr) ≡ is_less
      → is_positive (cmp node curr) ≡ is_more
      → walk cmp h node allow_equal (suc fuel) existed curr
        ≡ walk_step h allow_equal existed curr (walk cmp h node allow_equal fuel) is_less is_more
  unfolding walk
  walk_eq existed fuel curr is_less is_more e e' =
      ap₂ (walk_step h allow_equal existed curr (walk cmp h node allow_equal fuel)) e e'

  -- From a node whose side is known, the walk goes to the child on that side.
  abbrev pub Reaches : (w : Run Walk) (existed : Option ℕ) → Type 0
  Reaches w existed =
      (found : Walk) × (w ≡ done found) × Landed cmp h node allow_equal xs limit existed found

  allowed_eq :
      (seen : Option ℕ) (fuel x : ℕ)
      → (allow_equal == 0) ≡ false
      → walk_step h allow_equal seen x (walk cmp h node allow_equal fuel) false false
        ≡ onward (note seen x) fuel x false
  allowed_eq seen fuel x allowed = rw (allowed, walk_step) refl

  abbrev pub Walks : Shape → Type 0
  Walks t =
      (up : Trail) (p a fuel : ℕ) (seen existed : Option ℕ)
      → Here up p a t
      → a ≢ h.sentinel
      → height t ≤ fuel
      → Noted cmp node xs existed seen
      → Reaches (walk cmp h node allow_equal fuel seen a) existed

  enter :
      (up : Trail) (q b : ℕ) (s : Shape) (fuel : ℕ) (seen existed : Option ℕ) (on_left : Bool)
      → child h q on_left ≡ b
      → EndsAt q on_left up
      → Here up q b s
      → Noted cmp node xs existed seen
      → height s ≤ fuel
      → Walks s
      → Reaches (onward seen fuel q on_left) existed
  enter up q b tip fuel seen existed on_left at ends spot noted enough rest =
      let end : (child h q on_left == h.sentinel) ≡ true =
        (==_iff (child h q on_left) h.sentinel).1 (at ∙ spot.at.holds) in
      (Walk.place seen q on_left, rw (end, onward) refl, (noted, (up, b, ends, spot)))
  enter up q b (fork c l x r) fuel seen existed on_left at ends spot noted enough rest =
      let real : b ≢ h.sentinel = λ e. (spot.at.holds.1) (sym (spot.at.holds.0) ∙ e) in
      let inner : (child h q on_left == h.sentinel) ≡ false = ground arith in
      let (found, run, landed) = rest up q b fuel seen existed spot real enough noted in
      (found, rw (inner, onward) (ap (walk cmp h node allow_equal fuel seen) at ∙ run), landed)

  note-note : (o : Option ℕ) (a b : ℕ) → note (note o a) b ≡ note o b
  note-note none a b = refl
  note-note (some c) a b = refl

  note-Noted :
      (existed seen : Option ℕ) (x : ℕ)
      → In x xs
      → IsEqual cmp node x
      → Noted cmp node xs existed seen
      → note seen x ≡ note existed x
  note-Noted existed seen x i same (inl e) = ap (λ o. note o x) e
  note-Noted existed seen x i same (inr (k, _, _, e)) = ap (λ o. note o x) e ∙ note-note existed k x

  spot-In :
      (up : Trail) (p a c : ℕ) (l : Shape) (x : ℕ) (r : Shape)
      → Here up p a (fork c l x r)
      → In x xs
  spot-In up p a c l x r s =
      subst (λ ys. In x ys) (sym (around_eq up (inorder (fork c l x r))) ∙ s.order)
        (append-In x (before up) (inorder (fork c l x r) ++ behind up) (
          inr (
            append-In x (inorder (fork c l x r)) (behind up)
              (inl (append-In x (inorder l) (x ∷ inorder r) (inr (inl refl)))))))

  -- A round of the walk, by the two answers of `cmp` and whether equals are allowed.
  round :
      (c : ℕ) (l : Shape) (x : ℕ) (r : Shape) (up : Trail) (p a fuel : ℕ) (seen existed : Option ℕ)
      (is_less is_more is_strict : Bool)
      → is_negative (cmp node x) ≡ is_less
      → is_positive (cmp node x) ≡ is_more
      → (allow_equal == 0) ≡ is_strict
      → Here up p a (fork c l x r)
      → max (height l) (height r) ≤ fuel
      → Noted cmp node xs existed seen
      → Walks l
      → Walks r
      → Reaches
          (walk_step h allow_equal seen x (walk cmp h node allow_equal fuel) is_less is_more)
          existed
  round c l x r up p a fuel seen existed true m b less more strict s enough noted ih_l ih_r =
      enter (in_left c x r up) x (h.left x) l fuel seen existed true refl (refl, refl)
        (down_left cmp laws h node allow_equal xs limit up p a c l x r s less) noted (omega arith)
        ih_l
  round c l x r up p a fuel seen existed false true b less more strict s enough noted ih_l ih_r =
      enter (in_right c l x up) x (h.right x) r fuel seen existed false refl (refl, refl)
        (down_right cmp laws h node allow_equal xs limit up p a c l x r s (less, λ e. more)) noted
        (omega arith) ih_r
  round c l x r up p a fuel seen existed false false true less more strict s enough noted ih_l
        ih_r =
      let here = spot-In up p a c l x r s in
      (
        Walk.refused (note seen x),
        rw (strict, walk_step) refl,
        (
          (==_iff allow_equal 0).0 strict,
          (x, here, (less, more), note-Noted existed seen x here (less, more) noted),
        ),
      )
  round c l x r up p a fuel seen existed false false false less more strict s enough noted ih_l
        ih_r =
      let here = spot-In up p a c l x r s in
      let allowed : allow_equal ≢ 0 =
        λ e. let t = (==_iff allow_equal 0).1 e in absurd (ground (arith, strict, t)) in
      subst (λ w. Reaches w existed) (sym (allowed_eq seen fuel x strict))
        (enter (in_right c l x up) x (h.right x) r fuel (note seen x) existed false refl
          (refl, refl)
          (down_right cmp laws h node allow_equal xs limit up p a c l x r s
            (less, λ e. absurd (allowed e)))
          (inr (x, here, (less, more), note-Noted existed seen x here (less, more) noted))
          (omega arith) ih_r)

  -- With as much fuel as the tree is high, the walk ends at a place for the node, or at an equal
  -- one that is not allowed.
  pub walk-Landed : (t : Shape) → Walks t
  walk-Landed tip up p a fuel seen existed s real enough noted = absurd (real s.at.holds)
  walk-Landed (fork c l x r) up p a zero seen existed s real enough noted = absurd (omega arith)
  walk-Landed (fork c l x r) up p a (suc fuel) seen existed s real enough noted =
      subst (λ k. Reaches (walk cmp h node allow_equal (suc fuel) seen k) existed)
        (sym (s.at.holds.0))
        (subst (λ w. Reaches w existed)
          (sym
            (walk_eq seen fuel x (is_negative (cmp node x)) (is_positive (cmp node x)) refl refl))
          (round c l x r up p a fuel seen existed (is_negative (cmp node x))
            (is_positive (cmp node x)) (allow_equal == 0) refl refl refl s (omega arith) noted
            (walk-Landed l) (walk-Landed r)))
