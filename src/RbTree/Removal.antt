-- ===== src/RbTree/Removal.antt =====
-- `delete_node`, by the children of the node.
use mathlib.Core.List.{append_assoc}
use lua_sharedtable.Base.{
  ℕ, ◌+◌, ◌<◌, ◌≡◌, ◌≢◌, refl, sym, ap, ◌∙◌, subst, inl, inr, List, [], ◌∷◌, ◌++◌, arith, true,
  false, ◌==◌, ==_iff, done,
}
use lua_sharedtable.NodeList.Linked.{In, append_nil, append-In}
use lua_sharedtable.RbTree.{Tree, left_most_loop}
use lua_sharedtable.RbTree.Deletion.{successor, unlink}
use lua_sharedtable.RbTree.Shape.{
  Shape, tip, fork, Trail, in_right, plug, inorder, inorder-plug, around, around_eq, before, behind,
  Holds, At, sink_right, Distinct-around,
}
use lua_sharedtable.RbTree.Frame.{Distinct-fork}
use lua_sharedtable.RbTree.Rotate.{Holds-start}
use lua_sharedtable.RbTree.Balance.{IsBlack, Balanced}
use lua_sharedtable.RbTree.Round.{depth}
use lua_sharedtable.RbTree.Descend.{height}
use lua_sharedtable.RbTree.Ends.{first_or, left_most_loop-first}
use lua_sharedtable.RbTree.Locate.{unplug-Balanced}
use lua_sharedtable.RbTree.Inner.{
  extend, plug-extend, depth-extend, end_parent, unzip, First, first,
}
use lua_sharedtable.RbTree.Single.{Unlinked, single-Unlinked}
use lua_sharedtable.RbTree.Double.{double-Unlinked}

module _ (h : Tree) (z fuel : ℕ) where
  successor_left : h.left z ≡ h.sentinel → successor h z fuel ≡ done (z, h.right z)
  unfolding successor
  successor_left e =
      let test : (h.left z == h.sentinel) ≡ true = (==_iff (h.left z) h.sentinel).1 e in
      rw (test, successor) refl

  successor_right :
      h.left z ≢ h.sentinel → h.right z ≡ h.sentinel → successor h z fuel ≡ done (z, h.left z)
  unfolding successor
  successor_right ne e =
      let left : (h.left z == h.sentinel) ≡ false = ground arith in
      let test : (h.right z == h.sentinel) ≡ true = (==_iff (h.right z) h.sentinel).1 e in
      rw (left, test, successor) refl

  successor_both :
      (s : ℕ)
      → h.left z ≢ h.sentinel
      → h.right z ≢ h.sentinel
      → left_most_loop h fuel (h.right z) ≡ done s
      → successor h z fuel ≡ done (s, h.right s)
  unfolding successor
  successor_both s ne ne' run =
      let left : (h.left z == h.sentinel) ≡ false = ground arith in
      let right : (h.right z == h.sentinel) ≡ false = ground arith in
      rw (left, right, successor, run) refl

-- The node is taken out, before the loop.
abbrev pub Gone : Tree → (z fuel : ℕ) → (xs : List ℕ) → Type 0
Gone h z fuel xs =
    (s : ℕ) × (child : ℕ) × (successor h z fuel ≡ done (s, child))
    × Unlinked (unlink z s child h).0 (unlink z s child h).1 xs fuel

start-real :
    (h : Tree) (q a : ℕ) (t : Shape) → Holds h q a t → h.sentinel ≢ 0 → ¬ In 0 (inorder t) → a ≢ 0
start-real h q a t holds real no_null e = elim (Holds-start h q a t holds) [
  | inl end ↦ real (sym end ∙ e)
  | inr i ↦ no_null (subst (λ k. In k (inorder t)) e i)
]

start-other :
    (h : Tree) (q a z : ℕ) (t : Shape) → Holds h q a t → z ≢ h.sentinel → ¬ In z (inorder t) → a ≢ z
start-other h q a z t holds real out e = elim (Holds-start h q a t holds) [
  | inl end ↦ real (sym e ∙ end)
  | inr i ↦ out (subst (λ k. In k (inorder t)) e i)
]

fork-real :
    (h : Tree) (q a c : ℕ) (l : Shape) (x : ℕ) (r : Shape)
    → Holds h q a (fork c l x r)
    → a ≢ h.sentinel
fork-real h q a c l x r holds e = holds.1 (sym (holds.0) ∙ e)

pub In-plug : (k : ℕ) (i : Trail) (t : Shape) → In k (inorder t) → In k (inorder (plug i t))
In-plug k i t j = subst (In k) (sym (inorder-plug i t ∙ around_eq i (inorder t))) (
    append-In k (before i) (inorder t ++ behind i)
      (inr (append-In k (inorder t) (behind i) (inl j))))

-- The parts of the tree around the node.
pub record Removal (h : Tree) (z fuel : ℕ) (up : Trail) (c : ℕ) (l r : Shape) : Type 0 where
  pub p : ℕ
  pub m : ℕ
  pub at : At h up p z (fork c l z r)
  pub balanced : Balanced (plug up (fork c l z r)) m
  pub is_black : IsBlack (plug up (fork c l z r))
  pub no_null : ¬ In 0 (inorder (fork c l z r))
  pub real : h.sentinel ≢ 0
  pub enough : depth up + height (fork c l z r) < fuel

right-Gone :
    (h : Tree) (z fuel : ℕ) (up : Trail) (c : ℕ) (r : Shape)
    → Removal h z fuel up c tip r
    → Gone h z fuel (around up (inorder r))
right-Gone h z fuel up c r m =
    let w = m.at in
    let (n, hole, b, _) = unplug-Balanced up (fork c tip z r) m.m m.balanced m.is_black in
    let (d, _, _) = Distinct-around up (inorder (fork c tip z r)) w.distinct in
    let left = w.holds.4 in
    let right = w.holds.5 in
    (
      z,
      h.right z,
      successor_left h z fuel left,
      single-Unlinked h m.p c tip z r r (h.right z) n fuel (inl (refl, refl)) right (λ k j. inr j) b
          (start-real h z (h.right z) r right m.real (λ j. m.no_null (inr j)))
          (start-other h z (h.right z) z r right (w.holds.1) (d.0)) up (before up)
          (inorder r ++ behind up) w (around_eq up (z ∷ inorder r)) (around_eq up (inorder r)) hole
          (let e = m.enough in omega arith),
    )

left-Gone :
    (h : Tree) (z fuel : ℕ) (up : Trail) (c c' : ℕ) (l' : Shape) (x' : ℕ) (r' : Shape)
    → Removal h z fuel up c (fork c' l' x' r') tip
    → Gone h z fuel (around up (inorder (fork c' l' x' r')))
left-Gone h z fuel up c c' l' x' r' m =
    let l = fork c' l' x' r' in
    let w = m.at in
    let (n, hole, b, _) = unplug-Balanced up (fork c l z tip) m.m m.balanced m.is_black in
    let (d, _, _) = Distinct-around up (inorder (fork c l z tip)) w.distinct in
    let (_, _, out, _, _) = Distinct-fork c l z tip d in
    let left = w.holds.4 in
    let right = w.holds.5 in
    let inside : (k : ℕ) → In k (inorder l) → In k (inorder l ++ (z ∷ [])) =
      λ k j. append-In k (inorder l) (z ∷ []) (inl j) in
    (
      z,
      h.left z,
      successor_right h z fuel (fork-real h z (h.left z) c' l' x' r' left) right,
      single-Unlinked h m.p c l z tip l (h.left z) n fuel (inr (refl, refl)) left inside b
          (start-real h z (h.left z) l left m.real (λ j. m.no_null (inside 0 j)))
          (start-other h z (h.left z) z l left (w.holds.1) out) up (before up ++ inorder l)
          (behind up) w (around_eq up (inorder l ++ (z ∷ [])) ∙ simp append_assoc)
          (around_eq up (inorder l) ∙ sym (append_assoc (before up) (inorder l) (behind up))) hole
          (let e = m.enough in omega arith),
    )

both-Gone :
    (h : Tree) (z fuel : ℕ) (up : Trail) (c : ℕ) (l r : Shape)
    → Removal h z fuel up c l r
    → h.left z ≢ h.sentinel
    → h.right z ≢ h.sentinel
    → First r
    → Gone h z fuel (around up (inorder l ++ inorder r))
both-Gone h z fuel up c l r m left right f =
    let i = f.inner in
    let y = f.y in
    let tail = fork f.color tip y f.r in
    let U = extend i (in_right c l z up) in
    let w0 : At h (in_right c l z up) z (h.right z) (plug i tail) =
      subst (λ t. At h (in_right c l z up) z (h.right z) t) (sym f.whole) (sink_right m.at) in
    let (b, u) = unzip {t = tail} i w0 in
    let w : At h U (end_parent i z) y tail =
      subst (λ a. At h U (end_parent i z) a tail) (u.holds.0) u in
    let same : plug U tail ≡ plug up (fork c l z r) =
      plug-extend i (in_right c l z up) tail ∙ ap (λ t. plug up (fork c l z t)) f.whole in
    let (n, hole, bal, _) =
      unplug-Balanced U tail m.m (subst (λ t. Balanced t m.m) (sym same) m.balanced)
        (subst IsBlack (sym same) m.is_black) in
    let order : around i (y ∷ inorder f.r) ≡ y ∷ inorder (plug i f.r) =
      sym (inorder-plug i tail) ∙ (ap inorder f.whole ∙ sym f.order) in
    let run : left_most_loop h fuel (h.right z) ≡ done y =
      left_most_loop-first r h z (h.right z) fuel 0 (m.at.holds.5) right
        (let e = m.enough in omega arith)
      ∙ ap (λ xs. done (first_or 0 xs)) (sym f.order) in
    let no_null : ¬ In 0 (inorder f.r) = λ j. m.no_null (
      append-In 0 (inorder l) (z ∷ inorder r) (
        inr (
          inr (
            subst (In 0) (ap inorder f.whole)
              (subst (In 0) (sym (inorder-plug i tail ∙ order)) (inr (In-plug 0 i f.r j))))))) in
    let deep = depth-extend i (in_right c l z up) in
    (
      y,
      h.right y,
      successor_both h z fuel y left right run,
      subst
          (λ xs.
            Unlinked (unlink z y (h.right y) h).0 (unlink z y (h.right y) h).1
              (around up (inorder l ++ xs)) fuel)
          f.order
          (double-Unlinked h up m.p c l z i f.color y f.r w order n fuel bal hole
            (start-real h y (h.right y) f.r (w.holds.5) m.real no_null)
            (let e = m.enough in let e' = f.reach in omega arith)),
    )

pub pick-Gone :
    (h : Tree) (z fuel : ℕ) (up : Trail) (c : ℕ) (l r : Shape)
    → Removal h z fuel up c l r
    → Gone h z fuel (around up (inorder l ++ inorder r))
pick-Gone h z fuel up c tip r m = right-Gone h z fuel up c r m
pick-Gone h z fuel up c (fork c' l' x' r') tip m =
    subst (λ xs. Gone h z fuel (around up xs)) (sym (append_nil (inorder (fork c' l' x' r'))))
      (left-Gone h z fuel up c c' l' x' r' m)
pick-Gone h z fuel up c (fork c' l' x' r') (fork c'' l'' x'' r'') m =
    both-Gone h z fuel up c (fork c' l' x' r') (fork c'' l'' x'' r'') m
      (fork-real h z (h.left z) c' l' x' r' (m.at.holds.4))
      (fork-real h z (h.right z) c'' l'' x'' r'' (m.at.holds.5)) (first c'' l'' x'' r'')
