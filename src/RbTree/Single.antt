-- ===== src/RbTree/Single.antt =====
-- The deletion of a node that has at most one child.
use lua_sharedtable.Base.{
  ℕ, zero, suc, ◌<◌, ◌≡◌, ◌≢◌, refl, sym, ◌∙◌, subst, ◌⊎◌, inl, inr, List, ◌∷◌, ◌++◌, arith, Bool,
  true, false, ◌==◌, ==_iff, if◌then◌else◌, Bool-cases,
}
use lua_sharedtable.NodeList.Linked.{In, Distinct}
use lua_sharedtable.RbTree.{Tree, set_root, set_parent, black, is_red, is_left_child}
use lua_sharedtable.RbTree.Deletion.{bypass, splice, take_place, detach, delete_root, unlink}
use lua_sharedtable.RbTree.Shape.{
  Shape, tip, fork, Trail, top, in_left, in_right, plug, inorder, inorder-plug, around, Holds, At,
  zip,
}
use lua_sharedtable.RbTree.Frame.{Holds-frame}
use lua_sharedtable.RbTree.Paint.{paint-At}
use lua_sharedtable.RbTree.Balance.{
  IsBlack, Balanced, Hole, black-Joint, plug-Balanced, blacken-Balanced,
}
use lua_sharedtable.RbTree.Round.{depth}
use lua_sharedtable.RbTree.Loop.{RedBlack}
use lua_sharedtable.RbTree.Sibling.{Under}
use lua_sharedtable.RbTree.Shrink.{Almost, Short, Lacking}
use lua_sharedtable.RbTree.Rebalance.{plug-black, root-outer, root-left, root-right}
use lua_sharedtable.RbTree.Cut.{IsInner, OnlyChild, Distinct-drop, drop, bypass-At}
use lua_sharedtable.RbTree.Take.{detach-At}

-- What `delete_node` leaves: a red-black tree and null, or a tree that lacks a black node and where.
abbrev pub Unlinked : Tree → (at : ℕ) → (xs : List ℕ) → (bound : ℕ) → Type 0
Unlinked h at xs bound = ((at ≡ 0) × RedBlack h xs) ⊎ ((at ≢ 0) × Lacking h xs at bound)

Almost-Balanced : (t : Shape) (n : ℕ) → Balanced t n → Almost t n
Almost-Balanced tip n b = b
Almost-Balanced (fork zero l x r) n b = b
Almost-Balanced (fork (suc c) l x r) n (_, _, bl, br) = (bl, br)

depth-Short : (t : Shape) (up : Trail) (b : ℕ) → depth up < b → Short t up b
depth-Short tip up b s = s
depth-Short (fork zero l x r) up b s = s
depth-Short (fork (suc c) l x r) up b s = omega arith

only-Balanced :
    (l r t : Shape) (n : ℕ) → OnlyChild l r t → Balanced l n → Balanced r n → Balanced t n
only-Balanced l r t n (inl (_, e)) bl br = subst (λ t. Balanced t n) e br
only-Balanced l r t n (inr (_, e)) bl br = subst (λ t. Balanced t n) e bl

only-IsBlack : (l r t : Shape) → OnlyChild l r t → IsBlack l → IsBlack r → IsBlack t
only-IsBlack l r t (inl (_, e)) bl br = subst IsBlack e br
only-IsBlack l r t (inr (_, e)) bl br = subst IsBlack e bl

-- After a node of colour `c` is gone, with `t` in its place.
pub gone-Unlinked :
    (h : Tree) (up : Trail) (q child c : ℕ) (l : Shape) (y : ℕ) (r t : Shape) (n bound : ℕ)
    (has_red : Bool)
    → Under h up q child t
    → OnlyChild l r t
    → Balanced (fork c l y r) n
    → Hole up n
    → has_red ≡ (if c == 0 then false else true)
    → child ≢ 0
    → depth up < bound
    → Unlinked h (if has_red then 0 else child) (around up (inorder t)) bound
gone-Unlinked h up q child zero l y r t n bound has_red u only (m, e, bl, br) hole test real near =
    subst (λ b. Unlinked h (if b then 0 else child) (around up (inorder t)) bound) (sym test)
      (inr (
        real,
        record {
          up = up;
          p = q;
          t = t;
          n = m;
          under = u;
          almost = Almost-Balanced t m (only-Balanced l r t m only bl br);
          hole = subst (Hole up) e hole;
          order = refl;
          short = depth-Short t up bound near;
        },
      ))
gone-Unlinked h up q child (suc c) l y r t n bound has_red u only (lb, rb, bl, br) hole test real
      near =
    let is = only-IsBlack l r t only lb rb in
    let (m, balanced) =
      plug-Balanced up t n hole (black-Joint up t is) (only-Balanced l r t n only bl br) in
    let is_true : has_red ≡ true = ground (arith, test) in
    subst (λ b. Unlinked h (if b then 0 else child) (around up (inorder t)) bound) (sym is_true)
      (inl (
        refl,
        record {
          shape = plug up t;
          n = m;
          place = zip up u.at;
          is_black = plug-black up t n hole (inl is);
          balanced = balanced;
          order = inorder-plug up t;
        },
      ))

pub bypass-parent : (h : Tree) (y child k : ℕ) → (bypass y child h).parent k ≡ h.parent k
bypass-parent h y child k = elim (Bool-cases (is_left_child h y)) [
  | inl e ↦ rw e refl
  | inr e ↦ rw e refl
]

-- The deleted node is the root.
delete_root-RedBlack :
    (h : Tree) (p c : ℕ) (l : Shape) (z : ℕ) (r t : Shape) (child n : ℕ)
    → At h top p z (fork c l z r)
    → OnlyChild l r t
    → Holds h z child t
    → Distinct (inorder t)
    → ¬ In z (inorder t)
    → Balanced t n
    → RedBlack (delete_root z child h) (inorder t)
delete_root-RedBlack h p c l z r tip child n w only holds d out b =
    let end = w.black_end in
    record {
      shape = tip;
      n = 0;
      place = (0, record { holds = holds; above = refl; distinct = tt; black_end = ground arith });
      is_black = tt;
      balanced = refl;
      order = refl;
    }
delete_root-RedBlack h p c l z r (fork c' l' x r') child n w only holds d out b =
    let t = fork c' l' x r' in
    let g = set_root child h in
    let (m, balanced) = blacken-Balanced c' l' x r' n b in
    let w1 : At g top z child t = record {
      holds = Holds-frame h g z child t (λ k i. (refl, refl, refl, refl)) refl holds;
      above = refl;
      distinct = d;
      black_end = w.black_end;
    } in
    let here = holds.0 in
    let w2 =
      subst (λ k. At (black k g) top z k (fork 0 l' x r')) (sym here)
        (paint-At 0 (subst (λ k. At g top z k t) here w1)) in
    record {
      shape = fork 0 l' x r';
      n = m;
      place = (z, detach-At (black child g) top z child z (fork 0 l' x r') w2 out);
      is_black = refl;
      balanced = balanced;
      order = refl;
    }

some-Balanced :
    (c : ℕ) (l : Shape) (z : ℕ) (r t : Shape) (n : ℕ)
    → OnlyChild l r t
    → Balanced (fork c l z r) n
    → (m : ℕ) × Balanced t m
some-Balanced zero l z r t n only (m, _, bl, br) = (m, only-Balanced l r t m only bl br)
some-Balanced (suc c) l z r t n only (_, _, bl, br) = (n, only-Balanced l r t n only bl br)

pub red_eq : (h : Tree) (z c : ℕ) → h.color z ≡ c → is_red h z ≡ (if c == 0 then false else true)
red_eq h z c e = ground arith

pub inner_root :
    {h : Tree} (up : Trail) {p a : ℕ} {t : Shape}
    → IsInner up
    → At h up p a t
    → (a == h.root) ≡ false
inner_root top inner w = absurd inner
inner_root (in_left c x s up) inner w = root-outer w (root-left w)
inner_root (in_right c s x up) inner w = root-outer w (root-right w)

module _ (h : Tree) (p c : ℕ) (l : Shape) (z : ℕ) (r t : Shape) (child n bound : ℕ)
    (only : OnlyChild l r t) (holds : Holds h z child t)
    (inside : (k : ℕ) → In k (inorder t) → In k (inorder (fork c l z r)))
    (balanced : Balanced (fork c l z r) n) (not_null : child ≢ 0) (not_z : child ≢ z) where
  -- Below the root.
  inner-Unlinked :
      (up : Trail) (xs ys : List ℕ)
      → IsInner up
      → At h up p z (fork c l z r)
      → around up (inorder (fork c l z r)) ≡ xs ++ (z ∷ ys)
      → around up (inorder t) ≡ xs ++ ys
      → Hole up n
      → depth up < bound
      → Unlinked (unlink z z child h).0 (unlink z z child h).1 (around up (inorder t)) bound
  inner-Unlinked up xs ys inner w old new hole near =
      let h0 = bypass z child h in
      let h1 = set_parent child (h0.parent z) h0 in
      let from : h0.parent z ≡ p = bypass-parent h z child z ∙ w.holds.2 in
      let (_, out) = drop h up p c l z r t child (h0.parent z) w xs ys old new holds inside inner in
      let w1 =
        bypass-At h up p c l z r t child (h0.parent z) w xs ys old new holds inside inner
          (λ real. from) in
      let self : (z == z) ≡ true = (==_iff z z).1 refl in
      let deep = inner_root up inner w in
      let e : unlink z z child h ≡ (detach z h1, (if is_red h z then 0 else child)) =
        (λ i.
          if deep i
          then (delete_root z child h, 0)
          else (detach z (splice z z child h0), (if is_red h z then 0 else child)))
        ∙ (λ i. (
          detach z (
              if self i
              then h1
              else take_place z z (
                  if h0.parent z == z
                  then set_parent child z h0
                  else set_parent child (h0.parent z) h0)),
          (if is_red h z then 0 else child),
        )) in
      subst (λ g. Unlinked g.0 g.1 (around up (inorder t)) bound) (sym e)
        (gone-Unlinked (detach z h1) up p child c l z r t n bound (is_red h z)
          (record { at = detach-At h1 up p child z t w1 out; par = ground arith }) only balanced
          hole (red_eq h z c (w.holds.3)) not_null near)

  pub single-Unlinked :
      (up : Trail) (xs ys : List ℕ)
      → At h up p z (fork c l z r)
      → around up (inorder (fork c l z r)) ≡ xs ++ (z ∷ ys)
      → around up (inorder t) ≡ xs ++ ys
      → Hole up n
      → depth up < bound
      → Unlinked (unlink z z child h).0 (unlink z z child h).1 (around up (inorder t)) bound
  single-Unlinked top xs ys w old new hole near =
      let at : (z == h.root) ≡ true = (==_iff z h.root).1 (sym w.above) in
      let (d, out) = Distinct-drop xs ys z (subst Distinct old w.distinct) in
      let (m, b) = some-Balanced c l z r t n only balanced in
      let h0 = bypass z child h in
      let e : unlink z z child h ≡ (delete_root z child h, 0) = λ i.
        if at i
        then (delete_root z child h, 0)
        else (detach z (splice z z child h0), (if is_red h z then 0 else child)) in
      subst (λ g. Unlinked g.0 g.1 (inorder t) bound) (sym e)
        (inl (
          refl,
          delete_root-RedBlack h p c l z r t child m w only holds (subst Distinct (sym new) d)
              (λ i. out (subst (In z) new i)) b,
        ))
  single-Unlinked (in_left c' x s up) xs ys w old new hole near =
      inner-Unlinked (in_left c' x s up) xs ys tt w old new hole near
  single-Unlinked (in_right c' s x up) xs ys w old new hole near =
      inner-Unlinked (in_right c' s x up) xs ys tt w old new hole near
