-- ===== src/RbTree/Shape.antt =====
-- The search trees that the nodes of rbtree.c hold: the tree under a node, the path above it, and
-- what they need of the memory.
use mathlib.Core.List.{append_assoc}
use lua_sharedtable.Base.{ℕ, ◌≡◌, ◌≢◌, refl, sym, subst, inl, inr, List, [], ◌∷◌, ◌++◌}
use lua_sharedtable.NodeList.Linked.{
  In, Distinct, Disjoint, In-append, append-In, Distinct-append, Distinct-split, append_nil,
}
use lua_sharedtable.RbTree.{Tree}

pub data Shape : Type 0 where
  tip : Shape
  fork : (color : ℕ) → Shape → (node : ℕ) → Shape → Shape

-- What surrounds a subtree, from its parent up to the root.
pub data Trail : Type 0 where
  top : Trail
  in_left : (color node : ℕ) → Shape → Trail → Trail
  in_right : (color : ℕ) → Shape → (node : ℕ) → Trail → Trail

abbrev pub inorder : Shape → List ℕ
inorder tip = []
inorder (fork c l x r) = inorder l ++ (x ∷ inorder r)

abbrev pub plug : Trail → Shape → Shape
plug top t = t
plug (in_left c x r up) t = plug up (fork c t x r)
plug (in_right c l x up) t = plug up (fork c l x t)

-- The nodes of a path, and the whole order around a subtree.
abbrev pub outer : Trail → List ℕ
outer top = []
outer (in_left c x r up) = x ∷ (inorder r ++ outer up)
outer (in_right c l x up) = x ∷ (inorder l ++ outer up)

abbrev pub around : Trail → List ℕ → List ℕ
around top xs = xs
around (in_left c x r up) xs = around up (xs ++ (x ∷ inorder r))
around (in_right c l x up) xs = around up (inorder l ++ (x ∷ xs))

pub inorder-plug : (up : Trail) (t : Shape) → inorder (plug up t) ≡ around up (inorder t)
inorder-plug top t = refl
inorder-plug (in_left c x r up) t = inorder-plug up (fork c t x r)
inorder-plug (in_right c l x up) t = inorder-plug up (fork c l x t)

-- The nodes before and behind a subtree.
abbrev pub before : Trail → List ℕ
before top = []
before (in_left c x r up) = before up
before (in_right c l x up) = before up ++ (inorder l ++ (x ∷ []))

abbrev pub behind : Trail → List ℕ
behind top = []
behind (in_left c x r up) = x ∷ (inorder r ++ behind up)
behind (in_right c l x up) = behind up

pub around_eq : (up : Trail) (xs : List ℕ) → around up xs ≡ before up ++ (xs ++ behind up)
around_eq top xs = sym (append_nil xs)
around_eq (in_left c x r up) xs = rw (around_eq up (xs ++ (x ∷ inorder r))) (simp append_assoc)
around_eq (in_right c l x up) xs = rw (around_eq up (inorder l ++ (x ∷ xs))) (simp append_assoc)

pub In-around : (up : Trail) (xs : List ℕ) (k : ℕ) → In k xs → In k (around up xs)
In-around up xs k i =
    subst (In k) (sym (around_eq up xs))
      (append-In k (before up) (xs ++ behind up) (inr (append-In k xs (behind up) (inl i))))

pub Distinct-around :
    (up : Trail) (xs : List ℕ)
    → Distinct (around up xs)
    → Distinct xs × Distinct (outer up) × Disjoint xs (outer up)
Distinct-around top xs d = (d, tt, λ k i j. j)
Distinct-around (in_left c x r up) xs d =
    let (here, there, apart) = Distinct-around up (xs ++ (x ∷ inorder r)) d in
    let (left, right, sides) = Distinct-split xs (x ∷ inorder r) here in
    (
      left,
      Distinct-append (x ∷ inorder r) (outer up) right there
          (λ k i. apart k (append-In k xs (x ∷ inorder r) (inr i))),
      λ k i j. elim (In-append k (x ∷ inorder r) (outer up) j) [
        | inl near ↦ sides k i near
        | inr far ↦ apart k (append-In k xs (x ∷ inorder r) (inl i)) far
      ],
    )
Distinct-around (in_right c l x up) xs d =
    let (here, there, apart) = Distinct-around up (inorder l ++ (x ∷ xs)) d in
    let (left, right, sides) = Distinct-split (inorder l) (x ∷ xs) here in
    (
      right.1,
      (
        (λ i. elim (In-append x (inorder l) (outer up) i) [
          | inl near ↦ sides x near (inl refl)
          | inr far ↦ apart x (append-In x (inorder l) (x ∷ xs) (inr (inl refl))) far
        ]),
        Distinct-append (inorder l) (outer up) left there
            (λ k i. apart k (append-In k (inorder l) (x ∷ xs) (inl i))),
      ),
      λ k i j. elim (In-append k (x ∷ inorder l) (outer up) j) [
        | inl (inl e) ↦ right.0 (subst (λ k. In k xs) e i)
        | inl (inr near) ↦ sides k near (inr i)
        | inr far ↦ apart k (append-In k (inorder l) (x ∷ xs) (inr (inr i))) far
      ],
    )

-- The memory holds the tree at `a`, under the parent `p`.
abbrev pub Holds : Tree → (p a : ℕ) → Shape → Type 0
Holds h p a tip = a ≡ h.sentinel
Holds h p a (fork c l x r) =
    (a ≡ x)
    × (x ≢ h.sentinel)
    × (h.parent x ≡ p)
    × (h.color x ≡ c)
    × Holds h x (h.left x) l
    × Holds h x (h.right x) r

-- It holds the path above `a`, whose parent is `p`; the root may have any parent.
abbrev pub Above : Tree → (p a : ℕ) → Trail → Type 0
Above h p a top = h.root ≡ a
Above h p a (in_left c x r up) =
    (p ≡ x)
    × (h.left x ≡ a)
    × (x ≢ h.sentinel)
    × (h.color x ≡ c)
    × Holds h x (h.right x) r
    × Above h (h.parent x) x up
Above h p a (in_right c l x up) =
    (p ≡ x)
    × (h.right x ≡ a)
    × (x ≢ h.sentinel)
    × (h.color x ≡ c)
    × Holds h x (h.left x) l
    × Above h (h.parent x) x up

-- The tree at `a` in its place; the sentinel is black.
pub record At (h : Tree) (up : Trail) (p a : ℕ) (t : Shape) : Type 0 where
  pub holds : Holds h p a t
  pub above : Above h p a up
  pub distinct : Distinct (around up (inorder t))
  pub black_end : h.color h.sentinel ≡ 0

-- The whole tree.
abbrev pub IsTree : Tree → Shape → Type 0
IsTree h t = (p : ℕ) × At h top p h.root t

pub rise_left :
    {h : Tree} {c x : ℕ} {r : Shape} {up : Trail} {p a : ℕ} {t : Shape}
    → At h (in_left c x r up) p a t
    → At h up (h.parent x) x (fork c t x r)
rise_left {h} {c} {x} {r} {up} {p} {a} {t} w =
    let (e, at, real, col, other, above) = w.above in
    record {
      holds = (
        refl,
        real,
        refl,
        col,
        subst (λ k. Holds h x k t) (sym at) (subst (λ k. Holds h k a t) e w.holds),
        other,
      );
      above = above;
      distinct = w.distinct;
      black_end = w.black_end;
    }

pub rise_right :
    {h : Tree} {c x : ℕ} {l : Shape} {up : Trail} {p a : ℕ} {t : Shape}
    → At h (in_right c l x up) p a t
    → At h up (h.parent x) x (fork c l x t)
rise_right {h} {c} {x} {l} {up} {p} {a} {t} w =
    let (e, at, real, col, other, above) = w.above in
    record {
      holds = (
        refl,
        real,
        refl,
        col,
        other,
        subst (λ k. Holds h x k t) (sym at) (subst (λ k. Holds h k a t) e w.holds),
      );
      above = above;
      distinct = w.distinct;
      black_end = w.black_end;
    }

pub sink_left :
    {h : Tree} {c x : ℕ} {r : Shape} {up : Trail} {p a : ℕ} {t : Shape}
    → At h up p a (fork c t x r)
    → At h (in_left c x r up) x (h.left x) t
sink_left {h} {c} {x} {r} {up} {p} {a} {t} w =
    let (here, real, par, col, left, right) = w.holds in
    record {
      holds = left;
      above = (
        refl,
        refl,
        real,
        col,
        right,
        subst (λ k. Above h k x up) (sym par) (subst (λ k. Above h p k up) here w.above),
      );
      distinct = w.distinct;
      black_end = w.black_end;
    }

pub sink_right :
    {h : Tree} {c x : ℕ} {l : Shape} {up : Trail} {p a : ℕ} {t : Shape}
    → At h up p a (fork c l x t)
    → At h (in_right c l x up) x (h.right x) t
sink_right {h} {c} {x} {l} {up} {p} {a} {t} w =
    let (here, real, par, col, left, right) = w.holds in
    record {
      holds = right;
      above = (
        refl,
        refl,
        real,
        col,
        left,
        subst (λ k. Above h k x up) (sym par) (subst (λ k. Above h p k up) here w.above),
      );
      distinct = w.distinct;
      black_end = w.black_end;
    }

-- A tree in its place is a part of the whole.
pub zip : {h : Tree} (up : Trail) {p a : ℕ} {t : Shape} → At h up p a t → IsTree h (plug up t)
zip {h} top {p} {a} {t} w = (p, subst (λ k. At h top p k t) (sym w.above) w)
zip (in_left c x r up) w = zip up (rise_left w)
zip (in_right c l x up) w = zip up (rise_right w)
