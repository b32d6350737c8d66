-- ===== src/RbTree/Inner.antt =====
-- Paths inside a subtree, and the first node of one.
use lua_sharedtable.Base.{ℕ, zero, suc, ◌+◌, ◌≤◌, ◌≡◌, refl, ap, ◌∙◌, inr, List, ◌∷◌, ◌++◌, arith}
use lua_sharedtable.NodeList.Linked.{In, append-In}
use lua_sharedtable.RbTree.{Tree}
use lua_sharedtable.RbTree.Balance.{BlackAbove, Hole}
use lua_sharedtable.RbTree.Shape.{
  Shape, tip, fork, Trail, top, in_left, in_right, plug, inorder, around, outer, At, rise_left,
  rise_right, sink_left, sink_right,
}
use lua_sharedtable.RbTree.Round.{depth}
use lua_sharedtable.RbTree.Descend.{height}

-- A path inside a subtree, and on from there.
abbrev pub extend : Trail → Trail → Trail
extend top up = up
extend (in_left c x r i) up = in_left c x r (extend i up)
extend (in_right c l x i) up = in_right c l x (extend i up)

pub plug-extend : (i up : Trail) (t : Shape) → plug (extend i up) t ≡ plug up (plug i t)
plug-extend top up t = refl
plug-extend (in_left c x r i) up t = plug-extend i up (fork c t x r)
plug-extend (in_right c l x i) up t = plug-extend i up (fork c l x t)

pub depth-extend : (i up : Trail) → depth (extend i up) ≡ depth i + depth up
depth-extend top up = omega arith
depth-extend (in_left c x r i) up = let e = depth-extend i up in omega arith
depth-extend (in_right c l x i) up = let e = depth-extend i up in omega arith

-- The parent of a subtree inside one whose parent is `p`.
abbrev pub end_parent : Trail → (p : ℕ) → ℕ
end_parent top p = p
end_parent (in_left c x r i) p = x
end_parent (in_right c l x i) p = x

pub unzip :
    {h : Tree} {up : Trail} {p a : ℕ} {t : Shape} (i : Trail)
    → At h up p a (plug i t)
    → (b : ℕ) × At h (extend i up) (end_parent i p) b t
unzip {h} {up} {p} {a} {t} top w = (a, w)
unzip {h} {up} {p} {a} {t} (in_left c x r i) w =
    let (b, v) = unzip {t = fork c t x r} i w in (h.left x, sink_left v)
unzip {h} {up} {p} {a} {t} (in_right c l x i) w =
    let (b, v) = unzip {t = fork c l x t} i w in (h.right x, sink_right v)

pub around-extend : (i up : Trail) (xs : List ℕ) → around (extend i up) xs ≡ around up (around i xs)
around-extend top up xs = refl
around-extend (in_left c x r i) up xs = around-extend i up (xs ++ (x ∷ inorder r))
around-extend (in_right c l x i) up xs = around-extend i up (inorder l ++ (x ∷ xs))

-- The rules above a subtree do not depend on the node that the inner path starts from.
BlackAbove-relabel :
    (i : Trail) (c : ℕ) (l : Shape) (x y : ℕ) (up : Trail)
    → BlackAbove (extend i (in_right c l x up))
    → BlackAbove (extend i (in_right c l y up))
BlackAbove-relabel top c l x y up b = b
BlackAbove-relabel (in_left c' k s i) c l x y up b = b
BlackAbove-relabel (in_right c' s k i) c l x y up b = b

pub Hole-relabel :
    (i : Trail) (c : ℕ) (l : Shape) (x y : ℕ) (up : Trail) (n : ℕ)
    → Hole (extend i (in_right c l x up)) n
    → Hole (extend i (in_right c l y up)) n
Hole-relabel top zero l x y up n hole = hole
Hole-relabel top (suc c) l x y up n hole = hole
Hole-relabel (in_left zero k s i) c l x y up n (b, hole) =
    (b, Hole-relabel i c l x y up (suc n) hole)
Hole-relabel (in_left (suc j) k s i) c l x y up n (b, is, above, hole) =
    (b, is, BlackAbove-relabel i c l x y up above, Hole-relabel i c l x y up n hole)
Hole-relabel (in_right zero s k i) c l x y up n (b, hole) =
    (b, Hole-relabel i c l x y up (suc n) hole)
Hole-relabel (in_right (suc j) s k i) c l x y up n (b, is, above, hole) =
    (b, is, BlackAbove-relabel i c l x y up above, Hole-relabel i c l x y up n hole)

pub outer-extend : (i up : Trail) (k : ℕ) → In k (outer up) → In k (outer (extend i up))
outer-extend top up k m = m
outer-extend (in_left c x r i) up k m =
    inr (append-In k (inorder r) (outer (extend i up)) (inr (outer-extend i up k m)))
outer-extend (in_right c l x i) up k m =
    inr (append-In k (inorder l) (outer (extend i up)) (inr (outer-extend i up k m)))

pub rezip :
    {h : Tree} {up : Trail} {q b : ℕ} {t : Shape} (i : Trail)
    → At h (extend i up) q b t
    → (p : ℕ) × (a : ℕ) × At h up p a (plug i t)
rezip {h} {up} {q} {b} {t} top w = (q, b, w)
rezip (in_left c x r i) w = rezip i (rise_left w)
rezip (in_right c l x i) w = rezip i (rise_right w)

-- The first node `y` of a subtree, its right subtree and the path to it.
pub record First (t : Shape) : Type 0 where
  pub inner : Trail
  pub color : ℕ
  pub y : ℕ
  pub r : Shape
  pub whole : plug inner (fork color tip y r) ≡ t
  pub order : y ∷ inorder (plug inner r) ≡ inorder t
  pub reach : depth inner + height (fork color tip y r) ≤ height t

pub first : (c : ℕ) (l : Shape) (x : ℕ) (r : Shape) → First (fork c l x r)
first c tip x r = record {
  inner = top;
  color = c;
  y = x;
  r = r;
  whole = refl;
  order = refl;
  reach = omega arith;
}
first c (fork c' l' x' r') x r =
    let f = first c' l' x' r' in
    let i = extend f.inner (in_left c x r top) in
    record {
      inner = i;
      color = f.color;
      y = f.y;
      r = f.r;
      whole =
          plug-extend f.inner (in_left c x r top) (fork f.color tip f.y f.r)
          ∙ ap (λ l. fork c l x r) f.whole;
      order =
          ap (λ t. f.y ∷ inorder t) (plug-extend f.inner (in_left c x r top) f.r)
          ∙ ap (λ l. l ++ (x ∷ inorder r)) f.order;
      reach = let e = depth-extend f.inner (in_left c x r top) in let z = f.reach in omega arith;
    }
