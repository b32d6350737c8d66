-- ===== src/RbTree/Mirror.antt =====
-- rbtree.c writes most code twice, with left and right exchanged. The exchange of all left and
-- right pointers turns one half into the other.
use mathlib.Core.List.{append_assoc}
use lua_sharedtable.Base.{
  ℕ, ◌≡◌, refl, sym, ap, ap₂, ◌∙◌, subst, inl, inr, List, [], ◌∷◌, ◌++◌, Bool-cases, ◌==◌,
}
use lua_sharedtable.NodeList.Linked.{In, Distinct, In-append, Distinct-append, append_nil}
use lua_sharedtable.RbTree.{
  Tree, left_rotate, right_rotate, adopt, relink_left, relink_right, set_left, set_parent,
  is_right_child,
}
use lua_sharedtable.RbTree.Shape.{
  Shape, tip, fork, Trail, top, in_left, in_right, inorder, around, Holds, Above, At,
}
use lua_sharedtable.RbTree.Rotate.{left_rotate-At, left_rotate-end}

abbrev pub swap : Tree → Tree
swap h = record h { left = h.right; right = h.left }

abbrev pub mirror : Shape → Shape
mirror tip = tip
mirror (fork c l x r) = fork c (mirror r) x (mirror l)

abbrev pub mirror_path : Trail → Trail
mirror_path top = top
mirror_path (in_left c x r up) = in_right c (mirror r) x (mirror_path up)
mirror_path (in_right c l x up) = in_left c x (mirror l) (mirror_path up)

pub mirror-mirror : (t : Shape) → mirror (mirror t) ≡ t
mirror-mirror tip = refl
mirror-mirror (fork c l x r) = ap₂ (λ a b. fork c a x b) (mirror-mirror l) (mirror-mirror r)

pub mirror_path-mirror_path : (up : Trail) → mirror_path (mirror_path up) ≡ up
mirror_path-mirror_path top = refl
mirror_path-mirror_path (in_left c x r up) =
    ap₂ (λ a b. in_left c x a b) (mirror-mirror r) (mirror_path-mirror_path up)
mirror_path-mirror_path (in_right c l x up) =
    ap₂ (λ a b. in_right c a x b) (mirror-mirror l) (mirror_path-mirror_path up)

abbrev pub rev : List ℕ → List ℕ
rev [] = []
rev (x ∷ xs) = rev xs ++ (x ∷ [])

pub rev-append : (xs ys : List ℕ) → rev (xs ++ ys) ≡ rev ys ++ rev xs
rev-append [] ys = sym (append_nil (rev ys))
rev-append (x ∷ xs) ys =
    ap (λ l. l ++ (x ∷ [])) (rev-append xs ys) ∙ append_assoc (rev ys) (rev xs) (x ∷ [])

rev-In : (k : ℕ) (xs : List ℕ) → In k (rev xs) → In k xs
rev-In k (x ∷ xs) i = elim (In-append k (rev xs) (x ∷ []) i) [
  | inl j ↦ inr (rev-In k xs j)
  | inr (inl e) ↦ inl e
  | inr (inr f) ↦ elim f [ ]
]
rev-In k [] i = elim i [ ]

rev-Distinct : (xs : List ℕ) → Distinct xs → Distinct (rev xs)
rev-Distinct [] d = tt
rev-Distinct (x ∷ xs) (new, d) =
    Distinct-append (rev xs) (x ∷ []) (rev-Distinct xs d) ((λ i. i), tt)
      (λ k i j. elim j [
        | inl e ↦ new (subst (λ k. In k xs) e (rev-In k xs i))
        | inr f ↦ elim f [ ]
      ])

pub inorder-mirror : (t : Shape) → inorder (mirror t) ≡ rev (inorder t)
inorder-mirror tip = refl
inorder-mirror (fork c l x r) =
    ap₂ (λ a b. a ++ (x ∷ b)) (inorder-mirror r) (inorder-mirror l)
    ∙ (sym (append_assoc (rev (inorder r)) (x ∷ []) (rev (inorder l)))
        ∙ sym (rev-append (inorder l) (x ∷ inorder r)))

pub around-mirror :
    (up : Trail) (xs : List ℕ) → around (mirror_path up) (rev xs) ≡ rev (around up xs)
around-mirror top xs = refl
around-mirror (in_left c x r up) xs =
    ap (around (mirror_path up)) (
      ap (λ l. l ++ (x ∷ rev xs)) (inorder-mirror r)
      ∙ (sym (append_assoc (rev (inorder r)) (x ∷ []) (rev xs))
          ∙ sym (rev-append xs (x ∷ inorder r))))
    ∙ around-mirror up (xs ++ (x ∷ inorder r))
around-mirror (in_right c l x up) xs =
    ap (around (mirror_path up)) (
      ap (λ b. rev xs ++ (x ∷ b)) (inorder-mirror l)
      ∙ (sym (append_assoc (rev xs) (x ∷ []) (rev (inorder l)))
          ∙ sym (rev-append (inorder l) (x ∷ xs))))
    ∙ around-mirror up (inorder l ++ (x ∷ xs))

Holds-swap : (h : Tree) (p a : ℕ) (t : Shape) → Holds h p a t → Holds (swap h) p a (mirror t)
Holds-swap h p a tip e = e
Holds-swap h p a (fork c l x r) (here, real, par, col, left, right) =
    (here, real, par, col, Holds-swap h x (h.right x) r right, Holds-swap h x (h.left x) l left)

Above-swap :
    (h : Tree) (p a : ℕ) (up : Trail) → Above h p a up → Above (swap h) p a (mirror_path up)
Above-swap h p a top e = e
Above-swap h p a (in_left c x r up) (e, at, real, col, other, above) =
    (e, at, real, col, Holds-swap h x (h.right x) r other, Above-swap h (h.parent x) x up above)
Above-swap h p a (in_right c l x up) (e, at, real, col, other, above) =
    (e, at, real, col, Holds-swap h x (h.left x) l other, Above-swap h (h.parent x) x up above)

pub swap-At :
    {h : Tree} {up : Trail} {p a : ℕ} {t : Shape}
    → At h up p a t
    → At (swap h) (mirror_path up) p a (mirror t)
swap-At {h} {up} {p} {a} {t} w = record {
  holds = Holds-swap h p a t w.holds;
  above = Above-swap h p a up w.above;
  distinct =
      subst Distinct
        (sym (ap (around (mirror_path up)) (inorder-mirror t) ∙ around-mirror up (inorder t)))
        (rev-Distinct (around up (inorder t)) w.distinct);
  black_end = w.black_end;
}

-- Back from the exchanged memory.
pub swap_back-At :
    {h : Tree} (up : Trail) (t : Shape) {p a : ℕ}
    → At h (mirror_path up) p a (mirror t)
    → At (swap h) up p a t
swap_back-At {h} up t {p} {a} w =
    subst (λ u. At (swap h) u p a t) (mirror_path-mirror_path up)
      (subst (λ s. At (swap h) (mirror_path (mirror_path up)) p a s) (mirror-mirror t) (swap-At w))

adopt-swap : (a q : ℕ) (h : Tree) → adopt a q (swap h) ≡ swap (adopt a q h)
adopt-swap a q h = elim (Bool-cases (a == h.sentinel)) [ inl e ↦ rw e refl | inr e ↦ rw e refl ]

relink-swap : (a b : ℕ) (h : Tree) → relink_left a b (swap h) ≡ swap (relink_right a b h)
relink-swap a b h = elim (Bool-cases (a == h.root)) [
  | inl e ↦ rw e refl
  | inr e ↦ rw e (elim (Bool-cases (is_right_child h a)) [ inl f ↦ rw f refl | inr f ↦ rw f refl ])
]

pub left_rotate-swap : (x : ℕ) (h : Tree) → left_rotate x (swap h) ≡ swap (right_rotate x h)
unfolding left_rotate right_rotate
left_rotate-swap x h =
    let y = h.left x in
    let h1 = set_left x (h.right y) h in
    let h2 = adopt (h1.right y) x h1 in
    ap (λ t. set_parent x y (set_left y x (relink_left x y (set_parent y (t.parent x) t))))
      (adopt-swap (h1.right y) x h1)
    ∙ ap (λ t. set_parent x y (set_left y x t)) (relink-swap x y (set_parent y (h2.parent x) h2))

-- A right rotation moves no node in the order: the left child `y` of `x` takes its place.
pub right_rotate-At :
    {h : Tree} {up : Trail} {p x c : ℕ} {c' : ℕ} {l : Shape} {y : ℕ} {m : Shape} {r : Shape}
    → At h up p x (fork c (fork c' l y m) x r)
    → At (right_rotate x h) up p y (fork c' l y (fork c m x r))
right_rotate-At {h} {up} {p} {x} {c} {c'} {l} {y} {m} {r} w =
    subst (λ g. At (swap g) up p y (fork c' l y (fork c m x r))) (left_rotate-swap x h)
      (swap_back-At up (fork c' l y (fork c m x r)) (left_rotate-At (swap-At w)))

pub right_rotate-end :
    {h : Tree} {up : Trail} {p x c : ℕ} {c' : ℕ} {l : Shape} {y : ℕ} {m : Shape} {r : Shape}
    → At h up p x (fork c (fork c' l y m) x r)
    → ((right_rotate x h).parent h.sentinel ≡ h.parent h.sentinel)
      × ((right_rotate x h).sentinel ≡ h.sentinel)
right_rotate-end {h} {up} {p} {x} w =
    let (at_end, end) = left_rotate-end (swap-At w) in
    (
      ap (λ (g : Tree). g.parent h.sentinel) (sym (left_rotate-swap x h)) ∙ at_end,
      ap (λ (g : Tree). g.sentinel) (sym (left_rotate-swap x h)) ∙ end,
    )
