-- ===== src/RbTree/Restore.antt =====
-- The loop of `st_rbtree_delete`: the rounds at a right child, by the exchange of left and right,
-- and the end of the loop.
use lua_sharedtable.Base.{
  ℕ, zero, suc, ◌<◌, ◌≡◌, refl, sym, ap, ◌∙◌, subst, inl, inr, List, arith, Bool, true, false, ◌&&◌,
  if◌then◌else◌, Bool-cases,
}
use lua_sharedtable.RbTree.{Tree, red, black, copy_color, is_red, is_black}
use lua_sharedtable.RbTree.Deletion.{
  black_brother_left, black_brother_right, turn_brother_left, turn_brother_right, finish_left,
  finish_right, has_black_children, delete_round_left, delete_round_right,
}
use lua_sharedtable.RbTree.Shape.{Shape, tip, fork, Trail, in_right, inorder, around}
use lua_sharedtable.RbTree.Mirror.{
  swap, mirror, mirror_path, rev, inorder-mirror, left_rotate-swap, swap-At,
}
use lua_sharedtable.RbTree.Balance.{Balanced, Hole, mirror-Balanced, mirror-Hole}
use lua_sharedtable.RbTree.Round.{depth}
use lua_sharedtable.RbTree.Fixup.{right_rotate-swap, rev-rev, depth-mirror, around-mirror_order}
use lua_sharedtable.RbTree.Sibling.{Under}
use lua_sharedtable.RbTree.Shrink.{Almost, Short, RoundEnds, rest_left, round-rest, left-Ends}

abbrev rest_right : (a : ℕ) → Tree → Tree × ℕ
rest_right a h =
    let brother = h.left (h.parent a) in
    if has_black_children h brother
    then (red brother h, (red brother h).parent a)
    else (let h2 = finish_right a (turn_brother_right a h) in (h2, h2.root))

right-rest : (a : ℕ) (h : Tree) → delete_round_right a h ≡ rest_right a (black_brother_right a h)
unfolding delete_round_right
right-rest a h = refl

brother-swap : (a : ℕ) (h : Tree) → black_brother_left a (swap h) ≡ swap (black_brother_right a h)
brother-swap a h =
    let P = h.parent a in
    let B = h.left P in
    elim (Bool-cases (is_red h (h.left (h.parent a)))) [
      | inl e ↦ rw e (left_rotate-swap P (red P (black B h)))
      | inr e ↦ rw e refl
    ]

turn_brother-swap :
    (a : ℕ) (h : Tree) → turn_brother_left a (swap h) ≡ swap (turn_brother_right a h)
turn_brother-swap a h =
    let B = h.left (h.parent a) in
    elim (Bool-cases (is_black h (h.left (h.left (h.parent a))))) [
      | inl e ↦ rw e (right_rotate-swap B (red B (black (h.right B) h)))
      | inr e ↦ rw e refl
    ]

and_comm : (a b : Bool) → (a && b) ≡ (b && a)
and_comm true true = refl
and_comm true false = refl
and_comm false true = refl
and_comm false false = refl

finish-swap : (a : ℕ) (h : Tree) → finish_left a (swap h) ≡ swap (finish_right a h)
finish-swap a h =
    let B = h.left (h.parent a) in
    let h1 = black (h.parent a) (copy_color B (h.parent a) h) in
    left_rotate-swap (h.parent a) (black (h1.left B) h1)

rest-swap :
    (a : ℕ) (h : Tree) → rest_left a (swap h) ≡ (swap (rest_right a h).0, (rest_right a h).1)
rest-swap a h =
    let B = h.left (h.parent a) in
    let F = finish_left a (turn_brother_left a (swap h)) in
    let G = finish_right a (turn_brother_right a h) in
    let comm : has_black_children (swap h) B ≡ has_black_children h B =
      and_comm (is_black h (h.right B)) (is_black h (h.left B)) in
    let left : (b : Bool)
        → has_black_children h B ≡ b
        → rest_left a (swap h) ≡ (if b then (red B (swap h), h.parent a) else (F, F.root)) =
      λ b e. λ i. if (comm ∙ e) i then (red B (swap h), h.parent a) else (F, F.root) in
    let right : (b : Bool)
        → has_black_children h B ≡ b
        → rest_right a h ≡ (if b then (red B h, h.parent a) else (G, G.root)) =
      λ b e. λ i. if e i then (red B h, h.parent a) else (G, G.root) in
    elim (Bool-cases (has_black_children h B)) [
      | inl e ↦ left true e ∙ sym (ap (λ (r : Tree × ℕ). (swap r.0, r.1)) (right true e))
      | inr e ↦
          left false e
          ∙ (ap (λ (g : Tree). (g, g.root))
                (ap (finish_left a) (turn_brother-swap a h)
                  ∙ finish-swap a (turn_brother_right a h))
              ∙ sym (ap (λ (r : Tree × ℕ). (swap r.0, r.1)) (right false e)))
    ]

delete_round-swap :
    (a : ℕ) (h : Tree)
    → delete_round_left a (swap h) ≡ (swap (delete_round_right a h).0, (delete_round_right a h).1)
delete_round-swap a h =
    round-rest a (swap h)
    ∙ (ap (rest_left a) (brother-swap a h)
        ∙ (rest-swap a (black_brother_right a h)
            ∙ ap (λ (r : Tree × ℕ). (swap r.0, r.1)) (sym (right-rest a h))))

mirror-Almost : (t : Shape) (n : ℕ) → Almost t n → Almost (mirror t) n
mirror-Almost tip n b = b
mirror-Almost (fork zero l x r) n b = mirror-Balanced (fork zero l x r) n b
mirror-Almost (fork (suc c) l x r) n (left, right) =
    (mirror-Balanced r n right, mirror-Balanced l n left)

mirror-Short : (t : Shape) (up : Trail) (b : ℕ) → Short t up b → Short (mirror t) (mirror_path up) b
mirror-Short tip up b s = omega (arith, depth-mirror up, s)
mirror-Short (fork zero l x r) up b s = omega (arith, depth-mirror up, s)
mirror-Short (fork (suc c) l x r) up b s = s

swap-Under :
    {h : Tree} {up : Trail} {p a : ℕ} {t : Shape}
    → Under h up p a t
    → Under (swap h) (mirror_path up) p a (mirror t)
swap-Under u = record { at = swap-At u.at; par = u.par }

swap-RoundEnds :
    {h : Tree} {xs : List ℕ} {a bound : ℕ}
    → RoundEnds h (rev xs) a bound
    → RoundEnds (swap h) xs a bound
swap-RoundEnds {h} {xs} {a} {bound} (inl f) = inl (record {
  up = mirror_path f.up;
  p = f.p;
  t = mirror f.t;
  n = f.n;
  under = swap-Under f.under;
  almost = mirror-Almost f.t f.n f.almost;
  hole = mirror-Hole f.up (suc f.n) f.hole;
  order = around-mirror_order f.up f.t (rev xs) f.order ∙ rev-rev xs;
  short = mirror-Short f.t f.up bound f.short;
})
swap-RoundEnds {h} {xs} {a} {bound} (inr f) = inr (record {
  shape = mirror f.shape;
  color = f.color;
  l = mirror f.r;
  x = f.x;
  r = mirror f.l;
  n = f.n;
  is_fork = ap mirror f.is_fork;
  tree = (f.tree.0, swap-At f.tree.1);
  balanced = mirror-Balanced f.shape f.n f.balanced;
  order = inorder-mirror f.shape ∙ (ap rev f.order ∙ rev-rev xs);
  at_root = f.at_root;
})

pub right-Ends :
    {h : Tree} {up : Trail} {p a P : ℕ} {t : Shape} (c : ℕ) (s : Shape) (xs : List ℕ) (n bound : ℕ)
    → Under h (in_right c s P up) p a t
    → Balanced t n
    → Hole (in_right c s P up) (suc n)
    → around (in_right c s P up) (inorder t) ≡ xs
    → depth up < bound
    → RoundEnds (delete_round_right a h).0 xs (delete_round_right a h).1 bound
right-Ends {h} {up} {p} {a} {P} {t} c s xs n bound u bt hole order near = swap-RoundEnds (
    subst (λ r. RoundEnds r.0 (rev xs) r.1 bound) (delete_round-swap a h)
      (left-Ends c (mirror s) (rev xs) n bound (swap-Under u) (mirror-Balanced t n bt)
        (mirror-Hole (in_right c s P up) (suc n) hole)
        (around-mirror_order (in_right c s P up) t xs order) (omega (arith, depth-mirror up))))
