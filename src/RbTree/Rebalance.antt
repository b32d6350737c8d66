-- ===== src/RbTree/Rebalance.antt =====
-- The loop of `st_rbtree_delete` ends in a red-black tree.
use lua_sharedtable.Base.{
  ℕ, zero, suc, ◌<◌, ◌≡◌, ◌≢◌, refl, sym, ap, ◌∙◌, subst, ◌⊎◌, inl, inr, List, ◌∷◌, arith, true,
  false, not, ◌&&◌, ◌==◌, ==_iff, done, if◌then◌else◌,
}
use lua_sharedtable.NodeList.Linked.{In, In-append, append-In}
use lua_sharedtable.RbTree.{Tree, black, is_black, is_left_child}
use lua_sharedtable.RbTree.Deletion.{
  delete_round_left, delete_round_right, delete_round, delete_fixup,
}
use lua_sharedtable.RbTree.Shape.{
  Shape, tip, fork, Trail, top, in_left, in_right, plug, inorder, inorder-plug, around, outer,
  Holds, Above, At, zip, Distinct-around,
}
use lua_sharedtable.RbTree.Frame.{Distinct-fork}
use lua_sharedtable.RbTree.Rotate.{root-In, Holds-start}
use lua_sharedtable.RbTree.Paint.{paint-At}
use lua_sharedtable.RbTree.Balance.{IsBlack, Balanced, BlackAbove, Hole, black-Joint, plug-Balanced}
use lua_sharedtable.RbTree.Round.{depth, black-color}
use lua_sharedtable.RbTree.Loop.{RedBlack, blacken-RedBlack}
use lua_sharedtable.RbTree.Sibling.{Under}
use lua_sharedtable.RbTree.Shrink.{Almost, Short, Final, RoundEnds, left-Ends, black-Almost}
use lua_sharedtable.RbTree.Restore.{right-Ends}

-- No node of a tree or a path is the sentinel.
pub Holds-real :
    (h : Tree) (p a : ℕ) (t : Shape) (k : ℕ) → Holds h p a t → In k (inorder t) → k ≢ h.sentinel
Holds-real h p a tip k holds i e = absurd i
Holds-real h p a (fork c l x r) k (_, real, _, _, left, right) i e =
    elim (In-append k (inorder l) (x ∷ inorder r) i) [
      | inl j ↦ Holds-real h x (h.left x) l k left j e
      | inr (inl at) ↦ real (sym at ∙ e)
      | inr (inr j) ↦ Holds-real h x (h.right x) r k right j e
    ]

pub Above-real :
    (h : Tree) (p a : ℕ) (up : Trail) (k : ℕ) → Above h p a up → In k (outer up) → k ≢ h.sentinel
Above-real h p a top k above i e = absurd i
Above-real h p a (in_left c x s up) k (_, _, real, _, other, above) (inl at) e = real (sym at ∙ e)
Above-real h p a (in_left c x s up) k (_, _, real, _, other, above) (inr i) e =
    elim (In-append k (inorder s) (outer up) i) [
      | inl j ↦ Holds-real h x (h.right x) s k other j e
      | inr j ↦ Above-real h (h.parent x) x up k above j e
    ]
Above-real h p a (in_right c s x up) k (_, _, real, _, other, above) (inl at) e = real (sym at ∙ e)
Above-real h p a (in_right c s x up) k (_, _, real, _, other, above) (inr i) e =
    elim (In-append k (inorder s) (outer up) i) [
      | inl j ↦ Holds-real h x (h.left x) s k other j e
      | inr j ↦ Above-real h (h.parent x) x up k above j e
    ]

-- The root of a tree with a hole under it is black.
pub plug-black :
    (up : Trail) (t : Shape) (n : ℕ) → Hole up n → IsBlack t ⊎ BlackAbove up → IsBlack (plug up t)
plug-black top t n hole (inl b) = b
plug-black top t n hole (inr b) = absurd b
plug-black (in_left zero x r up) t n (_, hole) joint =
    plug-black up (fork 0 t x r) (suc n) hole (inl refl)
plug-black (in_left (suc c) x r up) t n (_, _, above, hole) joint =
    plug-black up (fork (suc c) t x r) n hole (inr above)
plug-black (in_right zero l x up) t n (_, hole) joint =
    plug-black up (fork 0 l x t) (suc n) hole (inl refl)
plug-black (in_right (suc c) l x up) t n (_, _, above, hole) joint =
    plug-black up (fork (suc c) l x t) n hole (inr above)

pub root-black :
    (up : Trail) (c : ℕ) (l : Shape) (x : ℕ) (r : Shape) (n : ℕ)
    → Hole up n
    → Balanced (fork 0 l x r) n
    → {h : Tree} {p : ℕ} → At h up p x (fork 0 l x r)
    → RedBlack h (around up (inorder (fork 0 l x r)))
root-black up c l x r n hole b {h} {p} w =
    let t = fork 0 l x r in
    let (m, balanced) = plug-Balanced up t n hole (black-Joint up t refl) b in
    record {
      shape = plug up t;
      n = m;
      place = zip up w;
      is_black = plug-black up t n hole (inl refl);
      balanced = balanced;
      order = inorder-plug up t;
    }

-- The loop ends at a red node, which becomes black.
red-RedBlack :
    {h : Tree} {up : Trail} {p a : ℕ} (c : ℕ) (l : Shape) (x : ℕ) (r : Shape) (n : ℕ) (xs : List ℕ)
    → At h up p a (fork c l x r)
    → Balanced l n
    → Balanced r n
    → Hole up (suc n)
    → around up (inorder (fork c l x r)) ≡ xs
    → RedBlack (black a h) xs
red-RedBlack {h} {up} {p} {a} c l x r n xs w bl br hole order =
    let here = w.holds.0 in
    subst (λ k. RedBlack (black k h) xs) (sym here)
      (subst (RedBlack (black x h)) order (
        root-black up c l x r (suc n) hole (n, refl, bl, br)
          (paint-At 0 (subst (λ k. At h up p k (fork c l x r)) here w))))

-- It ends at the root.
top-RedBlack :
    {h : Tree} {p a : ℕ} (t : Shape) (n : ℕ) (xs : List ℕ)
    → At h top p a t
    → Almost t n
    → inorder t ≡ xs
    → RedBlack (black a h) xs
top-RedBlack {h} {p} {a} tip n xs w b order =
    let end = w.holds in
    let at = w.above in
    let color = w.black_end in
    record {
      shape = tip;
      n = 0;
      place =
          (p, record { holds = at ∙ end; above = refl; distinct = tt; black_end = ground arith });
      is_black = tt;
      balanced = refl;
      order = order;
    }
top-RedBlack {h} {p} {a} (fork zero l x r) n xs w (m, e, bl, br) order =
    red-RedBlack 0 l x r m xs w bl br tt order
top-RedBlack {h} {p} {a} (fork (suc c) l x r) n xs w (bl, br) order =
    red-RedBlack (suc c) l x r n xs w bl br tt order

Final-RedBlack : {h : Tree} {xs : List ℕ} {a : ℕ} → Final h xs a → RedBlack (black a h) xs
Final-RedBlack {h} {xs} {a} f =
    subst (λ k. RedBlack (black k h) xs) (sym f.at_root)
      (subst (RedBlack (black h.root h)) f.order
        (blacken-RedBlack h f.shape f.color f.l f.x f.r f.n f.is_fork f.tree f.balanced))

fixup_stop :
    (fuel a : ℕ) (h : Tree)
    → (not (a == h.root) && is_black h a) ≡ false
    → delete_fixup (suc fuel) a h ≡ done (black a h)
unfolding delete_fixup
fixup_stop fuel a h test = rw (test, delete_fixup) refl

fixup_step :
    (fuel a : ℕ) (h : Tree) (r : Tree × ℕ)
    → (not (a == h.root) && is_black h a) ≡ true
    → delete_round a h ≡ r
    → delete_fixup (suc fuel) a h ≡ delete_fixup fuel r.1 r.0
unfolding delete_fixup
fixup_step fuel a h r test e =
    rw (test, delete_fixup) (ap (λ (r : Tree × ℕ). delete_fixup fuel r.1 r.0) e)

round_left :
    (a : ℕ) (h : Tree) → is_left_child h a ≡ true → delete_round a h ≡ delete_round_left a h
unfolding delete_round
round_left a h side = λ i. if side i then delete_round_left a h else delete_round_right a h

round_right :
    (a : ℕ) (h : Tree) → is_left_child h a ≡ false → delete_round a h ≡ delete_round_right a h
unfolding delete_round
round_right a h side = λ i. if side i then delete_round_left a h else delete_round_right a h

pub root-outer :
    {h : Tree} {up : Trail} {p a : ℕ} {t : Shape}
    → At h up p a t
    → In h.root (outer up)
    → (a == h.root) ≡ false
root-outer {h} {up} {p} {a} {t} w i =
    let other : a ≢ h.root = λ e. elim (Holds-start h p a t w.holds) [
      | inl end ↦ Above-real h p a up h.root w.above i (sym e ∙ end)
      | inr j ↦
          (Distinct-around up (inorder t) w.distinct).2 a j (subst (λ k. In k (outer up)) (sym e) i)
    ] in
    ground arith

-- The loop goes on at a black node below the root.
go_on :
    {h : Tree} {up : Trail} {p a : ℕ} {t : Shape}
    → At h up p a t
    → In h.root (outer up)
    → IsBlack t
    → (not (a == h.root) && is_black h a) ≡ true
go_on {h} {up} {p} {a} {t} w i is =
    let inner = root-outer w i in
    let color = black-color h p a t w.holds is w.black_end in ground arith

pub root-left :
    {h : Tree} {c x : ℕ} {s : Shape} {up : Trail} {p a : ℕ} {t : Shape}
    → At h (in_left c x s up) p a t
    → In h.root (outer (in_left c x s up))
root-left {h} {c} {x} {s} {up} w = elim (root-In h (h.parent x) x up (w.above.5)) [
  | inl e ↦ inl e
  | inr i ↦ inr (append-In h.root (inorder s) (outer up) (inr i))
]

pub root-right :
    {h : Tree} {c x : ℕ} {s : Shape} {up : Trail} {p a : ℕ} {t : Shape}
    → At h (in_right c s x up) p a t
    → In h.root (outer (in_right c s x up))
root-right {h} {c} {x} {s} {up} w = elim (root-In h (h.parent x) x up (w.above.5)) [
  | inl e ↦ inl e
  | inr i ↦ inr (append-In h.root (inorder s) (outer up) (inr i))
]

left_side :
    {h : Tree} {c x : ℕ} {s : Shape} {up : Trail} {p a : ℕ} {t : Shape}
    → Under h (in_left c x s up) p a t
    → is_left_child h a ≡ true
left_side {h} {c} {x} {s} {up} {p} {a} u =
    (==_iff a (h.left (h.parent a))).1 (sym (ap h.left (u.par ∙ u.at.above.0) ∙ u.at.above.1))

-- The brother is not the sentinel, so the tests tell the two apart.
right_side :
    {h : Tree} {x : ℕ} {up : Trail} {p a : ℕ} {t : Shape} (c : ℕ) (s : Shape) (n : ℕ)
    → Under h (in_right c s x up) p a t
    → Hole (in_right c s x up) (suc n)
    → is_left_child h a ≡ false
right_side zero tip n u hole = absurd (let e = hole.0 in omega arith)
right_side (suc c) tip n u hole = absurd (let e = hole.0 in omega arith)
right_side {h} {x} {up} {p} {a} {t} c (fork c' l S r) n u hole =
    let s = fork c' l S r in
    let holds = u.at.above.4 in
    let (d, _, _) = Distinct-around up (inorder (fork c s x t)) u.at.distinct in
    let (_, _, _, _, apart) = Distinct-fork c s x t d in
    let at : h.left (h.parent a) ≡ S = ap h.left (u.par ∙ u.at.above.0) ∙ holds.0 in
    let other : a ≢ S = λ e. elim (Holds-start h p a t u.at.holds) [
      | inl end ↦ holds.1 (sym e ∙ end)
      | inr i ↦
          apart S (append-In S (inorder l) (S ∷ inorder r) (inr (inl refl)))
            (subst (λ k. In k (inorder t)) e i)
    ] in
    ground arith

abbrev Restored : (fuel : ℕ) → Tree → List ℕ → (a : ℕ) → Type 0
Restored fuel h xs a = (h' : Tree) × (delete_fixup fuel a h ≡ done h') × RedBlack h' xs

abbrev Restores : (fuel : ℕ) → Type 0
Restores fuel =
    (h : Tree) (xs : List ℕ) (a : ℕ) → RoundEnds h xs a fuel → 0 < fuel → Restored fuel h xs a

black-Short : (t : Shape) (up : Trail) (b : ℕ) → IsBlack t → Short t up b → depth up < b
black-Short tip up b is s = s
black-Short (fork zero l x r) up b is s = s
black-Short (fork (suc c) l x r) up b is s = absurd (omega (arith, is))

-- A round at a black node.
black-Restored :
    (fuel : ℕ) (h : Tree) (xs : List ℕ) (a : ℕ) (up : Trail) (p : ℕ) (t : Shape) (n : ℕ)
    → IsBlack t
    → Under h up p a t
    → Almost t n
    → Hole up (suc n)
    → around up (inorder t) ≡ xs
    → depth up < suc fuel
    → Restores fuel
    → Restored (suc fuel) h xs a
black-Restored fuel h xs a top p t n is u almost hole order near next =
    let at : (not (a == h.root) && is_black h a) ≡ false = let e = u.at.above in ground arith in
    (black a h, fixup_stop fuel a h at, top-RedBlack t n xs u.at almost order)
black-Restored fuel h xs a (in_left c x s up) p t n is u almost hole order near next =
    let r = delete_round_left a h in
    let (h', run, result) =
      next r.0 xs r.1
        (left-Ends c s xs n fuel u (black-Almost t n is almost) hole order (omega arith))
        (omega arith) in
    (
      h',
      fixup_step fuel a h r (go_on u.at (root-left u.at) is) (round_left a h (left_side u)) ∙ run,
      result,
    )
black-Restored fuel h xs a (in_right c s x up) p t n is u almost hole order near next =
    let r = delete_round_right a h in
    let (h', run, result) =
      next r.0 xs r.1
        (right-Ends c s xs n fuel u (black-Almost t n is almost) hole order (omega arith))
        (omega arith) in
    (
      h',
      fixup_step fuel a h r (go_on u.at (root-right u.at) is)
            (round_right a h (right_side c s n u hole))
          ∙ run,
      result,
    )

lacking-Restored :
    (fuel : ℕ) (h : Tree) (xs : List ℕ) (a : ℕ) (up : Trail) (p : ℕ) (t : Shape) (n : ℕ)
    → Under h up p a t
    → Almost t n
    → Hole up (suc n)
    → around up (inorder t) ≡ xs
    → Short t up (suc fuel)
    → Restores fuel
    → Restored (suc fuel) h xs a
lacking-Restored fuel h xs a up p tip n u almost hole order near next =
    black-Restored fuel h xs a up p tip n tt u almost hole order near next
lacking-Restored fuel h xs a up p (fork zero l x r) n u almost hole order near next =
    black-Restored fuel h xs a up p (fork zero l x r) n refl u almost hole order near next
lacking-Restored fuel h xs a up p (fork (suc c) l x r) n u (bl, br) hole order near next =
    let color : h.color a ≡ suc c = ap h.color (u.at.holds.0) ∙ u.at.holds.3 in
    (
      black a h,
      fixup_stop fuel a h (ground arith),
      red-RedBlack (suc c) l x r n xs u.at bl br hole order,
    )

-- The loop terminates in a red-black tree of the same nodes.
pub delete_fixup-RedBlack : (fuel : ℕ) → Restores fuel
delete_fixup-RedBlack zero h xs a ends some_left = absurd (omega arith)
delete_fixup-RedBlack (suc fuel) h xs a (inr f) some_left =
    let at = f.at_root in (black a h, fixup_stop fuel a h (ground arith), Final-RedBlack f)
delete_fixup-RedBlack (suc fuel) h xs a (inl f) some_left =
    lacking-Restored fuel h xs a f.up f.p f.t f.n f.under f.almost f.hole f.order f.short
      (delete_fixup-RedBlack fuel)
