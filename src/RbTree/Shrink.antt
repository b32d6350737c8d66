-- ===== src/RbTree/Shrink.antt =====
-- One round of the loop of `st_rbtree_delete` where `rebalance` is a left child.
use mathlib.Core.List.{append_assoc}
use lua_sharedtable.Base.{
  ℕ, zero, suc, ◌<◌, ◌≡◌, refl, sym, ap, ◌∙◌, subst, ◌⊎◌, inl, inr, List, ◌∷◌, ◌++◌, arith, true,
  false, if◌then◌else◌,
}
use lua_sharedtable.RbTree.{Tree, red}
use lua_sharedtable.RbTree.Deletion.{
  black_brother_left, turn_brother_left, finish_left, has_black_children, delete_round_left,
}
use lua_sharedtable.RbTree.Shape.{
  Shape, tip, fork, Trail, in_left, plug, inorder, inorder-plug, around, At, IsTree, zip,
}
use lua_sharedtable.RbTree.Balance.{
  IsBlack, Balanced, BlackAbove, Hole, black-Joint, BlackAbove-Joint, plug-Balanced,
}
use lua_sharedtable.RbTree.Round.{depth}
use lua_sharedtable.RbTree.Loop.{plug-fork}
use lua_sharedtable.RbTree.Sibling.{
  Under, par_eq, brother_eq, red_brother-Under, black_brother-red, black_brother-black,
  paint_brother-At, black_children, red_right, finish-At, red_left, turn-Under, no_turn,
}

-- A tree that is balanced once its root is black.
abbrev pub Almost : Shape → (n : ℕ) → Type 0
Almost tip n = n ≡ 0
Almost (fork zero l x r) n = Balanced (fork zero l x r) n
Almost (fork (suc c) l x r) n = Balanced l n × Balanced r n

-- How far the loop still has to go: not on from a red node.
abbrev pub Short : Shape → Trail → (bound : ℕ) → Type 0
Short tip up bound = depth up < bound
Short (fork zero l x r) up bound = depth up < bound
Short (fork (suc c) l x r) up bound = 0 < bound

-- The subtree at `a` has one black node too few on its paths; `xs` is the order of the whole.
pub record Lacking (h : Tree) (xs : List ℕ) (a bound : ℕ) : Type 0 where
  pub up : Trail
  pub p : ℕ
  pub t : Shape
  pub n : ℕ
  pub under : Under h up p a t
  pub almost : Almost t n
  pub hole : Hole up (suc n)
  pub order : around up (inorder t) ≡ xs
  pub short : Short t up bound

-- The tree is balanced and `a` its root.
pub record Final (h : Tree) (xs : List ℕ) (a : ℕ) : Type 0 where
  pub shape : Shape
  pub color : ℕ
  pub l : Shape
  pub x : ℕ
  pub r : Shape
  pub n : ℕ
  pub is_fork : shape ≡ fork color l x r
  pub tree : IsTree h shape
  pub balanced : Balanced shape n
  pub order : inorder shape ≡ xs
  pub at_root : a ≡ h.root

abbrev pub RoundEnds : Tree → (xs : List ℕ) → (a bound : ℕ) → Type 0
RoundEnds h xs a bound = Lacking h xs a bound ⊎ Final h xs a

-- The part of a round behind the first turn.
abbrev pub rest_left : (a : ℕ) → Tree → Tree × ℕ
rest_left a h =
    let brother = h.right (h.parent a) in
    if has_black_children h brother
    then (red brother h, (red brother h).parent a)
    else (let h2 = finish_left a (turn_brother_left a h) in (h2, h2.root))

pub round-rest : (a : ℕ) (h : Tree) → delete_round_left a h ≡ rest_left a (black_brother_left a h)
unfolding delete_round_left
round-rest a h = refl

rest-paint :
    (a S : ℕ) (h : Tree)
    → h.right (h.parent a) ≡ S
    → has_black_children h S ≡ true
    → rest_left a h ≡ (red S h, h.parent a)
rest-paint a S h e test =
    (λ i.
      if has_black_children h (e i)
      then (red (e i) h, h.parent a)
      else (finish_left a (turn_brother_left a h), (finish_left a (turn_brother_left a h)).root))
    ∙ (λ i.
        if test i
        then (red S h, h.parent a)
        else (finish_left a (turn_brother_left a h), (finish_left a (turn_brother_left a h)).root))

rest-finish :
    (a S : ℕ) (h : Tree)
    → h.right (h.parent a) ≡ S
    → has_black_children h S ≡ false
    → rest_left a h
      ≡ (finish_left a (turn_brother_left a h), (finish_left a (turn_brother_left a h)).root)
rest-finish a S h e test =
    (λ i.
      if has_black_children h (e i)
      then (red (e i) h, h.parent a)
      else (finish_left a (turn_brother_left a h), (finish_left a (turn_brother_left a h)).root))
    ∙ (λ i.
        if test i
        then (red S h, h.parent a)
        else (finish_left a (turn_brother_left a h), (finish_left a (turn_brother_left a h)).root))

-- Nothing is lacking any more.
Final-At :
    (h : Tree) (xs : List ℕ) (up : Trail) (q c : ℕ) (l : Shape) (x : ℕ) (r : Shape) (n : ℕ)
    → At h up q x (fork c l x r)
    → Hole up n
    → (IsBlack (fork c l x r) ⊎ BlackAbove up)
    → Balanced (fork c l x r) n
    → around up (inorder (fork c l x r)) ≡ xs
    → Final h xs h.root
Final-At h xs up q c l x r n w hole joint b order =
    let t = fork c l x r in
    let (m, balanced) =
      plug-Balanced up t n hole
        (elim joint [ inl mine ↦ black-Joint up t mine | inr above ↦ BlackAbove-Joint up t above ])
        b in
    let (c', l', x', r', e) = plug-fork up c l x r in
    record {
      shape = plug up t;
      color = c';
      l = l';
      x = x';
      r = r';
      n = m;
      is_fork = e;
      tree = zip up w;
      balanced = balanced;
      order = inorder-plug up t ∙ order;
      at_root = refl;
    }

-- The last turn of the loop.
finish-Final :
    {h : Tree} {up : Trail} {p a P S k R : ℕ} {t sl rl rr : Shape} (c cs : ℕ) (xs : List ℕ) (n : ℕ)
    → Under h (in_left c P (fork cs sl S (fork (suc k) rl R rr)) up) p a t
    → Balanced t n
    → Balanced sl n
    → Balanced rl n
    → Balanced rr n
    → Hole (in_left c P (fork 0 sl S (fork (suc k) rl R rr)) up) (suc n)
    → around (in_left c P (fork cs sl S (fork (suc k) rl R rr)) up) (inorder t) ≡ xs
    → Final (finish_left a h) xs (finish_left a h).root
finish-Final {h} {up} {p} {a} {P} {S} {k} {R} {t} {sl} {rl} {rr} zero cs xs n u bt bsl brl brr hole
      order =
    Final-At (finish_left a h) xs up (h.parent P) 0 (fork 0 t P sl) S (fork 0 rl R rr) (suc (suc n))
      (finish-At u) (hole.1) (inl refl) (suc n, refl, (n, refl, bt, bsl), (n, refl, brl, brr))
      (ap (around up)
          (append_assoc (inorder t) (P ∷ inorder sl) (S ∷ (inorder rl ++ (R ∷ inorder rr))))
        ∙ order)
finish-Final {h} {up} {p} {a} {P} {S} {k} {R} {t} {sl} {rl} {rr} (suc c) cs xs n u bt bsl brl brr
      hole order =
    Final-At (finish_left a h) xs up (h.parent P) (suc c) (fork 0 t P sl) S (fork 0 rl R rr) (suc n)
      (finish-At u) (hole.3) (inr (hole.2)) (refl, refl, (n, refl, bt, bsl), (n, refl, brl, brr))
      (ap (around up)
          (append_assoc (inorder t) (P ∷ inorder sl) (S ∷ (inorder rl ++ (R ∷ inorder rr))))
        ∙ order)

-- Both children of the brother are black: it is painted red, and its parent is next.
painted-Lacking :
    {h : Tree} {up : Trail} {p a P S : ℕ} {t sl sr : Shape} (c cs : ℕ) (xs : List ℕ) (n bound : ℕ)
    → Under h (in_left c P (fork cs sl S sr) up) p a t
    → IsBlack sl
    → IsBlack sr
    → Balanced t n
    → Balanced sl n
    → Balanced sr n
    → Hole (in_left c P (fork 0 sl S sr) up) (suc n)
    → around (in_left c P (fork cs sl S sr) up) (inorder t) ≡ xs
    → (c ≡ 0 → depth up < bound)
    → 0 < bound
    → Lacking (red S h) xs (h.parent a) bound
painted-Lacking {h} {up} {p} {a} {P} {S} {t} {sl} {sr} zero cs xs n bound u lb rb bt bsl bsr hole
      order near some_left =
    subst (λ z. Lacking (red S h) xs z bound) (sym (par_eq u))
      (record {
        up = up;
        p = h.parent P;
        t = fork 0 t P (fork 1 sl S sr);
        n = suc n;
        under = record { at = paint_brother-At u 1; par = refl };
        almost = (n, refl, bt, (lb, rb, bsl, bsr));
        hole = hole.1;
        order = order;
        short = near refl;
      })
painted-Lacking {h} {up} {p} {a} {P} {S} {t} {sl} {sr} (suc c) cs xs n bound u lb rb bt bsl bsr hole
      order near some_left =
    subst (λ z. Lacking (red S h) xs z bound) (sym (par_eq u))
      (record {
        up = up;
        p = h.parent P;
        t = fork (suc c) t P (fork 1 sl S sr);
        n = n;
        under = record { at = paint_brother-At u 1; par = refl };
        almost = (bt, (lb, rb, bsl, bsr));
        hole = hole.3;
        order = order;
        short = some_left;
      })

module _ {h : Tree} {up : Trail} {p a P S : ℕ} {t : Shape} (c : ℕ) (xs : List ℕ) (n bound : ℕ)
    (bt : Balanced t n) (near : c ≡ 0 → depth up < bound) (some_left : 0 < bound) where
  rest-painted :
      (sl sr : Shape)
      → IsBlack sl
      → IsBlack sr
      → Under h (in_left c P (fork 0 sl S sr) up) p a t
      → Balanced sl n
      → Balanced sr n
      → Hole (in_left c P (fork 0 sl S sr) up) (suc n)
      → around (in_left c P (fork 0 sl S sr) up) (inorder t) ≡ xs
      → RoundEnds (rest_left a h).0 xs (rest_left a h).1 bound
  rest-painted sl sr lb rb u bsl bsr hole order =
      subst (λ r. RoundEnds r.0 xs r.1 bound)
        (sym (rest-paint a S h (brother_eq u) (black_children u lb rb)))
        (inl (painted-Lacking c 0 xs n bound u lb rb bt bsl bsr hole order near some_left))

  rest-far :
      (sl : Shape) (k : ℕ) (rl : Shape) (R : ℕ) (rr : Shape)
      → Under h (in_left c P (fork 0 sl S (fork (suc k) rl R rr)) up) p a t
      → Balanced sl n
      → Balanced (fork (suc k) rl R rr) n
      → Hole (in_left c P (fork 0 sl S (fork (suc k) rl R rr)) up) (suc n)
      → around (in_left c P (fork 0 sl S (fork (suc k) rl R rr)) up) (inorder t) ≡ xs
      → RoundEnds (rest_left a h).0 xs (rest_left a h).1 bound
  rest-far sl k rl R rr u bsl (_, _, brl, brr) hole order =
      subst (λ r. RoundEnds r.0 xs r.1 bound) (sym (rest-finish a S h (brother_eq u) (red_right u)))
        (subst (λ g. RoundEnds (finish_left a g) xs (finish_left a g).root bound) (sym (no_turn u))
          (inr (finish-Final c 0 xs n u bt bsl brl brr hole order)))

  rest-near :
      (k : ℕ) (ll : Shape) (L : ℕ) (lr sr : Shape)
      → IsBlack sr
      → Under h (in_left c P (fork 0 (fork (suc k) ll L lr) S sr) up) p a t
      → Balanced (fork (suc k) ll L lr) n
      → Balanced sr n
      → Hole (in_left c P (fork 0 ll L (fork 1 lr S sr)) up) (suc n)
      → around (in_left c P (fork 0 (fork (suc k) ll L lr) S sr) up) (inorder t) ≡ xs
      → RoundEnds (rest_left a h).0 xs (rest_left a h).1 bound
  rest-near k ll L lr sr rb u (_, _, bll, blr) bsr hole order =
      subst (λ r. RoundEnds r.0 xs r.1 bound) (sym (rest-finish a S h (brother_eq u) (red_left u)))
        (inr (
          finish-Final c 0 xs n (turn-Under u rb) bt bll blr bsr hole (
            ap (λ z. around up (inorder t ++ (P ∷ z)))
              (sym (append_assoc (inorder ll) (L ∷ inorder lr) (S ∷ inorder sr)))
            ∙ order)))

-- The hole beside a brother that is turned.
turned-Hole :
    (c P : ℕ) (up : Trail) (n : ℕ) (s s' : Shape)
    → IsBlack s'
    → Balanced s' n
    → Hole (in_left c P s up) n
    → Hole (in_left c P s' up) n
turned-Hole zero P up n s s' is b hole = (b, hole.1)
turned-Hole (suc c) P up n s s' is b hole = (b, is, hole.2, hole.3)

-- The rest of a round, with a black brother.
rest-Ends :
    {h : Tree} {up : Trail} {p a P S : ℕ} {t : Shape} (c : ℕ) (xs : List ℕ) (n bound : ℕ)
    → (sl sr : Shape) → Under h (in_left c P (fork 0 sl S sr) up) p a t
    → Balanced t n
    → Balanced sl n
    → Balanced sr n
    → Hole (in_left c P (fork 0 sl S sr) up) (suc n)
    → around (in_left c P (fork 0 sl S sr) up) (inorder t) ≡ xs
    → (c ≡ 0 → depth up < bound)
    → 0 < bound
    → RoundEnds (rest_left a h).0 xs (rest_left a h).1 bound
rest-Ends c xs n bound tip tip u bt bl br hole order near some_left =
    rest-painted c xs n bound bt near some_left tip tip tt tt u bl br hole order
rest-Ends c xs n bound tip (fork zero rl R rr) u bt bl br hole order near some_left =
    rest-painted c xs n bound bt near some_left tip (fork zero rl R rr) tt refl u bl br hole order
rest-Ends c xs n bound (fork zero ll L lr) tip u bt bl br hole order near some_left =
    rest-painted c xs n bound bt near some_left (fork zero ll L lr) tip refl tt u bl br hole order
rest-Ends c xs n bound (fork zero ll L lr) (fork zero rl R rr) u bt bl br hole order near
      some_left =
    rest-painted c xs n bound bt near some_left (fork zero ll L lr) (fork zero rl R rr) refl refl u
      bl br hole order
rest-Ends c xs n bound sl (fork (suc k) rl R rr) u bt bl br hole order near some_left =
    rest-far c xs n bound bt near some_left sl k rl R rr u bl br hole order
rest-Ends {h} {up} {p} {a} {P} {S} c xs n bound (fork (suc k) ll L lr) tip u bt (llb, lrb, bll, blr)
      br hole order near some_left =
    rest-near c xs n bound bt near some_left k ll L lr tip tt u (llb, lrb, bll, blr) br
      (turned-Hole c P up (suc n) (fork 0 (fork (suc k) ll L lr) S tip)
        (fork 0 ll L (fork 1 lr S tip)) refl (n, refl, bll, (lrb, tt, blr, br)) hole)
      order
rest-Ends {h} {up} {p} {a} {P} {S} c xs n bound (fork (suc k) ll L lr) (fork zero rl R rr) u bt
      (llb, lrb, bll, blr) br hole order near some_left =
    rest-near c xs n bound bt near some_left k ll L lr (fork zero rl R rr) refl u
      (llb, lrb, bll, blr) br
      (turned-Hole c P up (suc n) (fork 0 (fork (suc k) ll L lr) S (fork zero rl R rr))
        (fork 0 ll L (fork 1 lr S (fork zero rl R rr))) refl (n, refl, bll, (lrb, refl, blr, br))
        hole)
      order

pub black-Almost : (t : Shape) (n : ℕ) → IsBlack t → Almost t n → Balanced t n
black-Almost tip n is b = b
black-Almost (fork zero l x r) n is b = b
black-Almost (fork (suc c) l x r) n is b = absurd (omega (arith, is))

-- What holds after a round at a black left child.
abbrev pub LeftEnds : Tree → (xs : List ℕ) → (a bound : ℕ) → Type 0
LeftEnds h xs a bound = RoundEnds (delete_round_left a h).0 xs (delete_round_left a h).1 bound

left-black_brother :
    {h : Tree} {up : Trail} {p a P S : ℕ} {t : Shape} (c : ℕ) (sl sr : Shape) (xs : List ℕ)
    (n bound : ℕ)
    → Under h (in_left c P (fork 0 sl S sr) up) p a t
    → Balanced t n
    → Balanced (fork 0 sl S sr) (suc n)
    → Hole (in_left c P (fork 0 sl S sr) up) (suc n)
    → around (in_left c P (fork 0 sl S sr) up) (inorder t) ≡ xs
    → (c ≡ 0 → depth up < bound)
    → 0 < bound
    → RoundEnds (rest_left a h).0 xs (rest_left a h).1 bound
left-black_brother c sl sr xs n bound u bt (m, e, bl, br) hole order near some_left =
    let same : m ≡ n = omega arith in
    rest-Ends c xs n bound sl sr u bt (subst (Balanced sl) same bl) (subst (Balanced sr) same br)
      hole order near some_left

-- A round at a black left child: one black node is lacking further up, or none any more.
pub left-Ends :
    {h : Tree} {up : Trail} {p a P : ℕ} {t : Shape} (c : ℕ) (s : Shape) (xs : List ℕ) (n bound : ℕ)
    → Under h (in_left c P s up) p a t
    → Balanced t n
    → Hole (in_left c P s up) (suc n)
    → around (in_left c P s up) (inorder t) ≡ xs
    → depth up < bound
    → LeftEnds h xs a bound
left-Ends zero tip xs n bound u bt hole order near = absurd (let e = hole.0 in omega arith)
left-Ends (suc c) tip xs n bound u bt hole order near = absurd (let e = hole.0 in omega arith)
left-Ends {h} {up} {p} {a} zero (fork zero sl S sr) xs n bound u bt hole order near =
    subst (λ r. RoundEnds r.0 xs r.1 bound)
      (sym (round-rest a h ∙ ap (rest_left a) (black_brother-black u refl)))
      (left-black_brother zero sl sr xs n bound u bt (hole.0) hole order (λ e. near) (omega arith))
left-Ends {h} {up} {p} {a} (suc c) (fork zero sl S sr) xs n bound u bt hole order near =
    subst (λ r. RoundEnds r.0 xs r.1 bound)
      (sym (round-rest a h ∙ ap (rest_left a) (black_brother-black u refl)))
      (left-black_brother (suc c) sl sr xs n bound u bt (hole.0) hole order (λ e. near)
        (omega arith))
left-Ends (suc c) (fork (suc k) sl S sr) xs n bound u bt (_, is, _, _) order near =
    absurd (omega (arith, is))
left-Ends zero (fork (suc k) tip S sr) xs n bound u bt ((_, _, bsl, _), _) order near =
    absurd (omega (arith, bsl))
left-Ends zero (fork (suc k) (fork (suc j) ll L lr) S sr) xs n bound u bt ((is, _, _, _), _) order
      near =
    absurd (omega (arith, is))
left-Ends {h} {up} {p} {a} {P} {t} zero (fork (suc k) (fork zero ll L lr) S sr) xs n bound u bt
      ((_, _, bsl, bsr), hole) order near =
    let sl = fork 0 ll L lr in
    subst (λ r. RoundEnds r.0 xs r.1 bound)
      (sym
        (round-rest a h ∙ ap (rest_left a) (black_brother-red u (λ e. absurd (omega (arith, e))))))
      (left-black_brother 1 ll lr xs n bound (red_brother-Under u) bt bsl
        (bsl, refl, refl, (bsr, hole))
        (ap (around up) (append_assoc (inorder t) (P ∷ inorder sl) (S ∷ inorder sr)) ∙ order)
        (λ e. absurd (omega (arith, e))) (omega arith))
