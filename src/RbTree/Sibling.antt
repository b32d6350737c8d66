-- ===== src/RbTree/Sibling.antt =====
-- What a round of the loop of `st_rbtree_delete` does where `rebalance` is a left child: the brother
-- made black, the brother painted red, and the two turns that end the loop.
use lua_sharedtable.Base.{
  ℕ, suc, ◌≡◌, ◌≢◌, sym, ap, ap₂, ◌∙◌, subst, arith, true, false, not, if◌then◌else◌,
}
use lua_sharedtable.RbTree.{Tree, red, black, paint, is_red, is_black, left_rotate, right_rotate}
use lua_sharedtable.RbTree.Deletion.{
  black_brother_left, turn_brother_left, finish_left, has_black_children,
}
use lua_sharedtable.RbTree.Shape.{
  Shape, tip, fork, Trail, in_left, in_right, Holds, At, rise_left, rise_right, sink_left,
  sink_right,
}
use lua_sharedtable.RbTree.Rotate.{left_rotate-At, left_rotate-end}
use lua_sharedtable.RbTree.Mirror.{right_rotate-At, right_rotate-end}
use lua_sharedtable.RbTree.Paint.{paint-At}
use lua_sharedtable.RbTree.Balance.{IsBlack}
use lua_sharedtable.RbTree.Round.{black-color}

-- A subtree in its place, whose first node, or the sentinel in its stead, has the right parent.
pub record Under (h : Tree) (up : Trail) (p a : ℕ) (t : Shape) : Type 0 where
  pub at : At h up p a t
  pub par : h.parent a ≡ p

-- The same tree starts at the same address.
Holds-same :
    (h h' : Tree) (p q a b : ℕ) (t : Shape)
    → h'.sentinel ≡ h.sentinel
    → Holds h p a t
    → Holds h' q b t
    → b ≡ a
Holds-same h h' p q a b tip end old new = new ∙ (end ∙ sym old)
Holds-same h h' p q a b (fork c l x r) end old new = new.0 ∙ sym (old.0)

-- After a change elsewhere that leaves the parent of the sentinel alone.
pub move-Under :
    (h h' : Tree) (up up' : Trail) (p a b : ℕ) (t : Shape)
    → (h'.parent h.sentinel ≡ h.parent h.sentinel) × (h'.sentinel ≡ h.sentinel)
    → Under h up p a t
    → At h' up' p b t
    → Under h' up' p a t
move-Under h h' up up' p a b tip (at_end, end) old new =
    let here = Holds-same h h' p p a b tip end old.at.holds new.holds in
    record {
      at = subst (λ k. At h' up' p k tip) here new;
      par = ap h'.parent old.at.holds ∙ (at_end ∙ (ap h.parent (sym old.at.holds) ∙ old.par));
    }
move-Under h h' up up' p a b (fork c l x r) (at_end, end) old new =
    let here = Holds-same h h' p p a b (fork c l x r) end old.at.holds new.holds in
    record {
      at = subst (λ k. At h' up' p k (fork c l x r)) here new;
      par = ap h'.parent (old.at.holds.0) ∙ new.holds.2;
    }

module _ {h : Tree} {up : Trail} {p a P c S cs : ℕ} {t sl sr : Shape}
    (u : Under h (in_left c P (fork cs sl S sr) up) p a t) where
  pub par_eq : h.parent a ≡ P
  par_eq = u.par ∙ u.at.above.0

  pub brother_eq : h.right (h.parent a) ≡ S
  brother_eq = ap h.right par_eq ∙ u.at.above.4.0

  -- The red brother becomes the grandparent.
  red_brother-At :
      At
        (left_rotate P (red P (black S h)))
        (in_left 1 P sl (in_left 0 S sr up))
        P
        ((left_rotate P (red P (black S h))).left P)
        t
  red_brother-At =
      let h' = left_rotate P (red P (black S h)) in
      let w1 = sink_right (rise_left u.at) in
      let w2 = subst (λ k. At h (in_right c t P up) P k (fork cs sl S sr)) (w1.holds.0) w1 in
      let w3 = sink_left (left_rotate-At (paint-At 1 (rise_right (paint-At 0 w2)))) in
      sink_left (subst (λ k. At h' (in_left 0 S sr up) S k (fork 1 t P sl)) (w3.holds.0) w3)

  red_brother-end :
      ((left_rotate P (red P (black S h))).parent h.sentinel ≡ h.parent h.sentinel)
      × ((left_rotate P (red P (black S h))).sentinel ≡ h.sentinel)
  red_brother-end =
      let w1 = sink_right (rise_left u.at) in
      let w2 = subst (λ k. At h (in_right c t P up) P k (fork cs sl S sr)) (w1.holds.0) w1 in
      left_rotate-end (paint-At 1 (rise_right (paint-At 0 w2)))

  pub red_brother-Under :
      Under (left_rotate P (red P (black S h))) (in_left 1 P sl (in_left 0 S sr up)) P a t
  red_brother-Under =
      move-Under h (left_rotate P (red P (black S h))) (in_left c P (fork cs sl S sr) up)
        (in_left 1 P sl (in_left 0 S sr up)) P a _ t red_brother-end
        (record {
          at = subst (λ q. At h (in_left c P (fork cs sl S sr) up) q a t) (u.at.above.0) u.at;
          par = par_eq;
        })
        red_brother-At

  brother-color : h.color (h.right (h.parent a)) ≡ cs
  brother-color = ap h.color brother_eq ∙ u.at.above.4.3

  pub black_brother-red : cs ≢ 0 → black_brother_left a h ≡ left_rotate P (red P (black S h))
  black_brother-red is_not =
      let test : is_red h (h.right (h.parent a)) ≡ true = let e = brother-color in ground arith in
      (λ i.
        if test i
        then left_rotate (h.parent a) (red (h.parent a) (black (h.right (h.parent a)) h))
        else h)
      ∙ ap₂ (λ P S. left_rotate P (red P (black S h))) par_eq brother_eq

  pub black_brother-black : cs ≡ 0 → black_brother_left a h ≡ h
  black_brother-black is =
      let test : is_red h (h.right (h.parent a)) ≡ false = let e = brother-color in ground arith in
      λ i.
        if test i
        then left_rotate (h.parent a) (red (h.parent a) (black (h.right (h.parent a)) h))
        else h

  -- The brother is painted.
  pub paint_brother-At : (v : ℕ) → At (paint S v h) up (h.parent P) P (fork c t P (fork v sl S sr))
  paint_brother-At v =
      let w1 = sink_right (rise_left u.at) in
      let w2 = subst (λ k. At h (in_right c t P up) P k (fork cs sl S sr)) (w1.holds.0) w1 in
      rise_right (paint-At v w2)

  black_child : (b : ℕ) (s : Shape) → Holds h S b s → IsBlack s → is_black h b ≡ true
  black_child b s holds is = ap not (black-color h S b s holds is u.at.black_end)

  red_child :
      (b k : ℕ) (l : Shape) (x : ℕ) (r : Shape)
      → Holds h S b (fork (suc k) l x r)
      → is_black h b ≡ false
  red_child b k l x r holds =
      let e : h.color b ≡ suc k = ap h.color (holds.0) ∙ holds.3 in ground arith

  pub black_children : IsBlack sl → IsBlack sr → has_black_children h S ≡ true
  black_children l_black r_black =
      let a = black_child (h.left S) sl (u.at.above.4.4) l_black in
      let b = black_child (h.right S) sr (u.at.above.4.5) r_black in ground arith

module _ {h : Tree} {up : Trail} {p a P c S cs k R : ℕ} {t sl rl rr : Shape}
    (u : Under h (in_left c P (fork cs sl S (fork (suc k) rl R rr)) up) p a t) where
  pub red_right : has_black_children h S ≡ false
  red_right = let e = red_child u (h.right S) k rl R rr (u.at.above.4.5) in ground arith

  pub no_turn : turn_brother_left a h ≡ h
  no_turn =
      let f = brother_eq u in
      let test : is_black h (h.right (h.right (h.parent a))) ≡ false =
        ap (is_black h) (ap h.right f) ∙ red_child u (h.right S) k rl R rr (u.at.above.4.5) in
      λ i.
        if test i
        then right_rotate (h.right (h.parent a))
            (red (h.right (h.parent a)) (black (h.left (h.right (h.parent a))) h))
        else h

  -- The outer child of the brother is red: the turn of the parent.
  pub finish-At : At (finish_left a h) up (h.parent P) S (fork c (fork 0 t P sl) S (fork 0 rl R rr))
  finish-At =
      let Fin = λ (P S R v : ℕ). left_rotate P (black R (black P (paint S v h))) in
      let e = par_eq u in
      let f = brother_eq u in
      let g : h.right (h.right (h.parent a)) ≡ R = ap h.right f ∙ u.at.above.4.5.0 in
      let v : h.color (h.parent a) ≡ c = ap h.color e ∙ u.at.above.3 in
      let w1 = paint-At 0 (paint_brother-At u c) in
      let w2 = sink_right w1 in
      let h1 = black P (paint S c h) in
      let w3 =
        subst (λ z. At h1 (in_right 0 t P up) P z (fork c sl S (fork (suc k) rl R rr))) (w2.holds.0)
          w2 in
      let w4 = sink_right w3 in
      let w5 =
        subst (λ z. At h1 (in_right c sl S (in_right 0 t P up)) S z (fork (suc k) rl R rr))
          (w4.holds.0) w4 in
      subst (λ g. At g up (h.parent P) S (fork c (fork 0 t P sl) S (fork 0 rl R rr)))
        (sym (λ i. Fin (e i) (f i) (g i) (v i)))
        (left_rotate-At (rise_right (rise_right (paint-At 0 w5))))

module _ {h : Tree} {up : Trail} {p a P c S cs k L : ℕ} {t ll lr sr : Shape}
    (u : Under h (in_left c P (fork cs (fork (suc k) ll L lr) S sr) up) p a t) where
  pub red_left : has_black_children h S ≡ false
  red_left = let e = red_child u (h.left S) k ll L lr (u.at.above.4.4) in ground arith

  Turn : ℕ → ℕ → Tree
  Turn S L = right_rotate S (red S (black L h))

  turn_eq : IsBlack sr → turn_brother_left a h ≡ Turn S L
  unfolding Turn
  turn_eq r_black =
      let f = brother_eq u in
      let test : is_black h (h.right (h.right (h.parent a))) ≡ true =
        ap (is_black h) (ap h.right f) ∙ black_child u (h.right S) sr (u.at.above.4.5) r_black in
      (λ i.
        if test i
        then right_rotate (h.right (h.parent a))
            (red (h.right (h.parent a)) (black (h.left (h.right (h.parent a))) h))
        else h)
      ∙ ap₂ (λ S L. right_rotate S (red S (black L h))) f (ap h.left f ∙ u.at.above.4.4.0)

  brother-At :
      At (red S (black L h)) (in_right c t P up) (h.parent S) S (fork 1 (fork 0 ll L lr) S sr)
  brother-At =
      let w1 = sink_right (rise_left u.at) in
      let w2 =
        subst (λ z. At h (in_right c t P up) P z (fork cs (fork (suc k) ll L lr) S sr)) (w1.holds.0)
          w1 in
      let w3 = sink_left w2 in
      let w4 =
        subst (λ z. At h (in_left cs S sr (in_right c t P up)) S z (fork (suc k) ll L lr))
          (w3.holds.0) w3 in
      paint-At 1 (rise_left (paint-At 0 w4))

  -- The inner child is red: the brother is turned first.
  pub turn-Under :
      IsBlack sr
      → Under (turn_brother_left a h) (in_left c P (fork 0 ll L (fork 1 lr S sr)) up) P a t
  unfolding Turn
  turn-Under r_black =
      subst (λ g. Under g (in_left c P (fork 0 ll L (fork 1 lr S sr)) up) P a t)
        (sym (turn_eq r_black))
        (move-Under h (Turn S L) (in_left c P (fork cs (fork (suc k) ll L lr) S sr) up)
          (in_left c P (fork 0 ll L (fork 1 lr S sr)) up) P a _ t (right_rotate-end brother-At)
          (record {
            at =
                subst (λ q. At h (in_left c P (fork cs (fork (suc k) ll L lr) S sr) up) q a t)
                  (u.at.above.0) u.at;
            par = par_eq u;
          })
          (sink_left (rise_right (right_rotate-At brother-At))))
