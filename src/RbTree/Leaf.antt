-- ===== src/RbTree/Leaf.antt =====
-- `insert_node` puts a new leaf, or the first node of a tree.
use lua_sharedtable.Base.{
  ℕ, ◌<◌, ◌≡◌, ◌≢◌, refl, sym, ap, ◌∙◌, subst, inl, inr, List, [], ◌∷◌, ◌++◌, arith, Bool, true,
  false,
}
use lua_sharedtable.NodeList.Linked.{In, Distinct, append-In, Distinct-append, Distinct-split}
use lua_sharedtable.RbTree.{Tree, Compare}
use lua_sharedtable.RbTree.Insertion.{put_leaf, put_root}
use lua_sharedtable.RbTree.Shape.{
  tip, fork, Trail, top, in_left, in_right, around, around_eq, before, behind, outer, At,
  Distinct-around,
}
use lua_sharedtable.RbTree.Frame.{Filled, Slot, Above-refill}
use lua_sharedtable.RbTree.Balance.{Hole}
use lua_sharedtable.RbTree.Round.{Fixing}
use lua_sharedtable.RbTree.Loop.{RedBlack}
use lua_sharedtable.RbTree.Descend.{Spot, EndsAt}

Distinct-insert :
    (xs ys : List ℕ) (k : ℕ) → Distinct (xs ++ ys) → ¬ In k (xs ++ ys) → Distinct (xs ++ (k ∷ ys))
Distinct-insert xs ys k d new =
    let (dx, dy, apart) = Distinct-split xs ys d in
    Distinct-append xs (k ∷ ys) dx ((λ i. new (append-In k xs ys (inr i))), dy)
      (λ j i i'. elim i' [
        | inl e ↦ new (append-In k xs ys (inl (subst (λ k. In k xs) e i)))
        | inr r ↦ apart j i r
      ])

module _ (h : Tree) (q node b : ℕ) where
  -- What the new leaf changes, away from the node `q` that it hangs at.
  record Added (h' : Tree) : Type 0 where
    new_left : h'.left node ≡ h.sentinel
    new_right : h'.right node ≡ h.sentinel
    new_parent : h'.parent node ≡ q
    new_color : h'.color node ≡ 1
    sides : (k : ℕ) → k ≢ node → k ≢ q → (h'.left k ≡ h.left k) × (h'.right k ≡ h.right k)
    rest : (k : ℕ) → k ≢ node → (h'.parent k ≡ h.parent k) × (h'.color k ≡ h.color k)
    end : h'.sentinel ≡ h.sentinel

  leaf-Added : (on_left : Bool) → Added (put_leaf node q on_left h)
  leaf-Added true = record {
    new_left = ground arith;
    new_right = ground arith;
    new_parent = ground arith;
    new_color = ground arith;
    sides = λ k a b. (ground arith, ground arith);
    rest = λ k a. (ground arith, ground arith);
    end = refl;
  }
  leaf-Added false = record {
    new_left = ground arith;
    new_right = ground arith;
    new_parent = ground arith;
    new_color = ground arith;
    sides = λ k a b. (ground arith, ground arith);
    rest = λ k a. (ground arith, ground arith);
    end = refl;
  }

  leaf-Filled :
      (up : Trail) (on_left : Bool)
      → EndsAt q on_left up
      → q ≢ node
      → Filled h (put_leaf node q on_left h) node up
  leaf-Filled top on_left ends other = absurd ends
  leaf-Filled (in_left c x r up) true (at, side) other = (refl, ground arith, ground arith)
  leaf-Filled (in_left c x r up) false (at, side) other = absurd (ground (arith, side))
  leaf-Filled (in_right c l x up) false (at, side) other = (refl, ground arith, ground arith)
  leaf-Filled (in_right c l x up) true (at, side) other = absurd (ground (arith, side))

  EndsAt-Slot : (up : Trail) (on_left : Bool) (k : ℕ) → EndsAt q on_left up → k ≡ q → Slot up k
  EndsAt-Slot top on_left k ends e = absurd ends
  EndsAt-Slot (in_left c x r up) on_left k ends e = e ∙ ends.0
  EndsAt-Slot (in_right c l x up) on_left k ends e = e ∙ ends.0

  end-outer : (up : Trail) (on_left : Bool) → EndsAt q on_left up → In q (outer up)
  end-outer top on_left ends = absurd ends
  end-outer (in_left c x r up) on_left ends = inl (ends.0)
  end-outer (in_right c l x up) on_left ends = inl (ends.0)

  pub put_leaf-At :
      (up : Trail) (on_left : Bool)
      → At h up q b tip
      → EndsAt q on_left up
      → node ≢ h.sentinel
      → ¬ In node (around up [])
      → At (put_leaf node q on_left h) up q node (fork 1 tip node tip)
  put_leaf-At up on_left w ends real new =
      let h' = put_leaf node q on_left h in
      let old : Distinct (before up ++ behind up) = subst Distinct (around_eq up []) w.distinct in
      let distinct : Distinct (around up (node ∷ [])) =
        subst Distinct (sym (around_eq up (node ∷ []))) (
          Distinct-insert (before up) (behind up) node old
            (λ i. new (subst (λ ys. In node ys) (sym (around_eq up [])) i))) in
      let (_, d_outer, apart) = Distinct-around up (node ∷ []) distinct in
      let other : (k : ℕ) → In k (outer up) → k ≢ node =
        λ k i e. apart node (inl refl) (subst (λ k. In k (outer up)) e i) in
      let added = leaf-Added on_left in
      let black : h'.color h.sentinel ≡ h.color h.sentinel =
        (added.rest h.sentinel (λ e. real (sym e))).1 in
      record {
        holds = (
          refl,
          (λ e. real (e ∙ added.end)),
          added.new_parent,
          added.new_color,
          added.new_left ∙ sym added.end,
          added.new_right ∙ sym added.end,
        );
        above =
            Above-refill h h' q b node up
              (leaf-Filled up on_left ends (other q (end-outer up on_left ends)))
              (λ k i free. added.sides k (other k i) (λ e. free (EndsAt-Slot up on_left k ends e)))
              (λ k i. added.rest k (other k i)) added.end d_outer w.above;
        distinct = distinct;
        black_end = ap h'.color added.end ∙ (black ∙ w.black_end);
      }

-- The new leaf, where the rules may be broken at its parent.
pub put_leaf-Fixing :
    (cmp : Compare) (h : Tree) (node allow_equal : ℕ) (xs : List ℕ) (limit bound : ℕ) (up : Trail)
    (q a : ℕ) (on_left : Bool)
    → (s : Spot cmp h node allow_equal xs limit up q a tip) → EndsAt q on_left up
    → node ≢ h.sentinel
    → ¬ In node xs
    → limit < bound
    → Fixing (put_leaf node q on_left h) (before up ++ (node ∷ behind up)) node bound
put_leaf-Fixing cmp h node allow_equal xs limit bound up q a on_left s ends real new enough =
    record {
      up = up;
      p = q;
      color = 0;
      l = tip;
      r = tip;
      n = 0;
      at =
          put_leaf-At h q node a up on_left s.at ends real
            (subst (λ ys. ¬ In node ys) (sym s.order) new);
      balanced = (tt, tt, refl, refl);
      hole = subst (λ n. Hole up n) s.balanced s.hole;
      order = around_eq up (node ∷ []);
      short = let z = s.reach in omega arith;
    }

pub put_root-RedBlack :
    (h : Tree) (node : ℕ)
    → node ≢ h.sentinel
    → h.color h.sentinel ≡ 0
    → RedBlack (put_root node h) (node ∷ [])
put_root-RedBlack h node real end = record {
  shape = fork 0 tip node tip;
  n = 1;
  place = (
    0,
    record {
      holds = (refl, real, ground arith, ground arith, ground arith, ground arith);
      above = refl;
      distinct = ((λ i. i), tt);
      black_end = ground arith;
    },
  );
  is_black = refl;
  balanced = (0, refl, refl, refl);
  order = refl;
}
