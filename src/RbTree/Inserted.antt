-- ===== src/RbTree/Inserted.antt =====
-- `st_rbtree_insert` as a whole.
use lua_sharedtable.Base.{
  ℕ, ◌<◌, ◌≡◌, ◌≢◌, refl, sym, ap, ◌∙◌, subst, ◌⊎◌, inl, inr, List, [], ◌∷◌, ◌++◌, arith, true,
  false, not, ◌||◌, ◌==◌, ==_iff, Option, some, Ret, done, ◌>>=◌,
}
use lua_sharedtable.NodeList.Linked.{In}
use lua_sharedtable.RbTree.{Tree, Compare, is_negative, is_empty}
use lua_sharedtable.RbTree.Insertion.{
  Walk, refused, place, walk, note, Placed, placed, put_leaf, put_root, insert_node, rebalance,
  insert,
}
use lua_sharedtable.RbTree.Shape.{Shape, tip, fork, top, inorder, around_eq, before, behind, At}
use lua_sharedtable.RbTree.Balance.{IsBlack, Balanced}
use lua_sharedtable.RbTree.Loop.{RedBlack, insert_fixup-RedBlack}
use lua_sharedtable.RbTree.Order.{IsOrder, Sorted, Sorted-split, Sorted-append}
use lua_sharedtable.RbTree.Descend.{height, Before, Behind, IsEqual, Noted, Landed}
use lua_sharedtable.RbTree.Walking.{walk-Landed}
use lua_sharedtable.RbTree.Leaf.{put_leaf-Fixing, put_root-RedBlack}

-- The new node stands between those that fit before it and the greater ones, in a red-black tree.
pub record Placement (cmp : Compare) (node allow_equal : ℕ) (xs : List ℕ) (h' : Tree) : Type 0 where
  pub ys : List ℕ
  pub zs : List ℕ
  pub parts : xs ≡ ys ++ zs
  pub low : Before cmp node allow_equal ys
  pub high : Behind cmp node zs
  pub tree : RedBlack h' (ys ++ (node ∷ zs))
  pub sorted : Sorted cmp (ys ++ (node ∷ zs))

-- Either the tree is as it was, since equal nodes are not allowed and there is one, or the node
-- has been put in its place.
abbrev pub InsertOutcome :
    Compare
    → (h : Tree) (node allow_equal : ℕ) → (existed : Option ℕ) → (xs : List ℕ) → Tree
    → Ret
    → Option ℕ
    → Type 0
InsertOutcome cmp h node allow_equal existed xs h' ret seen =
    ((ret ≡ Ret.existed)
      × (h' ≡ h)
      × (allow_equal ≡ 0)
      × ((k : ℕ) × In k xs × IsEqual cmp node k × (seen ≡ note existed k)))
    ⊎ ((ret ≡ Ret.ok) × Noted cmp node xs existed seen × Placement cmp node allow_equal xs h')

module _ (cmp : Compare) (laws : IsOrder cmp) (node : ℕ) where
  Sorted-insert :
      (ys zs : List ℕ) (allow_equal : ℕ)
      → Sorted cmp (ys ++ zs)
      → Before cmp node allow_equal ys
      → Behind cmp node zs
      → Sorted cmp (ys ++ (node ∷ zs))
  Sorted-insert ys zs allow_equal s low high =
      let (left, right, between) = Sorted-split cmp ys zs s in
      Sorted-append cmp ys (node ∷ zs) left ((λ k i. laws.turn node k (high k i)), right)
        (λ a b i j. elim j [
          | inl e ↦ subst (λ b. is_negative (cmp b a) ≡ false) (sym e) ((low a i).0)
          | inr j ↦ between a b i j
        ])

module _ (cmp : Compare) (h : Tree) (node allow_equal : ℕ) (existed : Option ℕ) (fuel : ℕ) where
  -- The three calls of the function, one after the other.
  insert_run :
      (p : Placed) (r : Tree × Ret × Option ℕ)
      → ((node == 0) || not ((allow_equal == 0) || (allow_equal == 1))) ≡ false
      → insert_node cmp h node allow_equal existed fuel ≡ done p
      → rebalance fuel node p ≡ done r
      → insert cmp (some h) node allow_equal existed fuel ≡ done (some r.0, r.1, r.2)
  unfolding insert
  insert_run p r guard first second = rw (guard, first, second, insert) refl

  insert_node_run :
      (w : Walk)
      → is_empty h ≡ false
      → walk cmp h node allow_equal fuel existed h.root ≡ done w
      → insert_node cmp h node allow_equal existed fuel ≡ done (placed node h w)
  unfolding insert_node
  insert_node_run w full run = rw (full, run, insert_node) refl

  insert_node_empty :
      is_empty h ≡ true
      → insert_node cmp h node allow_equal existed fuel
        ≡ done (record {
          tree = put_root node h;
          ret = Ret.ok;
          existed = existed;
          need_rebalance = false;
        })
  unfolding insert_node
  insert_node_empty empty = rw (empty, insert_node) refl

  valid-guard :
      node ≢ 0
      → (allow_equal ≡ 0) ⊎ (allow_equal ≡ 1)
      → ((node == 0) || not ((allow_equal == 0) || (allow_equal == 1))) ≡ false
  valid-guard real flag = ground arith

module _ (cmp : Compare) (laws : IsOrder cmp) (h : Tree) (xs : List ℕ) (node allow_equal : ℕ)
    (existed : Option ℕ) (fuel : ℕ) where
  abbrev Inserts : Type 0
  Inserts =
      (h' : Tree) × (ret : Ret) × (seen : Option ℕ) × (insert cmp (some h) node allow_equal existed
          fuel
        ≡ done (some h', ret, seen))
      × InsertOutcome cmp h node allow_equal existed xs h' ret seen

  insert-after_walk :
      (w : Walk) (limit : ℕ)
      → ((node == 0) || not ((allow_equal == 0) || (allow_equal == 1))) ≡ false
      → is_empty h ≡ false
      → walk cmp h node allow_equal fuel existed h.root ≡ done w
      → Landed cmp h node allow_equal xs limit existed w
      → Sorted cmp xs
      → ¬ In node xs
      → node ≢ h.sentinel
      → limit < fuel
      → Inserts
  insert-after_walk (refused seen) limit guard full run (strict, found) sorted new real enough = (
    h,
    Ret.existed,
    seen,
    insert_run cmp h node allow_equal existed fuel (placed node h (Walk.refused seen))
        (h, Ret.existed, seen) guard
        (insert_node_run cmp h node allow_equal existed fuel (Walk.refused seen) full run) refl,
    inl (refl, refl, strict, found),
  )
  insert-after_walk (place seen q on_left) limit guard full run (noted, (up, a, ends, spot)) sorted
        new real enough =
      let ys = before up in
      let zs = behind up in
      let parts : xs ≡ ys ++ zs = sym spot.order ∙ around_eq up [] in
      let (h', fixed, tree) =
        insert_fixup-RedBlack fuel (put_leaf node q on_left h) (ys ++ (node ∷ zs)) node (
          put_leaf-Fixing cmp h node allow_equal xs limit fuel up q a on_left spot ends real new
            enough) in
      (
        h',
        Ret.ok,
        seen,
        insert_run cmp h node allow_equal existed fuel (placed node h (Walk.place seen q on_left))
            (h', Ret.ok, seen) guard
            (insert_node_run cmp h node allow_equal existed fuel (Walk.place seen q on_left) full
              run)
            (ap (λ m. m >>= λ t. done (t, Ret.ok, seen)) fixed),
        inr (
          refl,
          noted,
          record {
            ys = ys;
            zs = zs;
            parts = parts;
            low = spot.low;
            high = spot.high;
            tree = tree;
            sorted =
                Sorted-insert cmp laws node ys zs allow_equal (subst (Sorted cmp) parts sorted)
                  spot.low spot.high;
          },
        ),
      )

  insert-by_shape :
      (t : Shape) (n p : ℕ)
      → At h top p h.root t
      → IsBlack t
      → Balanced t n
      → inorder t ≡ xs
      → Sorted cmp xs
      → ¬ In node xs
      → node ≢ h.sentinel
      → node ≢ 0
      → (allow_equal ≡ 0) ⊎ (allow_equal ≡ 1)
      → height t < fuel
      → Inserts
  insert-by_shape tip n p w is_black b order sorted new real not_null flag enough =
      let empty : is_empty h ≡ true = (==_iff h.root h.sentinel).1 w.holds in
      (
        put_root node h,
        Ret.ok,
        existed,
        insert_run cmp h node allow_equal existed fuel _ (put_root node h, Ret.ok, existed)
            (valid-guard cmp h node allow_equal existed fuel not_null flag)
            (insert_node_empty cmp h node allow_equal existed fuel empty) refl,
        inr (
          refl,
          inl refl,
          record {
            ys = [];
            zs = [];
            parts = sym order;
            low = λ k i. absurd i;
            high = λ k i. absurd i;
            tree = put_root-RedBlack h node real w.black_end;
            sorted = ((λ k i. absurd i), tt);
          },
        ),
      )
  insert-by_shape (fork c l x r) n p w is_black b order sorted new real not_null flag enough =
      let inside : h.root ≢ h.sentinel = λ e. w.holds.1 (sym (w.holds.0) ∙ e) in
      let full : is_empty h ≡ false = ground arith in
      let (found, run, landed) =
        walk-Landed cmp laws h node allow_equal xs (height (fork c l x r)) (fork c l x r) top p
          h.root fuel existed existed
          (record {
            at = w;
            n = n;
            hole = tt;
            balanced = b;
            joint = inl is_black;
            low = λ k i. absurd i;
            high = λ k i. absurd i;
            sorted = subst (Sorted cmp) (sym order) sorted;
            order = order;
            reach = omega arith;
          })
          inside (omega arith) (inl refl) in
      insert-after_walk found (height (fork c l x r))
        (valid-guard cmp h node allow_equal existed fuel not_null flag) full run landed sorted new
        real enough

-- On a red-black tree that is sorted by a `cmp` that orders the nodes, for a node that is not in
-- it, not null and not the sentinel, for `allow_equal` 0 or 1, and with more fuel than the tree
-- is high, `st_rbtree_insert` terminates. If equal nodes are not allowed and one is there, it
-- returns `ST_EXISTED` with that node and changes nothing; otherwise it returns `ST_OK` and
-- leaves a sorted red-black tree of the old nodes in their order and the new one, which stands
-- behind all nodes that are not greater, and none of these is equal if equal nodes are not
-- allowed.
pub insert-Inserted :
    (cmp : Compare) (laws : IsOrder cmp) (h : Tree) (xs : List ℕ) (t : RedBlack h xs)
    (node allow_equal : ℕ) (existed : Option ℕ) (fuel : ℕ)
    → Sorted cmp xs
    → ¬ In node xs
    → node ≢ h.sentinel
    → node ≢ 0
    → (allow_equal ≡ 0) ⊎ (allow_equal ≡ 1)
    → height t.shape < fuel
    → (h' : Tree) × (ret : Ret) × (seen : Option ℕ) × (insert cmp
          (some h)
          node
          allow_equal
          existed
          fuel
        ≡ done (some h', ret, seen))
      × InsertOutcome cmp h node allow_equal existed xs h' ret seen
insert-Inserted cmp laws h xs t node allow_equal existed fuel sorted new real not_null flag enough =
    insert-by_shape cmp laws h xs node allow_equal existed fuel t.shape t.n (t.place.0) (t.place.1)
      t.is_black t.balanced t.order sorted new real not_null flag enough
