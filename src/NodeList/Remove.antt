-- ===== src/NodeList/Remove.antt =====
-- `st_list_remove`, and the functions that use it: `st_list_pop_first`, `st_list_move_head` and
-- `st_list_move_tail`.
use lua_sharedtable.Base.{
  ℕ, ◌≡◌, ◌≢◌, refl, sym, ap, ◌∙◌, subst, ◌⊎◌, inl, inr, List, [], ◌∷◌, ◌++◌, arith, false,
}
use lua_sharedtable.NodeList.{Store, remove, is_inited}
use lua_sharedtable.NodeList.Linked.{
  In, Distinct, Disjoint, Linked, Linked-append, Linked-split, Linked-frame, Linked-retarget,
  prev-In, In-apart, In-append, append-In, Distinct-append, Distinct-split, append_nil,
}
use lua_sharedtable.NodeList.Ring.{Ring, Ring-frame}

-- The neighbours `p` and `q` of `node` are linked; all other pointers are those of `s`.
record Bypassed (s : Store) (p node q : ℕ) (s' : Store) : Type 0 where
  over : s'.next p ≡ q
  back_over : s'.prev q ≡ p
  no_next : s'.next node ≡ 0
  no_prev : s'.prev node ≡ 0
  next_else : (k : ℕ) → k ≢ p → k ≢ node → s'.next k ≡ s.next k
  prev_else : (k : ℕ) → k ≢ q → k ≢ node → s'.prev k ≡ s.prev k

remove-Bypassed :
    (s : Store) (node : ℕ)
    → s.prev node ≢ node
    → s.next node ≢ node
    → Bypassed s (s.prev node) node (s.next node) (remove node s)
unfolding remove
remove-Bypassed s node before behind = record {
  over = ground arith;
  back_over = ground arith;
  no_next = ground arith;
  no_prev = ground arith;
  next_else = λ k x y. ground arith;
  prev_else = λ k x y. ground arith;
}

next-In :
    (s : Store) (a : ℕ) (xs : List ℕ) (b : ℕ) → Linked s a xs b → (s.next a ≡ b) ⊎ In (s.next a) xs
next-In s a [] b (fwd, back) = inl fwd
next-In s a (x ∷ xs) b (fwd, back, p) = inr (inl fwd)

-- The chain on both sides of a node that is bypassed.
Bypassed-Linked :
    (s s' : Store) (head node : ℕ) (xs ys : List ℕ)
    → Distinct (head ∷ xs)
    → Distinct (node ∷ ys)
    → Disjoint (head ∷ xs) (node ∷ ys)
    → Linked s head xs node
    → Linked s node ys head
    → Bypassed s (s.prev node) node (s.next node) s'
    → Linked s' head (xs ++ ys) head
Bypassed-Linked s s' head node xs [] before behind apart left (fwd, back) by =
    subst (λ l. Linked s' head l head) (sym (append_nil xs))
      (Linked-retarget s s' head xs node head before
        (λ k i other. by.next_else k other (λ e. apart k i (inl e)))
        (λ k i.
          by.prev_else k (λ e. In-apart k head xs (before.0) i (e ∙ fwd))
            (λ e. apart k (inr i) (inl e)))
        (by.over ∙ fwd) (ap s'.prev (sym fwd) ∙ by.back_over) left)
Bypassed-Linked s s' head node xs (y ∷ ys) before (not_in, (y_new, behind)) apart left
      (fwd, back, right) by =
    let p_in = prev-In s head xs node left in
    Linked-append s' head xs y ys head
      (Linked-retarget s s' head xs node y before
        (λ k i other. by.next_else k other (λ e. apart k i (inl e)))
        (λ k i.
          by.prev_else k (λ e. apart k (inr i) (inr (inl (e ∙ fwd))))
            (λ e. apart k (inr i) (inl e)))
        (by.over ∙ fwd) (ap s'.prev (sym fwd) ∙ by.back_over) left)
      (Linked-frame s s' y ys head
        (λ k i.
          by.next_else k (λ e. apart (s.prev node) p_in (inr (subst (λ k. In k (y ∷ ys)) e i)))
            (In-apart k node (y ∷ ys) not_in i))
        (λ k i.
          by.prev_else k (λ e. In-apart k y ys y_new i (e ∙ fwd))
            (In-apart k node (y ∷ ys) not_in (inr i)))
        (by.prev_else head (λ e. apart head (inl refl) (inr (inl (e ∙ fwd))))
          (λ e. apart head (inl refl) (inl e)))
        right)

module _ (s : Store) (head node : ℕ) (xs ys : List ℕ) (r : Ring s head (xs ++ (node ∷ ys))) where
  parts : Distinct (head ∷ xs) × Distinct (node ∷ ys) × Disjoint (head ∷ xs) (node ∷ ys)
  parts = Distinct-split (head ∷ xs) (node ∷ ys) r.distinct

  sides : Linked s head xs node × Linked s node ys head
  sides = Linked-split s head xs node ys head r.linked

  bypassed : Bypassed s (s.prev node) node (s.next node) (remove node s)
  bypassed =
      let (before, behind, apart) = parts in
      remove-Bypassed s node (λ e. apart (s.prev node) (prev-In s head xs node sides.0) (inl e))
        (λ e. elim (next-In s node ys head sides.1) [
          | inl at_head ↦ apart head (inl refl) (inl (sym at_head ∙ e))
          | inr i ↦ behind.0 (subst (λ k. In k ys) e i)
        ])

  pub node_outside : ¬ In node (head ∷ (xs ++ ys))
  node_outside i = elim (In-append node (head ∷ xs) ys i) [
    | inl l ↦ parts.2 node l (inl refl)
    | inr r ↦ parts.1.0 r
  ]

  removed-Ring : Ring (remove node s) head (xs ++ ys)
  removed-Ring =
      let (before, behind, apart) = parts in
      record {
        linked =
            Bypassed-Linked s (remove node s) head node xs ys before behind apart sides.0 sides.1
              bypassed;
        distinct = Distinct-append (head ∷ xs) ys before behind.1 (λ k i j. apart k i (inr j));
        no_null = λ i. r.no_null (
            append-In 0 (head ∷ xs) (node ∷ ys)
              (elim (In-append 0 (head ∷ xs) ys i) [ inl l ↦ inl l | inr l ↦ inr (inr l) ]));
      }

  not_inited : is_inited (remove node s) node ≡ false
  unfolding is_inited
  not_inited = ground (arith, bypassed.no_next)

  pub node-real : node ≢ 0
  node-real e = r.no_null (append-In 0 (head ∷ xs) (node ∷ ys) (inr (inl (sym e))))

  neighbours :
      In (s.prev node) (head ∷ (xs ++ (node ∷ ys))) × In (s.next node) (head ∷ (xs ++ (node ∷ ys)))
  neighbours = (
    append-In (s.prev node) (head ∷ xs) (node ∷ ys) (inl (prev-In s head xs node sides.0)),
    elim (next-In s node ys head sides.1) [
      | inl at_head ↦ inl at_head
      | inr i ↦ append-In (s.next node) (head ∷ xs) (node ∷ ys) (inr (inr i))
    ],
  )

  -- `st_list_remove` takes a node of a ring out of its list, wherever it stands, keeps the order
  -- of the others, leaves the node uninitialised, and leaves every ring alone that shares no node
  -- with this one.
  pub remove-Ring :
      Ring (remove node s) head (xs ++ ys)
      × (is_inited (remove node s) node ≡ false)
      × ((other : ℕ) (zs : List ℕ)
          → Disjoint (other ∷ zs) (head ∷ (xs ++ (node ∷ ys)))
          → Ring s other zs
          → Ring (remove node s) other zs)
  remove-Ring = (
    removed-Ring,
    not_inited,
    λ other zs apart.
        let in_ring = append-In node (head ∷ xs) (node ∷ ys) (inr (inl refl)) in
        Ring-frame s (remove node s) other zs (λ k i. (
          bypassed.next_else k
              (λ e. apart k i (subst (λ k. In k (head ∷ (xs ++ (node ∷ ys)))) (sym e) neighbours.0))
              (λ e. apart k i (subst (λ k. In k (head ∷ (xs ++ (node ∷ ys)))) (sym e) in_ring)),
          bypassed.prev_else k
              (λ e. apart k i (subst (λ k. In k (head ∷ (xs ++ (node ∷ ys)))) (sym e) neighbours.1))
              (λ e. apart k i (subst (λ k. In k (head ∷ (xs ++ (node ∷ ys)))) (sym e) in_ring)),
        )),
  )
