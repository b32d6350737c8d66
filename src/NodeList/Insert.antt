-- ===== src/NodeList/Insert.antt =====
-- `st_list_insert_first` and `st_list_insert_last`.
use lua_sharedtable.Base.{
  ℕ, ◌≡◌, ◌≢◌, refl, sym, ap, ◌∙◌, subst, inl, inr, List, [], ◌∷◌, ◌++◌, arith,
}
use lua_sharedtable.NodeList.{Store, insert_first, insert_last}
use lua_sharedtable.NodeList.Linked.{
  In, Disjoint, Linked, Linked-append, Linked-frame, Linked-retarget, prev-In, In-apart, In-append,
  Distinct-append,
}
use lua_sharedtable.NodeList.Ring.{Ring, Ring-frame}

-- `node` stands between `p` and `q`; all other pointers are those of `s`.
record Spliced (s : Store) (p node q : ℕ) (s' : Store) : Type 0 where
  to_node : s'.next p ≡ node
  from_node : s'.next node ≡ q
  back_to_node : s'.prev q ≡ node
  back_from_node : s'.prev node ≡ p
  next_else : (k : ℕ) → k ≢ p → k ≢ node → s'.next k ≡ s.next k
  prev_else : (k : ℕ) → k ≢ q → k ≢ node → s'.prev k ≡ s.prev k

insert_first-Spliced :
    (s : Store) (head node : ℕ)
    → node ≢ head
    → node ≢ s.next head
    → Spliced s head node (s.next head) (insert_first head node s)
unfolding insert_first
insert_first-Spliced s head node other apart = record {
  to_node = ground arith;
  from_node = ground arith;
  back_to_node = ground arith;
  back_from_node = ground arith;
  next_else = λ k x y. ground arith;
  prev_else = λ k x y. ground arith;
}

insert_last-Spliced :
    (s : Store) (head node : ℕ)
    → node ≢ head
    → node ≢ s.prev head
    → Spliced s (s.prev head) node head (insert_last head node s)
unfolding insert_last
insert_last-Spliced s head node other apart = record {
  to_node = ground arith;
  from_node = ground arith;
  back_to_node = ground arith;
  back_from_node = ground arith;
  next_else = λ k x y. ground arith;
  prev_else = λ k x y. ground arith;
}

-- Linked behind the last node of a ring, a node outside it becomes its last one.
Spliced-last :
    (s s' : Store) (head node : ℕ) (xs : List ℕ)
    → Ring s head xs
    → ¬ In node (head ∷ xs)
    → Spliced s (s.prev head) node head s'
    → Linked s' head (xs ++ (node ∷ [])) head
Spliced-last s s' head node xs r outside sp =
    Linked-append s' head xs node [] head
      (Linked-retarget s s' head xs head node r.distinct
        (λ k i other. sp.next_else k other (In-apart k node (head ∷ xs) outside i))
        (λ k i.
          sp.prev_else k (In-apart k head xs r.distinct.0 i)
            (In-apart k node (head ∷ xs) outside (inr i)))
        sp.to_node sp.back_from_node r.linked)
      (sp.from_node, sp.back_to_node)

Spliced-first :
    (s s' : Store) (head node : ℕ) (xs : List ℕ)
    → Ring s head xs
    → ¬ In node (head ∷ xs)
    → Spliced s head node (s.next head) s'
    → Linked s' head (node ∷ xs) head
Spliced-first s s' head node [] r outside sp =
    let (fwd, back) = r.linked in
    (sp.to_node, sp.back_from_node, (sp.from_node ∙ fwd, ap s'.prev (sym fwd) ∙ sp.back_to_node))
Spliced-first s s' head node (x ∷ xs) r outside sp =
    let (fwd, back, linked) = r.linked in
    let (not_in, (x_not_in, distinct)) = r.distinct in
    (
      sp.to_node,
      sp.back_from_node,
      (
        sp.from_node ∙ fwd,
        ap s'.prev (sym fwd) ∙ sp.back_to_node,
        Linked-frame s s' x xs head
            (λ k i.
              sp.next_else k (In-apart k head (x ∷ xs) not_in i)
                (In-apart k node (head ∷ x ∷ xs) outside (inr i)))
            (λ k i.
              sp.prev_else k (λ e. x_not_in (subst (λ k. In k xs) (e ∙ fwd) i))
                (In-apart k node (head ∷ x ∷ xs) outside (inr (inr i))))
            (sp.prev_else head (λ e. not_in (inl (e ∙ fwd)))
              (In-apart head node (head ∷ x ∷ xs) outside (inl refl)))
            linked,
      ),
    )

next-In : (s : Store) (a : ℕ) (xs : List ℕ) → Linked s a xs a → In (s.next a) (a ∷ xs)
next-In s a [] (fwd, back) = inl fwd
next-In s a (x ∷ xs) (fwd, back, p) = inr (inl fwd)

-- A ring that has no node in common with another and the new node stays as it is.
Spliced-apart :
    (s s' : Store) (p node q : ℕ) (nodes : List ℕ) (other : ℕ) (ys : List ℕ)
    → Spliced s p node q s'
    → In p nodes
    → In q nodes
    → Disjoint (other ∷ ys) (node ∷ nodes)
    → Ring s other ys
    → Ring s' other ys
Spliced-apart s s' p node q nodes other ys sp p_in q_in apart = Ring-frame s s' other ys (λ k i. (
  sp.next_else k (λ e. apart k i (inr (subst (λ k. In k nodes) (sym e) p_in)))
      (λ e. apart k i (inl e)),
  sp.prev_else k (λ e. apart k i (inr (subst (λ k. In k nodes) (sym e) q_in)))
      (λ e. apart k i (inl e)),
))

module _ (s : Store) (head node : ℕ) (xs : List ℕ) (r : Ring s head xs) (real : node ≢ 0)
    (outside : ¬ In node (head ∷ xs)) where
  -- On a ring and for a node that is not null and not in it, `st_list_insert_first` makes the
  -- node the first of the list, keeps the order of the others, and leaves every ring alone that
  -- shares no node with them.
  pub insert_first-Ring :
      Ring (insert_first head node s) head (node ∷ xs)
      × ((other : ℕ) (ys : List ℕ)
          → Disjoint (other ∷ ys) (node ∷ head ∷ xs)
          → Ring s other ys
          → Ring (insert_first head node s) other ys)
  insert_first-Ring =
      let sp =
        insert_first-Spliced s head node (λ e. outside (inl e))
          (λ e. outside (subst (λ k. In k (head ∷ xs)) (sym e) (next-In s head xs r.linked))) in
      (
        record {
          linked = Spliced-first s (insert_first head node s) head node xs r outside sp;
          distinct = (
            (λ i. elim i [ inl e ↦ outside (inl (sym e)) | inr i ↦ r.distinct.0 i ]),
            ((λ i. outside (inr i)), r.distinct.1),
          );
          no_null = λ i. elim i [
            | inl e ↦ r.no_null (inl e)
            | inr (inl e) ↦ real (sym e)
            | inr (inr i) ↦ r.no_null (inr i)
          ];
        },
        λ other ys.
            Spliced-apart s (insert_first head node s) head node (s.next head) (head ∷ xs) other ys
              sp (inl refl) (next-In s head xs r.linked),
      )

  -- On a ring and for a node that is not null and not in it, `st_list_insert_last` makes the node
  -- the last of the list, keeps the order of the others, and leaves every ring alone that shares
  -- no node with them.
  pub insert_last-Ring :
      Ring (insert_last head node s) head (xs ++ (node ∷ []))
      × ((other : ℕ) (ys : List ℕ)
          → Disjoint (other ∷ ys) (node ∷ head ∷ xs)
          → Ring s other ys
          → Ring (insert_last head node s) other ys)
  insert_last-Ring =
      let last_in = prev-In s head xs head r.linked in
      let sp =
        insert_last-Spliced s head node (λ e. outside (inl e))
          (λ e. outside (subst (λ k. In k (head ∷ xs)) (sym e) last_in)) in
      (
        record {
          linked = Spliced-last s (insert_last head node s) head node xs r outside sp;
          distinct =
              Distinct-append (head ∷ xs) (node ∷ []) r.distinct ((λ i. i), tt)
                (λ k i j. elim j [
                  | inl e ↦ outside (subst (λ k. In k (head ∷ xs)) e i)
                  | inr j ↦ j
                ]);
          no_null = λ i. elim (In-append 0 (head ∷ xs) (node ∷ []) i) [
            | inl i ↦ r.no_null i
            | inr (inl e) ↦ real (sym e)
            | inr (inr i) ↦ i
          ];
        },
        λ other ys.
            Spliced-apart s (insert_last head node s) (s.prev head) node head (head ∷ xs) other ys
              sp last_in (inl refl),
      )
