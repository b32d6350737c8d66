-- ===== src/NodeList/Move.antt =====
-- `st_list_pop_first`, `st_list_move_head` and `st_list_move_tail`.
use lua_sharedtable.Base.{
  ℕ, ◌≡◌, refl, sym, ap, subst, inl, inr, List, [], ◌∷◌, ◌++◌, false, true, Bool-cases,
}
use lua_sharedtable.NodeList.{Store, empty, remove, is_inited, pop_first, move_head, move_tail}
use lua_sharedtable.NodeList.Ring.{Ring, empty_iff}
use lua_sharedtable.NodeList.Insert.{insert_first-Ring, insert_last-Ring}
use lua_sharedtable.NodeList.Remove.{remove-Ring, node_outside, node-real}

-- What a call on the ring of the list leaves: null and the store as it was from an empty list, else the first node and
-- the ring of the others.
abbrev pub Popped : Store → (head : ℕ) → List ℕ → Store × ℕ → Type 0
Popped s head [] r = r ≡ (s, 0)
Popped s head (x ∷ xs) r = (r.1 ≡ x) × Ring (r.0) head xs × (is_inited (r.0) x ≡ false)

-- On a ring, `st_list_pop_first` returns null and changes nothing if the list is empty, and
-- otherwise returns its first node, uninitialised, and leaves the ring of the others.
pub pop_first-Popped :
    (s : Store) (head : ℕ) (xs : List ℕ) → Ring s head xs → Popped s head xs (pop_first head s)
unfolding pop_first
pop_first-Popped s head [] r =
    let no_more : empty s head ≡ true = (empty_iff s head [] r).1 refl in rw no_more refl
pop_first-Popped s head (x ∷ xs) r = elim (Bool-cases (empty s head)) [
  | inl none ↦ let bad = (empty_iff s head (x ∷ xs) r).0 none in cc
  | inr more ↦
      let (ring, off, rest) = remove-Ring s head x [] xs r in
      let popped : pop_first head s ≡ (remove x s, x) =
        rw more (ap (λ n. (remove n s, n)) (r.linked.0)) in
      subst (Popped s head (x ∷ xs)) (sym popped) (refl, ring, off)
]

-- `st_list_move_head` moves a node of a ring to the front of its list and keeps the order of the
-- others.
pub move_head-Ring :
    (s : Store) (head node : ℕ) (xs ys : List ℕ)
    → Ring s head (xs ++ (node ∷ ys))
    → Ring (move_head node head s) head (node ∷ (xs ++ ys))
unfolding move_head
move_head-Ring s head node xs ys r =
    (insert_first-Ring (remove node s) head node (xs ++ ys) (remove-Ring s head node xs ys r).0
      (node-real s head node xs ys r) (node_outside s head node xs ys r)).0

-- `st_list_move_tail` moves a node of a ring to the end of its list and keeps the order of the
-- others.
pub move_tail-Ring :
    (s : Store) (head node : ℕ) (xs ys : List ℕ)
    → Ring s head (xs ++ (node ∷ ys))
    → Ring (move_tail node head s) head ((xs ++ ys) ++ (node ∷ []))
unfolding move_tail
move_tail-Ring s head node xs ys r =
    (insert_last-Ring (remove node s) head node (xs ++ ys) (remove-Ring s head node xs ys r).0
      (node-real s head node xs ys r) (node_outside s head node xs ys r)).0
