-- ===== src/NodeList.antt =====
-- src/list/list.h: doubly linked rings of nodes. A node is its address, 0 the null pointer; the store
-- holds the two pointers of every node, and each function rewrites it in the order of the source.
pub mod Linked
pub mod Ring
pub mod Insert
pub mod Remove
pub mod Move
pub mod Join
mod Tests
use lua_sharedtable.Base.{
  ℕ, zero, suc, Bool, true, false, not, ◌||◌, List, [], ◌∷◌, if◌then◌else◌, ◌==◌, Memory, write,
  Run, done, out_of_fuel, ◌>>=◌,
}

pub record Store : Type 0 where
  pub prev : Memory ℕ
  pub next : Memory ℕ

-- `a->prev = v` and `a->next = v`
abbrev pub set_prev : (a v : ℕ) → Store → Store
set_prev a v s = record s { prev = write s.prev a v }

abbrev pub set_next : (a v : ℕ) → Store → Store
set_next a v s = record s { next = write s.next a v }

unfoldable pub init : (node : ℕ) → Store → Store
init node s = set_next node node (set_prev node node s)

abbrev pub first : Store → (head : ℕ) → ℕ
first s head = s.next head

abbrev pub last : Store → (head : ℕ) → ℕ
last s head = s.prev head

unfoldable pub empty : Store → (head : ℕ) → Bool
empty s head = head == s.prev head

unfoldable pub insert_first : (head node : ℕ) → Store → Store
insert_first head node s =
    let s1 = set_next node (s.next head) s in
    let s2 = set_prev (s1.next node) node s1 in
    let s3 = set_prev node head s2 in set_next head node s3

unfoldable pub insert_last : (head node : ℕ) → Store → Store
insert_last head node s =
    let s1 = set_prev node (s.prev head) s in
    let s2 = set_next (s1.prev node) node s1 in
    let s3 = set_next node head s2 in set_prev head node s3

unfoldable pub remove : (node : ℕ) → Store → Store
remove node s =
    let s1 = set_prev (s.next node) (s.prev node) s in
    let s2 = set_next (s1.prev node) (s1.next node) s1 in set_next node 0 (set_prev node 0 s2)

unfoldable pub move_head : (node head : ℕ) → Store → Store
unfolding remove insert_first
move_head node head s = insert_first head node (remove node s)

unfoldable pub move_tail : (node head : ℕ) → Store → Store
unfolding remove insert_last
move_tail node head s = insert_last head node (remove node s)

unfoldable pub is_inited : Store → (node : ℕ) → Bool
is_inited s node = if (node == 0) || (s.next node == 0) || (s.prev node == 0) then false else true

unfoldable pub join : (dest src : ℕ) → Store → Store
unfolding empty init
join dest src s =
    if empty s src
    then s
    else (let s1 = set_next (s.prev dest) (s.next src) s in
        let s2 = set_prev (s1.next src) (s1.prev dest) s1 in
        let s3 = set_prev dest (s2.prev src) s2 in
        let s4 = set_next (s3.prev dest) dest s3 in init src s4)

-- The store and the node, null from an empty list.
unfoldable pub pop_first : (head : ℕ) → Store → Store × ℕ
unfolding empty remove
pop_first head s = if empty s head then (s, 0) else (remove (s.next head) s, s.next head)

-- The nodes that `st_list_for_each` visits, from `node` on.
unfoldable pub for_each : Store → (head fuel node : ℕ) → Run (List ℕ)
for_each s head zero node = out_of_fuel
for_each s head (suc fuel) node = elim (node == head) [
  | true ↦ done []
  | false ↦ for_each s head fuel (s.next node) >>= λ rest. done (node ∷ rest)
]
