-- ===== src/RbTree/Balance.antt =====
-- The two rules of red-black trees: a red node has black children, and all paths down from a node
-- pass the same number of black nodes.
use lua_sharedtable.Base.{ℕ, zero, suc, ◌≡◌, refl, ◌⊎◌, inl, inr, arith}
use lua_sharedtable.RbTree.Shape.{Shape, tip, fork, Trail, top, in_left, in_right, plug}
use lua_sharedtable.RbTree.Mirror.{mirror, mirror_path}

abbrev pub IsBlack : Shape → Type 0
IsBlack tip = Unit {0}
IsBlack (fork c l x r) = c ≡ 0

-- `n` black nodes on each path.
abbrev pub Balanced : Shape → (n : ℕ) → Type 0
Balanced tip n = n ≡ 0
Balanced (fork zero l x r) n = (m : ℕ) × (n ≡ suc m) × Balanced l m × Balanced r m
Balanced (fork (suc c) l x r) n = IsBlack l × IsBlack r × Balanced l n × Balanced r n

-- The next node up is there and black.
abbrev pub BlackAbove : Trail → Type 0
BlackAbove top = ⊥
BlackAbove (in_left c x r up) = c ≡ 0
BlackAbove (in_right c l x up) = c ≡ 0

-- A black tree with `n` black nodes on each path fits.
abbrev pub Hole : Trail → (n : ℕ) → Type 0
Hole top n = Unit {0}
Hole (in_left zero x r up) n = Balanced r n × Hole up (suc n)
Hole (in_left (suc c) x r up) n = Balanced r n × IsBlack r × BlackAbove up × Hole up n
Hole (in_right zero l x up) n = Balanced l n × Hole up (suc n)
Hole (in_right (suc c) l x up) n = Balanced l n × IsBlack l × BlackAbove up × Hole up n

-- No red node is the child of a red one here.
abbrev pub Joint : Trail → Shape → Type 0
Joint top t = Unit {0}
Joint (in_left c x r up) t = (c ≡ 0) ⊎ IsBlack t
Joint (in_right c l x up) t = (c ≡ 0) ⊎ IsBlack t

pub BlackAbove-Joint : (up : Trail) (t : Shape) → BlackAbove up → Joint up t
BlackAbove-Joint top t b = tt
BlackAbove-Joint (in_left c x r up) t b = inl b
BlackAbove-Joint (in_right c l x up) t b = inl b

pub black-Joint : (up : Trail) (t : Shape) → IsBlack t → Joint up t
black-Joint top t b = tt
black-Joint (in_left c x r up) t b = inr b
black-Joint (in_right c l x up) t b = inr b

pub plug-Balanced :
    (up : Trail) (t : Shape) (n : ℕ)
    → Hole up n
    → Joint up t
    → Balanced t n
    → (m : ℕ) × Balanced (plug up t) m
plug-Balanced top t n hole joint b = (n, b)
plug-Balanced (in_left zero x r up) t n (other, hole) joint b =
    plug-Balanced up (fork 0 t x r) (suc n) hole (black-Joint up (fork 0 t x r) refl)
      (n, refl, b, other)
plug-Balanced (in_left (suc c) x r up) t n (other, is_black, above, hole) joint b =
    let mine : IsBlack t = elim joint [ inl e ↦ absurd (omega arith) | inr m ↦ m ] in
    plug-Balanced up (fork (suc c) t x r) n hole (BlackAbove-Joint up (fork (suc c) t x r) above)
      (mine, is_black, b, other)
plug-Balanced (in_right zero l x up) t n (other, hole) joint b =
    plug-Balanced up (fork 0 l x t) (suc n) hole (black-Joint up (fork 0 l x t) refl)
      (n, refl, other, b)
plug-Balanced (in_right (suc c) l x up) t n (other, is_black, above, hole) joint b =
    let mine : IsBlack t = elim joint [ inl e ↦ absurd (omega arith) | inr m ↦ m ] in
    plug-Balanced up (fork (suc c) l x t) n hole (BlackAbove-Joint up (fork (suc c) l x t) above)
      (is_black, mine, other, b)

-- The root of a balanced tree can be painted black.
pub blacken-Balanced :
    (c : ℕ) (l : Shape) (x : ℕ) (r : Shape) (n : ℕ)
    → Balanced (fork c l x r) n
    → (m : ℕ) × Balanced (fork 0 l x r) m
blacken-Balanced zero l x r n b = (n, b)
blacken-Balanced (suc c) l x r n (_, _, left, right) = (suc n, (n, refl, left, right))

pub mirror-IsBlack : (t : Shape) → IsBlack t → IsBlack (mirror t)
mirror-IsBlack tip b = tt
mirror-IsBlack (fork c l x r) b = b

pub mirror-Balanced : (t : Shape) (n : ℕ) → Balanced t n → Balanced (mirror t) n
mirror-Balanced tip n b = b
mirror-Balanced (fork zero l x r) n (m, e, left, right) =
    (m, e, mirror-Balanced r m right, mirror-Balanced l m left)
mirror-Balanced (fork (suc c) l x r) n (bl, br, left, right) =
    (mirror-IsBlack r br, mirror-IsBlack l bl, mirror-Balanced r n right, mirror-Balanced l n left)

mirror-BlackAbove : (up : Trail) → BlackAbove up → BlackAbove (mirror_path up)
mirror-BlackAbove top b = b
mirror-BlackAbove (in_left c x r up) b = b
mirror-BlackAbove (in_right c l x up) b = b

pub mirror-Hole : (up : Trail) (n : ℕ) → Hole up n → Hole (mirror_path up) n
mirror-Hole top n hole = tt
mirror-Hole (in_left zero x r up) n (b, hole) = (mirror-Balanced r n b, mirror-Hole up (suc n) hole)
mirror-Hole (in_left (suc c) x r up) n (b, is_black, above, hole) = (
  mirror-Balanced r n b,
  mirror-IsBlack r is_black,
  mirror-BlackAbove up above,
  mirror-Hole up n hole,
)
mirror-Hole (in_right zero l x up) n (b, hole) =
    (mirror-Balanced l n b, mirror-Hole up (suc n) hole)
mirror-Hole (in_right (suc c) l x up) n (b, is_black, above, hole) = (
  mirror-Balanced l n b,
  mirror-IsBlack l is_black,
  mirror-BlackAbove up above,
  mirror-Hole up n hole,
)
