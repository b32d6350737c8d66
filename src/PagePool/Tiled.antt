-- ===== src/PagePool/Tiled.antt =====
-- A region as a row of runs of pages, and the runs after a split and after a merge.
use lua_sharedtable.Base.{
  ℕ, zero, suc, ◌+◌, ◌≤◌, ◌<◌, ◌≡◌, refl, sym, ap, ◌∙◌, inl, inr, arith, true, false, ◌&&◌,
  Bool-cases, List, [], ◌∷◌, if◌then◌else◌, ltb, leb, ◌==◌, ◌^◌, Memory, write, ℤ, pos, to_int16,
}
use lua_sharedtable.PagePool.Pages.{
  Page, PageState, PageType, free, allocated, master, slave, free_loop, use_loop, remain_loop,
}

-- A run of pages: its length, which an `int16_t` holds, and the state of its pages.
pub record Block : Type 0 where
  pub cnt : ℕ
  pub state : PageState

abbrev pub kind_at : ℕ → PageType
kind_at k = if k == 0 then master else slave

-- The pages from `i` on are those of a run: the first is the master.
pub record IsBlock (pages : Memory Page) (i : ℕ) (b : Block) : Type 0 where
  pub some_page : 0 < b.cnt
  pub small : b.cnt < 2 ^ 15
  pub page_at :
      (k : ℕ)
      → k < b.cnt
      → pages (i + k)
        ≡ (record { state = b.state; kind = kind_at k; compound_page_cnt = pos b.cnt })

-- The pages from `i` up to `n` are the runs of the list, one behind the other.
abbrev pub Tiled : Memory Page → (i : ℕ) → List Block → (n : ℕ) → Type 0
Tiled pages i [] n = i ≡ n
Tiled pages i (b ∷ bs) n = IsBlock pages i b × Tiled pages (i + b.cnt) bs n

pub Tiled-le : (pages : Memory Page) (i : ℕ) (bs : List Block) (n : ℕ) → Tiled pages i bs n → i ≤ n
Tiled-le pages i [] n t = omega (arith, t)
Tiled-le pages i (b ∷ bs) n (p, t) = omega (arith, Tiled-le pages (i + b.cnt) bs n t)

pub Tiled-frame :
    (pages pages' : Memory Page) (i : ℕ) (bs : List Block) (n : ℕ)
    → ((j : ℕ) → i ≤ j → j < n → pages' j ≡ pages j)
    → Tiled pages i bs n
    → Tiled pages' i bs n
Tiled-frame pages pages' i [] n same t = t
Tiled-frame pages pages' i (b ∷ bs) n same (p, t) = (
  record {
    some_page = p.some_page;
    small = p.small;
    page_at = λ k l.
        same (i + k) (omega arith) (omega (arith, l, Tiled-le pages (i + b.cnt) bs n t))
        ∙ p.page_at k l;
  },
  Tiled-frame pages pages' (i + b.cnt) bs n (λ j lo hi. same j (omega (arith, lo)) hi) t,
)

pub free_loop-at :
    (cnt : ℤ) (left i : ℕ) (pages : Memory Page) (j : ℕ)
    → free_loop cnt left i pages j ≡ (
        if leb i j && ltb j (i + left)
        then record { state = free; kind = slave; compound_page_cnt = to_int16 cnt }
        else pages j)
unfolding free_loop
free_loop-at cnt zero i pages j =
    let outside : (leb i j && ltb j (i + 0)) ≡ false = ground arith in rw outside
free_loop-at cnt (suc left) i pages j =
    free_loop-at cnt left (i + 1)
      (write pages i (record { state = free; kind = slave; compound_page_cnt = to_int16 cnt })) j
    ∙ ground arith

-- One page changed and then those behind it: the pages of the whole range are changed.
changed_range :
    (f : Page → Page) (left i : ℕ) (pages : Memory Page) (j : ℕ)
    → (if leb (i + 1) j && ltb j (i + 1 + left)
        then f (write pages i (f (pages i)) j)
        else write pages i (f (pages i)) j)
      ≡ (if leb i j && ltb j (i + suc left) then f (pages j) else pages j)
changed_range f left i pages j = elim (Bool-cases (j == i)) [
  | inl here ↦
      let at : j ≡ i = ground arith in
      let not_behind : (leb (i + 1) j && ltb j (i + 1 + left)) ≡ false = ground arith in
      let inside : (leb i j && ltb j (i + suc left)) ≡ true = ground arith in
      rw (not_behind, inside, here) (ap (λ k. f (pages k)) (sym at))
  | inr other ↦
      let same_test : (leb (i + 1) j && ltb j (i + 1 + left)) ≡ (leb i j && ltb j (i + suc left)) =
        ground arith in
      rw (same_test, other) refl
]

pub use_loop-at :
    (cnt : ℤ) (left i : ℕ) (pages : Memory Page) (j : ℕ)
    → use_loop cnt left i pages j ≡ (
        if leb i j && ltb j (i + left)
        then record (pages j) { state = allocated; compound_page_cnt = to_int16 cnt }
        else pages j)
unfolding use_loop
use_loop-at cnt zero i pages j =
    let outside : (leb i j && ltb j (i + 0)) ≡ false = ground arith in rw outside
use_loop-at cnt (suc left) i pages j =
    use_loop-at cnt left (i + 1)
      (write pages i (record (pages i) { state = allocated; compound_page_cnt = to_int16 cnt })) j
    ∙ changed_range (λ q. record q { state = allocated; compound_page_cnt = to_int16 cnt }) left i
        pages j

pub remain_loop-at :
    (cnt : ℤ) (left i : ℕ) (pages : Memory Page) (j : ℕ)
    → remain_loop cnt left i pages j ≡ (
        if leb i j && ltb j (i + left)
        then record (pages j) { compound_page_cnt = to_int16 cnt }
        else pages j)
unfolding remain_loop
remain_loop-at cnt zero i pages j =
    let outside : (leb i j && ltb j (i + 0)) ≡ false = ground arith in rw outside
remain_loop-at cnt (suc left) i pages j =
    remain_loop-at cnt left (i + 1)
      (write pages i (record (pages i) { compound_page_cnt = to_int16 cnt })) j
    ∙ changed_range (λ q. record q { compound_page_cnt = to_int16 cnt }) left i pages j
