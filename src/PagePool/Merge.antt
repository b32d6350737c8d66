-- ===== src/PagePool/Merge.antt =====
-- `st_pagepool_merge_pages`: the run that is freed takes in the free runs beside it.
use lua_sharedtable.Base.{
  ℕ, ◌+◌, ◌-◌, ◌<◌, ◌≡◌, refl, sym, ap, ◌∙◌, subst, inl, inr, arith, true, false, Bool-cases,
  Option, none, some, List, [], ◌∷◌, ◌++◌, if◌then◌else◌, ◌==◌, ◌^◌, Memory, pos, minus_le, done,
}
use lua_sharedtable.PagePool.Pages.{
  Page, free, is_free, prev_pages, next_pages, free_one, count, or_self, masters, merge_pages,
}
use lua_sharedtable.PagePool.Tiled.{Block, IsBlock, Tiled, Tiled-frame, Tiled-le}
use lua_sharedtable.PagePool.Runs.{free_run, IsBlock-free_run, free_run-frame}

-- The run beside another, if there is one.
abbrev pub runs : Option Block → List Block
runs none = []
runs (some x) = x ∷ []

-- What is left of a neighbour, what it adds, and its master if it is taken in.
abbrev pub kept : Option Block → List Block
kept none = []
kept (some x) = if is_free x.state then [] else (x ∷ [])

abbrev pub added : Option Block → ℕ
added none = 0
added (some x) = if is_free x.state then x.cnt else 0

abbrev pub taken : Option Block → (at : ℕ) → Option ℕ
taken none at = none
taken (some x) at = if is_free x.state then some at else none

Tiled-append :
    (pages : Memory Page) (a : ℕ) (l : List Block) (m : ℕ) (r : List Block) (n : ℕ)
    → Tiled pages a l m
    → Tiled pages m r n
    → Tiled pages a (l ++ r) n
Tiled-append pages a [] m r n t u = subst (λ k. Tiled pages k r n) (sym t) u
Tiled-append pages a (b ∷ l) m r n (p, t) u = (p, Tiled-append pages (a + b.cnt) l m r n t u)

-- The fields of the first and of the last page of a run.
first_page :
    (pages : Memory Page) (i : ℕ) (b : Block)
    → IsBlock pages i b
    → ((pages i).compound_page_cnt ≡ pos b.cnt) × ((pages i).state ≡ b.state)
first_page pages i b run =
    let at : pages (i + 0) ≡ pages i = ap pages (omega arith) in
    let page = sym at ∙ run.page_at 0 run.some_page in
    (ap (λ (q : Page). q.compound_page_cnt) page, ap (λ (q : Page). q.state) page)

last_page :
    (pages : Memory Page) (i : ℕ) (b : Block)
    → IsBlock pages i b
    → (pages (i + b.cnt - 1)).compound_page_cnt ≡ pos b.cnt
last_page pages i b run =
    let at : i + b.cnt - 1 ≡ i + (b.cnt - 1) = omega (arith, run.some_page) in
    ap (λ j. (pages j).compound_page_cnt) at
    ∙ ap (λ (q : Page). q.compound_page_cnt)
        (run.page_at (b.cnt - 1) (omega (arith, run.some_page)))

module _ (pages : Memory Page) where
  prev-taken :
      (p : Option Block) (h i : ℕ)
      → Tiled pages h (runs p) i
      → (p ≡ none → i ≡ 0)
      → (prev : Option ℕ) × (prev_pages pages i ≡ done prev) × (free_one pages prev ≡ taken p h)
  unfolding prev_pages
  prev-taken none h i t start =
      let at : i ≡ 0 = start refl in (none, rw (at, prev_pages) refl, refl)
  prev-taken (some x) h i (run, t) start =
      let inside : (i == 0) ≡ false = ground (arith, t, run.some_page) in
      let length : (pages (i - 1)).compound_page_cnt ≡ pos x.cnt =
        ap (λ k. (pages (k - 1)).compound_page_cnt) (sym t) ∙ last_page pages h x run in
      let back : i - x.cnt ≡ h = omega (arith, t) in
      (
        some h,
        rw (inside, prev_pages, length, minus_le i x.cnt (omega (arith, t)), back) refl,
        rw ((first_page pages h x run).1) refl,
      )

  next-taken :
      (q : Option Block) (i : ℕ) (b : Block) (j : ℕ) (r : List Block) (n : ℕ)
      → IsBlock pages i b
      → Tiled pages (i + b.cnt) (runs q) j
      → Tiled pages j r n
      → (q ≡ none → j ≡ n)
      → (next : Option ℕ) × (next_pages n pages i ≡ done next)
        × (free_one pages next ≡ taken q (i + b.cnt))
  unfolding next_pages
  next-taken none i b j r n run t u end =
      let at : (i + b.cnt == n) ≡ true = ground (arith, t, end refl) in
      (none, rw (next_pages, (first_page pages i b run).0, at) refl, refl)
  next-taken (some y) i b j r n run (next, t) u end =
      let more : (i + b.cnt == n) ≡ false =
        ground (arith, t, next.some_page, Tiled-le pages j r n u) in
      (
        some (i + b.cnt),
        rw (next_pages, (first_page pages i b run).0, more, (first_page pages i b run).0) refl,
        rw ((first_page pages (i + b.cnt) y next).1) refl,
      )

  count-taken :
      (p : Option Block) (h i : ℕ)
      → Tiled pages h (runs p) i
      → count pages (taken p h) ≡ pos (added p)
  count-taken none h i t = refl
  count-taken (some x) h i (run, t) = elim (Bool-cases (is_free x.state)) [
    | inl free_run ↦ rw free_run ((first_page pages h x run).0)
    | inr used_run ↦ rw used_run refl
  ]

  kept-front :
      (p : Option Block) (h i : ℕ)
      → Tiled pages h (runs p) i
      → Tiled pages h (kept p) (or_self (taken p h) i) × (or_self (taken p h) i + added p ≡ i)
  kept-front none h i t = (t, omega arith)
  kept-front (some x) h i (run, t) = elim (Bool-cases (is_free x.state)) [
    | inl free_run ↦ rw free_run (refl, omega (arith, t))
    | inr used_run ↦ rw used_run ((run, t), omega arith)
  ]

  kept-back :
      (q : Option Block) (e j : ℕ) (r : List Block) (n : ℕ)
      → Tiled pages e (runs q) j
      → Tiled pages j r n
      → Tiled pages (e + added q) (kept q ++ r) n
  kept-back none e j r n t u = subst (λ k. Tiled pages k r n) (omega (arith, t)) u
  kept-back (some y) e j r n (next, t) u = elim (Bool-cases (is_free y.state)) [
    | inl free_run ↦ rw free_run (subst (λ k. Tiled pages k r n) (omega (arith, t)) u)
    | inr used_run ↦
        let at : e + 0 ≡ e = omega arith in
        rw (used_run, at) (next, subst (λ k. Tiled pages k r n) (sym t) u)
  ]

-- A region of `n` pages in which the run `b` stands at `i`, between the neighbours `p` and `q`, if they are there.
pub record Around (pages : Memory Page) (l : List Block) (p : Option Block) (b : Block)
    (q : Option Block) (r : List Block) (h i j n : ℕ) : Type 0 where
  pub front : Tiled pages 0 l h
  pub before : Tiled pages h (runs p) i
  pub run : IsBlock pages i b
  pub behind : Tiled pages (i + b.cnt) (runs q) j
  pub back : Tiled pages j r n
  pub no_before : p ≡ none → i ≡ 0
  pub no_behind : q ≡ none → j ≡ n

module _ (pages : Memory Page) (l : List Block) (p : Option Block) (b : Block) (q : Option Block)
    (r : List Block) (h i j n : ℕ) (a : Around pages l p b q r h i j n) (small : n < 2 ^ 15) where
  abbrev pub total : ℕ
  total = b.cnt + added p + added q

  abbrev pub start : ℕ
  start = or_self (taken p h) i

  total-pos : 0 < total
  total-pos = omega (arith, a.run.some_page)

  merge_pages-run :
      merge_pages n pages i
      ≡ done
          (free_run total start pages, start, masters (taken p h) ++ masters (taken q (i + b.cnt)))
  unfolding merge_pages
  merge_pages-run =
      let (prev, went_back, before) = prev-taken pages p h i a.before a.no_before in
      let (next, went_on, behind) =
        next-taken pages q i b j r n a.run a.behind a.back a.no_behind in
      rw
        (
          merge_pages,
          went_back,
          went_on,
          before,
          behind,
          (first_page pages i b a.run).0,
          count-taken pages p h i a.before,
          count-taken pages q (i + b.cnt) j a.behind,
        )
        refl

  total-small : total < 2 ^ 15
  total-small =
      let (left, size) = kept-front pages p h i a.before in
      let right = kept-back pages q (i + b.cnt) j r n a.behind a.back in
      let end = Tiled-le pages (i + b.cnt + added q) (kept q ++ r) n right in
      omega (arith, size, end, small)

  merged-Tiled :
      Tiled
        (free_run total start pages)
        0
        (l ++ (kept p ++ ((record { cnt = total; state = free }) ∷ (kept q ++ r))))
        n
  merged-Tiled =
      let new = free_run total start pages in
      let (left, size) = kept-front pages p h i a.before in
      let right = kept-back pages q (i + b.cnt) j r n a.behind a.back in
      let end : i + b.cnt + added q ≡ start + total = omega (arith, size) in
      let low : (k : ℕ) → k < start → new k ≡ pages k =
        λ k lt. free_run-frame total start pages k total-pos (inl lt) in
      Tiled-append new 0 l h _ n
        (Tiled-frame pages new 0 l h
          (λ k lo hi. low k (omega (arith, hi, Tiled-le pages h (kept p) start left))) a.front)
        (Tiled-append new h (kept p) start _ n
          (Tiled-frame pages new h (kept p) start (λ k lo hi. low k hi) left)
          (
            IsBlock-free_run total start pages total-pos total-small,
            Tiled-frame pages new (start + total) (kept q ++ r) n
                (λ k lo hi. free_run-frame total start pages k total-pos (inr lo))
                (subst (λ m. Tiled pages m (kept q ++ r) n) end right),
          ))

  -- In a region of fewer than 2 ^ 15 pages that is a row of runs of pages,
  -- `st_pagepool_merge_pages` on a run replaces it, and each run directly beside it that is free,
  -- by one free run of all their pages, keeps every other run, and takes just the free ones
  -- beside it out of the free pages, the one before first.
  pub merge_pages-Tiled :
      (new : Memory Page) × (merge_pages n pages i
        ≡ done (new, start, masters (taken p h) ++ masters (taken q (i + b.cnt))))
      × Tiled new 0 (l ++ (kept p ++ ((record { cnt = total; state = free }) ∷ (kept q ++ r)))) n
  merge_pages-Tiled = (free_run total start pages, merge_pages-run, merged-Tiled)
