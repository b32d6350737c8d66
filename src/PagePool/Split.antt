-- ===== src/PagePool/Split.antt =====
-- `st_pagepool_split_pages` on the runs of a region.
use lua_sharedtable.Base.{
  ℕ, ◌+◌, ◌-◌, ◌≤◌, ◌<◌, ◌≡◌, refl, sym, ap, ◌∙◌, subst, ◌⊎◌, inl, inr, arith, true, false, ◌&&◌,
  Bool-cases, Option, none, some, List, [], ◌∷◌, ◌++◌, if◌then◌else◌, ltb, leb, ◌==◌, Memory, pos,
  minus_le,
}
use lua_sharedtable.PagePool.Pages.{Page, free, allocated, split_pages}
use lua_sharedtable.PagePool.Tiled.{Block, IsBlock, Tiled, Tiled-frame, use_loop-at}
use lua_sharedtable.PagePool.Remain.{used, rest, used-IsBlock, rest-used, rest-left, rest-frame}

-- The run of free pages that a split leaves behind `use_cnt` pages, and its master.
abbrev pub left_over : Block → (use_cnt : ℕ) → List Block
left_over b use_cnt =
    if b.cnt == use_cnt then [] else ((record { cnt = b.cnt - use_cnt; state = free }) ∷ [])

abbrev pub remaining : (i use_cnt : ℕ) → Block → Option ℕ
remaining i use_cnt b = if b.cnt == use_cnt then none else some (i + use_cnt)

-- The runs behind `i`, and the pages before it.
abbrev pub SplitAt :
    Memory Page → (i use_cnt : ℕ) → Block → List Block → (n : ℕ) → Memory Page × Option ℕ → Type 0
SplitAt pages i use_cnt b bs n r =
    (r.1 ≡ remaining i use_cnt b)
    × Tiled r.0 i ((record { cnt = use_cnt; state = allocated }) ∷ (left_over b use_cnt ++ bs)) n
    × ((j : ℕ) → j < i → r.0 j ≡ pages j)

module _ (pages : Memory Page) (i use_cnt : ℕ) (b : Block) (bs : List Block) (n : ℕ)
    (run : IsBlock pages i b) (is_free : b.state ≡ free) (some_used : 0 < use_cnt)
    (le : use_cnt ≤ b.cnt) (behind : Tiled pages (i + b.cnt) bs n) where
  total-cnt : (pages i).compound_page_cnt ≡ pos b.cnt
  total-cnt =
      ap (λ j. (pages j).compound_page_cnt) (omega arith)
      ∙ ap (λ (q : Page). q.compound_page_cnt) (run.page_at 0 run.some_page)

  split_all :
      (b.cnt == use_cnt) ≡ true
      → split_pages pages i use_cnt ≡ (used pages i use_cnt b run is_free some_used, none)
  unfolding split_pages
  split_all all = rw (total-cnt, all) refl

  split_some :
      (b.cnt == use_cnt) ≡ false
      → (less : use_cnt < b.cnt)
      → split_pages pages i use_cnt
        ≡ (rest pages i use_cnt b run is_free some_used less, some (i + use_cnt))
  unfolding split_pages
  split_some some_left less = rw (total-cnt, some_left, minus_le b.cnt use_cnt le) refl

  used-frame :
      (j : ℕ)
      → (j < i) ⊎ (i + use_cnt ≤ j)
      → used pages i use_cnt b run is_free some_used j ≡ pages j
  used-frame j outside =
      let not_in : (leb i j && ltb j (i + use_cnt)) ≡ false = ground (arith, outside) in
      rw (use_loop-at (pos use_cnt) use_cnt i pages j, not_in) refl

  all-SplitAt :
      (b.cnt == use_cnt) ≡ true
      → SplitAt pages i use_cnt b bs n (used pages i use_cnt b run is_free some_used, none)
  all-SplitAt all =
      let size : i + b.cnt ≡ i + use_cnt = ground arith in
      rw all (
        refl,
        (
          record {
            some_page = some_used;
            small = omega (arith, le, run.small);
            page_at = used-IsBlock pages i use_cnt b run is_free some_used le;
          },
          Tiled-frame pages (used pages i use_cnt b run is_free some_used) (i + use_cnt) bs n
              (λ j lo hi. used-frame j (inr lo)) (subst (λ m. Tiled pages m bs n) size behind),
        ),
        λ j l. used-frame j (inl l),
      )

  some-SplitAt :
      (b.cnt == use_cnt) ≡ false
      → (less : use_cnt < b.cnt)
      → SplitAt pages i use_cnt b bs n
          (rest pages i use_cnt b run is_free some_used less, some (i + use_cnt))
  some-SplitAt some_left less =
      let size : i + b.cnt ≡ i + use_cnt + (b.cnt - use_cnt) = omega (arith, less) in
      let outside = rest-frame pages i use_cnt b run is_free some_used less in
      rw some_left (
        refl,
        (
          record {
            some_page = some_used;
            small = omega (arith, le, run.small);
            page_at = rest-used pages i use_cnt b run is_free some_used less;
          },
          (
            record {
              some_page = omega (arith, less);
              small = omega (arith, run.small);
              page_at = rest-left pages i use_cnt b run is_free some_used less;
            },
            Tiled-frame pages (rest pages i use_cnt b run is_free some_used less)
                (i + use_cnt + (b.cnt - use_cnt)) bs n
                (λ j lo hi. outside j (inr (omega (arith, lo, less))))
                (subst (λ m. Tiled pages m bs n) size behind),
          ),
        ),
        λ j l. outside j (inl l),
      )

  -- On a run of free pages and a count from 1 up to its length, `st_pagepool_split_pages` leaves
  -- a run of `use_cnt` allocated pages and behind it a free run of the others, whose master it
  -- returns, or none if it takes all, and keeps the runs behind and the pages before.
  pub split_pages-SplitAt : SplitAt pages i use_cnt b bs n (split_pages pages i use_cnt)
  split_pages-SplitAt = elim (Bool-cases (b.cnt == use_cnt)) [
    | inl all ↦ subst (SplitAt pages i use_cnt b bs n) (sym (split_all all)) (all-SplitAt all)
    | inr some_left ↦
        let less : use_cnt < b.cnt = ground arith in
        subst (SplitAt pages i use_cnt b bs n) (sym (split_some some_left less))
          (some-SplitAt some_left less)
  ]
