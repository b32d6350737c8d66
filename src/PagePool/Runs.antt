-- ===== src/PagePool/Runs.antt =====
-- A run of free pages, as `st_pagepool_init_region` and `st_pagepool_merge_pages` write it.
use lua_sharedtable.Base.{
  ℕ, ◌+◌, ◌≤◌, ◌<◌, ◌≡◌, refl, ◌⊎◌, inl, inr, arith, true, false, ◌&&◌, Bool-cases, [], ◌∷◌, ltb,
  leb, ◌==◌, ◌^◌, Memory, pos, to_int16-pos,
}
use lua_sharedtable.PagePool.Pages.{Page, free, master, set_kind, free_loop, init_region}
use lua_sharedtable.PagePool.Tiled.{IsBlock, Tiled, kind_at, free_loop-at}

abbrev pub free_run : (total i : ℕ) → Memory Page → Memory Page
free_run total i pages = set_kind i master (free_loop (pos total) total i pages)

pub IsBlock-free_run :
    (total i : ℕ) (pages : Memory Page)
    → 0 < total
    → total < 2 ^ 15
    → IsBlock (free_run total i pages) i (record { cnt = total; state = free })
IsBlock-free_run total i pages some_left small = record {
  some_page = some_left;
  small = small;
  page_at = at;
}
  where
    at :
        (k : ℕ)
        → k < total
        → free_run total i pages (i + k)
          ≡ (record { state = free; kind = kind_at k; compound_page_cnt = pos total })
    at k l = elim (Bool-cases (k == 0)) [
      | inl first ↦
          let here : (i + k == i) ≡ true = ground arith in
          let inside : (leb i i && ltb i (i + total)) ≡ true = ground arith in
          rw
            (
              here,
              first,
              free_loop-at (pos total) total i pages i,
              inside,
              to_int16-pos total small,
            )
            refl
      | inr later ↦
          let there : (i + k == i) ≡ false = ground arith in
          let inside : (leb i (i + k) && ltb (i + k) (i + total)) ≡ true = ground arith in
          rw
            (
              there,
              later,
              free_loop-at (pos total) total i pages (i + k),
              inside,
              to_int16-pos total small,
            )
            refl
    ]

pub free_run-frame :
    (total i : ℕ) (pages : Memory Page) (j : ℕ)
    → 0 < total
    → (j < i) ⊎ (i + total ≤ j)
    → free_run total i pages j ≡ pages j
free_run-frame total i pages j some_left outside =
    let there : (j == i) ≡ false = ground (arith, outside) in
    let not_in : (leb i j && ltb j (i + total)) ≡ false = ground (arith, outside) in
    rw (there, free_loop-at (pos total) total i pages j, not_in) refl

-- `st_pagepool_init_region` makes of a region of fewer than 2 ^ 15 pages one run of free pages.
pub init_region-Tiled :
    (pages_per_region : ℕ) (pages : Memory Page)
    → 0 < pages_per_region
    → pages_per_region < 2 ^ 15
    → Tiled
        (init_region pages_per_region pages)
        0
        ((record { cnt = pages_per_region; state = free }) ∷ [])
        pages_per_region
unfolding init_region
init_region-Tiled pages_per_region pages some_left small =
    (IsBlock-free_run pages_per_region 0 pages some_left small, omega arith)
