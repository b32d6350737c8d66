-- ===== src/PagePool/Remain.antt =====
-- What the loops of `st_pagepool_split_pages` write: the pages in use and those that remain.
use lua_sharedtable.Base.{
  ℕ, ◌+◌, ◌-◌, ◌≤◌, ◌<◌, ◌≡◌, refl, sym, ap, ◌∙◌, ◌⊎◌, inl, inr, arith, true, false, ◌&&◌,
  Bool-cases, ltb, leb, ◌==◌, Memory, pos, to_int16-pos,
}
use lua_sharedtable.PagePool.Pages.{
  Page, free, allocated, master, slave, set_kind, use_loop, remain_loop,
}
use lua_sharedtable.PagePool.Tiled.{Block, IsBlock, kind_at, use_loop-at, remain_loop-at}

module _ (pages : Memory Page) (i use_cnt : ℕ) (b : Block) (run : IsBlock pages i b)
    (is_free : b.state ≡ free) (some_used : 0 < use_cnt) where
  abbrev pub used : Memory Page
  used = use_loop (pos use_cnt) use_cnt i pages

  pub used-IsBlock :
      use_cnt ≤ b.cnt
      → (k : ℕ) → k < use_cnt
      → used (i + k)
        ≡ (record { state = allocated; kind = kind_at k; compound_page_cnt = pos use_cnt })
  used-IsBlock le k l =
      let inside : (leb i (i + k) && ltb (i + k) (i + use_cnt)) ≡ true = ground arith in
      rw
        (
          use_loop-at (pos use_cnt) use_cnt i pages (i + k),
          inside,
          to_int16-pos use_cnt (omega (arith, le, run.small)),
        )
        (ap (λ (q : Page). record q { state = allocated; compound_page_cnt = pos use_cnt })
          (run.page_at k (omega (arith, l, le))))

  module _ (less : use_cnt < b.cnt) where
    abbrev pub rest : Memory Page
    rest =
        set_kind (i + use_cnt) master
          (remain_loop (pos (b.cnt - use_cnt)) (b.cnt - use_cnt) (i + use_cnt) used)

    pub rest-used :
        (k : ℕ)
        → k < use_cnt
        → rest (i + k)
          ≡ (record { state = allocated; kind = kind_at k; compound_page_cnt = pos use_cnt })
    rest-used k l =
        let there : (i + k == i + use_cnt) ≡ false = ground arith in
        let before : (leb (i + use_cnt) (i + k) && ltb (i + k) (i + use_cnt + (b.cnt - use_cnt)))
            ≡ false =
          ground arith in
        rw
          (
            there,
            remain_loop-at (pos (b.cnt - use_cnt)) (b.cnt - use_cnt) (i + use_cnt) used (i + k),
            before,
          )
          (used-IsBlock (omega (arith, less)) k l)

    old_page :
        (k : ℕ)
        → k < b.cnt - use_cnt
        → pages (i + use_cnt + k)
          ≡ (record { state = free; kind = slave; compound_page_cnt = pos b.cnt })
    old_page k l =
        let behind : (use_cnt + k == 0) ≡ false = ground arith in
        ap pages (omega arith) ∙ run.page_at (use_cnt + k) (omega arith) ∙ rw (behind, is_free) refl

    pub rest-left :
        (k : ℕ)
        → k < b.cnt - use_cnt
        → rest (i + use_cnt + k)
          ≡ (record { state = free; kind = kind_at k; compound_page_cnt = pos (b.cnt - use_cnt) })
    rest-left k l =
        let inside : (leb (i + use_cnt) (i + use_cnt + k)
              && ltb (i + use_cnt + k) (i + use_cnt + (b.cnt - use_cnt)))
            ≡ true =
          ground arith in
        let not_used : (leb i (i + use_cnt + k) && ltb (i + use_cnt + k) (i + use_cnt)) ≡ false =
          ground arith in
        let old : pages (i + use_cnt + k)
            ≡ (record { state = free; kind = slave; compound_page_cnt = pos b.cnt }) =
          old_page k l in
        let left : remain_loop (pos (b.cnt - use_cnt)) (b.cnt - use_cnt) (i + use_cnt) used
              (i + use_cnt + k)
            ≡ (record { state = free; kind = slave; compound_page_cnt = pos (b.cnt - use_cnt) }) =
          rw
            (
              remain_loop-at (pos (b.cnt - use_cnt)) (b.cnt - use_cnt) (i + use_cnt) used
                  (i + use_cnt + k),
              inside,
              use_loop-at (pos use_cnt) use_cnt i pages (i + use_cnt + k),
              not_used,
              old,
              to_int16-pos (b.cnt - use_cnt) (omega (arith, run.small)),
            )
            refl in
        elim (Bool-cases (k == 0)) [
          | inl first ↦
              let at : i + use_cnt + k ≡ i + use_cnt = ground arith in
              let here : (i + use_cnt + k == i + use_cnt) ≡ true = ground arith in
              rw (here, first)
                (ap (λ (q : Page). record q { kind = master })
                  (ap (remain_loop (pos (b.cnt - use_cnt)) (b.cnt - use_cnt) (i + use_cnt) used)
                      (sym at)
                    ∙ left))
          | inr later ↦
              let there : (i + use_cnt + k == i + use_cnt) ≡ false = ground arith in
              rw (there, later) left
        ]

    pub rest-frame : (j : ℕ) → (j < i) ⊎ (i + b.cnt ≤ j) → rest j ≡ pages j
    rest-frame j outside =
        let there : (j == i + use_cnt) ≡ false = ground (arith, outside) in
        let not_left : (leb (i + use_cnt) j && ltb j (i + use_cnt + (b.cnt - use_cnt))) ≡ false =
          ground (arith, outside) in
        let not_used : (leb i j && ltb j (i + use_cnt)) ≡ false = ground (arith, outside) in
        rw
          (
            there,
            remain_loop-at (pos (b.cnt - use_cnt)) (b.cnt - use_cnt) (i + use_cnt) used j,
            not_left,
            use_loop-at (pos use_cnt) use_cnt i pages j,
            not_used,
          )
          refl
