-- ===== src/PagePool/Pages.antt =====
-- The pages of one region, in src/pagepool/pagepool.c: how `st_pagepool_init_region` lays them out, and
-- how `st_pagepool_split_pages` and `st_pagepool_merge_pages` change the runs of pages. A page is its
-- index in the region; a page before the region is not one of the array, and its use is not defined. A
-- count of pages is an `int`, and loses its upper bits when it is stored in the `int16_t`.
use lua_sharedtable.Base.{
  ℕ, zero, suc, ◌+◌, ◌-◌, Bool, true, false, Option, none, some, List, [], ◌∷◌, ◌++◌, if◌then◌else◌,
  ◌==◌, Memory, write, ℤ, pos, negsuc, ◌+ℤ◌, negate, is_nat, to_nat, to_int16, Run, done, undefined,
  ◌>>=◌,
}

-- `ST_PAGEPOOL_PAGE_FREE` and `ST_PAGEPOOL_PAGE_ALLOCATED`
pub data PageState : Type 0 where
  free allocated : PageState

-- `ST_PAGEPOOL_PAGE_MASTER` and `ST_PAGEPOOL_PAGE_SLAVE`
pub data PageType : Type 0 where
  master slave : PageType

-- The fields of `st_pagepool_page_s` that these functions use.
pub record Page : Type 0 where
  pub state : PageState
  pub kind : PageType
  pub compound_page_cnt : ℤ

abbrev pub is_free : PageState → Bool
is_free free = true
is_free allocated = false

abbrev pub set_kind : (i : ℕ) → PageType → Memory Page → Memory Page
set_kind i t pages = write pages i (record (pages i) { kind = t })

-- The loop of `st_pagepool_init_region` and of `st_pagepool_merge_pages`, by the rounds left: free slaves in a
-- run of `cnt`.
unfoldable pub free_loop : (cnt : ℤ) (left i : ℕ) → Memory Page → Memory Page
free_loop cnt zero i pages = pages
free_loop cnt (suc left) i pages =
    free_loop cnt left (i + 1)
      (write pages i (record { state = free; kind = slave; compound_page_cnt = to_int16 cnt }))

unfoldable pub init_region : (pages_per_region : ℕ) → Memory Page → Memory Page
unfolding free_loop
init_region pages_per_region pages =
    set_kind 0 master (free_loop (pos pages_per_region) pages_per_region 0 pages)

-- The two loops of `st_pagepool_split_pages`, by the rounds left.
unfoldable pub use_loop : (cnt : ℤ) (left i : ℕ) → Memory Page → Memory Page
use_loop cnt zero i pages = pages
use_loop cnt (suc left) i pages =
    use_loop cnt left (i + 1)
      (write pages i (record (pages i) { state = allocated; compound_page_cnt = to_int16 cnt }))

unfoldable pub remain_loop : (cnt : ℤ) (left i : ℕ) → Memory Page → Memory Page
remain_loop cnt zero i pages = pages
remain_loop cnt (suc left) i pages =
    remain_loop cnt left (i + 1)
      (write pages i (record (pages i) { compound_page_cnt = to_int16 cnt }))

-- The pages, and the master of those that remain.
unfoldable pub split_pages : Memory Page → (first use_cnt : ℕ) → Memory Page × Option ℕ
unfolding use_loop remain_loop
split_pages pages first use_cnt =
    let total = (pages first).compound_page_cnt in
    let used = use_loop (pos use_cnt) use_cnt first pages in
    let left = total +ℤ negate (pos use_cnt) in
    if is_nat total use_cnt then (used, none) else (
      set_kind (first + use_cnt) master (remain_loop left (to_nat left) (first + use_cnt) used),
      some (first + use_cnt),
    )

-- A page of the region, by its distance from the first one.
abbrev pub page_of : ℤ → Run (Option ℕ)
page_of (pos i) = done (some i)
page_of (negsuc i) = undefined

unfoldable pub prev_pages : Memory Page → (m : ℕ) → Run (Option ℕ)
prev_pages pages m = elim (m == 0) [
  | true ↦ done none
  | false ↦ page_of (pos m +ℤ negate (pages (m - 1)).compound_page_cnt)
]

unfoldable pub next_pages : (pages_per_region : ℕ) → Memory Page → (m : ℕ) → Run (Option ℕ)
next_pages pages_per_region pages m =
    let end = pos m +ℤ (pages m).compound_page_cnt in
    elim (is_nat end pages_per_region) [ true ↦ done none | false ↦ page_of end ]

-- A neighbour that is there and free.
abbrev pub free_one : Memory Page → Option ℕ → Option ℕ
free_one pages none = none
free_one pages (some i) = if is_free (pages i).state then some i else none

abbrev pub count : Memory Page → Option ℕ → ℤ
count pages none = pos 0
count pages (some i) = (pages i).compound_page_cnt

abbrev pub or_self : Option ℕ → ℕ → ℕ
or_self none m = m
or_self (some i) m = i

abbrev pub masters : Option ℕ → List ℕ
masters none = []
masters (some i) = i ∷ []

-- The pages with the run `m` and its free neighbours merged, its master, and the masters given to
-- `st_pagepool_remove_pages`, in order.
abbrev pub merge_run : Memory Page → (m : ℕ) → (before behind : Option ℕ) → Memory Page × ℕ × List ℕ
merge_run pages m before behind =
    let merge = or_self before m in
    let total = (pages m).compound_page_cnt +ℤ count pages before +ℤ count pages behind in
    (
      set_kind merge master (free_loop total (to_nat total) merge pages),
      merge,
      masters before ++ masters behind,
    )

unfoldable pub merge_pages :
    (pages_per_region : ℕ) → Memory Page → (m : ℕ) → Run (Memory Page × ℕ × List ℕ)
unfolding prev_pages next_pages free_loop
merge_pages pages_per_region pages m = prev_pages pages m >>= λ prev.
    next_pages pages_per_region pages m >>= λ next.
    done (merge_run pages m (free_one pages prev) (free_one pages next))
