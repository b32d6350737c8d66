-- ===== src/PagePool/Setup.antt =====
-- `st_pagepool_init` of src/pagepool/pagepool.c and `st_align` of src/inc/util.h. `st_rbtree_init`, which
-- gets a tree and a comparison that are not null, succeeds.
use lua_sharedtable.Base.{
  ℕ, ◌+◌, ◌-◌, ◌*◌, ◌/◌, ◌%◌, not, ◌||◌, Option, none, some, if◌then◌else◌, ◌==◌, Memory, Ret, ok,
  arg_invalid, errno, Run, done, ◌>>=◌,
}
use lua_sharedtable.Bits.{bit_and, not64, word64}
use lua_sharedtable.Array.{init_static, destroy}
use lua_sharedtable.PagePool.{Pool, cmp_region_addr, max_region_cnt}

unfoldable pub align : (i upto : ℕ) → ℕ
unfolding not64
align i upto = if upto == 0 then i else bit_and ((i + (upto - 1)) % word64) (not64 (upto - 1))

-- `regions_lock` and `pages_lock` are the codes of the two calls of `st_robustlock_init`, `reg_size` is
-- `region_cb.reg_size`, `regions_array_data` the memory of that field. A size that is negative is like 0.
unfoldable pub init :
    (sizeof_page regions_lock pages_lock reg_size : ℕ) (regions_array_data : Memory ℕ)
    → Option Pool
    → (page_size : ℕ) → Run (Option Pool × Ret)
unfolding align init_static destroy
init sizeof_page regions_lock pages_lock reg_size regions_array_data none page_size =
    done (none, arg_invalid)
init sizeof_page regions_lock pages_lock reg_size regions_array_data (some pool) page_size =
    if (page_size == 0) || not (page_size % 512 == 0)
    then done (some pool, arg_invalid)
    else (let pages_per_region = reg_size / (sizeof_page + page_size) in
        let sized : Pool = record pool {
          page_size = page_size;
          region_size = reg_size;
          pages_per_region = pages_per_region;
        } in
        if pages_per_region == 0
        then done (some sized, arg_invalid)
        else (let laid_out : Pool = record sized {
          space_base_offset = align (sizeof_page * pages_per_region) page_size;
        } in
            init_static 8 (some regions_array_data) max_region_cnt (some cmp_region_addr) >>= λ a.
            if not (regions_lock == 0)
            then (destroy (some a) >>= λ gone.
                done (some (record laid_out { regions = gone.0 }), errno regions_lock))
            else if not (pages_lock == 0)
            then (destroy (some a) >>= λ gone.
                done (some (record laid_out { regions = gone.0 }), ok))
            else done (some (record laid_out { regions = a }), ok)))
