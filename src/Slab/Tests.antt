-- ===== src/Slab/Tests.antt =====
-- Runs of `st_slab_size_to_index` of src/slab/slab.c.
use lua_sharedtable.Base.{ℕ, ◌≡◌, refl, arith, arg_invalid, value, failed}
use lua_sharedtable.Slab.{size_to_index, msb_loop}
use lua_sharedtable.Slab.Index.{FitsGroup, size_to_index-FitsGroup}

borders :
    (size_to_index 0 ≡ failed arg_invalid)
    × (size_to_index 8 ≡ value 3)
    × (size_to_index 9 ≡ value 4)
    × (size_to_index 2048 ≡ value 11)
    × (size_to_index 2049 ≡ value 12)
unfolding size_to_index msb_loop
borders = (refl, refl, refl, refl, refl)

size_to_index-FitsGroup_example : (i : ℕ) × (size_to_index 100 ≡ value i) × FitsGroup 100 i
size_to_index-FitsGroup_example = size_to_index-FitsGroup 100 (omega arith)
