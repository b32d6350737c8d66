-- ===== src/Lib.antt =====
-- Verification library of lua-sharedtable: the data structures in C, under src/, that keep a table of
-- key-value pairs in memory that several processes share.
--
-- A process maps one block of shared memory. `st_region` cuts it into equal regions; `st_pagepool`
-- cuts the regions into pages and keeps the addresses of its regions in an `st_array`; `st_slab`
-- cuts the pages into objects, whose use it keeps in an `st_bitmap`; the tables and their collector
-- stand on top. The parts modelled are those at the bottom, on which all others rest.
--
-- The files, and the code that they model:
--   Base      the names that all files share: src/inc/err.h as `Ret`, `st_assert` of src/inc/util.h,
--             `int` and its conversion to `int16_t`, tests on numbers, memory, lists
--   Bits      the operators of C on unsigned words, read bit by bit
--   Bitmap    src/bitmap/bitmap.c and bitmap.h. `get`, `set`, `clear`, `are_all_cleared`,
--             `are_all_set`, `equal` and `find_next_bit` are the functions `st_bitmap_*`; `mask`,
--             `word_bits_value` and `in_one_word` the static ones
--   Binary    src/binary/binary.c: `vu64_size`, `vu64_put` and `vu64_load` are `bin_vu64_*`
--   Array     src/array/array.c and array.h: the state is `StArray`, the functions are `st_array_*`;
--             Array/Search has the searches, Array/Sort `st_array_sort`
--   NodeList  src/list/list.h: the pointers of all nodes are a `Store`, and each `st_list_*` rewrites it
--   RbTree    src/rbtree/rbtree.c and rbtree.h: the pointers and colours of all nodes are a `Tree`, and
--             each `st_rbtree_*` rewrites it. RbTree/Insertion has `insert`, RbTree/Deletion `delete`,
--             RbTree/Lookup `search`, `get_next` and `replace`
--   Region    src/region/region.c and region.h, the control block: `init`, `destroy`,
--             `base_addr_by_idx`, `alloc_reg` and `free_reg` are the functions `st_region_*`
--   PagePool  src/pagepool/pagepool.c and pagepool.h, the regions and addresses: `add_region`,
--             `remove_region`, `get_region`, `page_to_addr` and `addr_to_page` are `st_pagepool_*`;
--             PagePool/Pages has the runs of pages: `init_region`, `split_pages`, `merge_pages`;
--             PagePool/Setup has `st_pagepool_init`
--   Slab      src/slab/slab.c: `size_to_index` is `st_slab_size_to_index`
--
-- The children of a file hold the properties: Words, Segments, Single, Whole and Search for the
-- bitmap; Size, Bytes, Put and Load for the integers; Contents, Order, Insert, Remove, Bisect and
-- Sort for the array; Linked, Ring, Insert, Remove, Move and Join for the lists; Shape (the tree
-- in memory), Frame, Rotate, Mirror, Paint, Balance, Round, Fixup, Loop, Order, Descend, Walking,
-- Leaf and Inserted for the insertion into the red-black tree, Ends, Locate, Search, Next,
-- Replaced and Replace for its lookups, Sibling, Shrink, Restore and Rebalance for the loop of the
-- deletion, Inner, Cut, Take, Single, Double, Removal and Deleted for the node taken out and the
-- whole function, and Height for its height; Valid, Alloc and Free for the regions; Regions,
-- Change, Drop and Address for the regions of the pool, Tiled, Runs, Remain, Split, Merge and
-- Layout for its pages; Index for the groups. One in Array has what the pool uses of the array.
-- The tests are in Tests of each part.
--
-- Memory is a function from an index or an address, as C keeps no length beside a pointer. A null
-- pointer is `none` or 0. Numbers are natural numbers: the wrap-around of a `uint32_t` or a
-- `uint64_t` is written out where the code can reach it, and a comment says where a range is
-- assumed instead. A signed number that may be negative is a `ℤ`; the overflow of the `int` in
-- `find_next_bit` and a pointer before the pages of a region are the outcome `undefined`. An
-- assertion that fails ends the process and is the outcome `abort`. A call under a mutex is one
-- step.
--
-- Loops with a bound in the code run by the rounds left. The others run on fuel: the words of a
-- bitmap on `nbits / 64 + 2` rounds, one for each word and one for the last test; a walk in a tree
-- on one more than its height; a binary search on one more than the number of elements, since each
-- round shortens the range; the integers on 10, the groups that 64 bits have. Where a theorem says
-- that a function terminates, this is shown to be enough.
--
-- Not modelled: the calls of the system that make and map shared memory, the logging, the tree of
-- the free pages, and the layers above it. `qsort`, `realloc`, `madvise` and the result of an
-- undefined shift are parameters.
pub mod Base
pub mod Bits
pub mod Bitmap
pub mod Binary
pub mod Array
pub mod NodeList
pub mod RbTree
pub mod Region
pub mod PagePool
pub mod Slab
