-- ===== src/Lib.antt =====
-- EPLI, a learned index for persistent memory: a linked list of 256-byte entries in the memory, an
-- index of the entries in front of it, and, if it is built so, a hash table of hot pairs.
--
-- Parts and how they interact. The interface `EPLI` (src/epli.h) calls the tree `EPLTree`
-- (src/epltree.h), which keeps a list of entries (`DataList` of src/datalist.h, `Entry` of
-- src/entry.h) in blocks of the allocator of include/util/nvm/nvm_alloc.h, and the address of each
-- entry in an ALEX index. With USE_SWTABLE the interface asks a `SWTable` (src/swtable.h) first,
-- which is a CLHT hash table with access times and eliminations (src/clht_lb_res.cc).
--
-- Files:
-- - Prelude: names of the libraries, Boolean tests, arrays as lists, updates of a memory.
-- - Nvm: the allocator, `Mem_persist`, and the flushes of src/pmem.h. Nvm/Bump: the blocks.
--   Nvm/Flush: the lines that are written back.
-- - Entry: the methods of `Entry`. Entry/Slots, Entry/At: keys and positions. Entry/Copy,
--   Entry/Sort, Entry/Sorted, Entry/Ordered: copies, sorting, and parts of a sorted array.
--   Entry/Methods: the methods against the map that an entry holds. Entry/Durable: the stores and
--   flushes of the methods with a cache between them and the memory; Entry/Durable/Lines,
--   Entry/Durable/Atomic, Entry/Durable/Crash: one slot when the machine stops;
--   Entry/Durable/Series, Entry/Durable/Torn: calls one after another, and a slot that stands in
--   two lines.
-- - Index: the interface of the ALEX index (include/alex), a record of operations and laws.
-- - Tree: `Get`, `Insert`, `splitEntry`, `Update`, `Remove` and the constructor. Tree/Chain,
--   Tree/Cut, Tree/Split: the list of entries in a memory, and one entry cut in two. Tree/State:
--   the invariant, and what a tree holds. Tree/New, Tree/Methods, Tree/Insert: the methods.
--   Tree/Scan: `RangeScan` and `Scan`. Tree/Load: `BulkLoad` and `Recover`, each with its modules
--   of proofs. Tree/Free: the destructor of the list. Tree/Restart: the allocator after a restart.
--   Tree/Crash: the memory between two stores of a split; Tree/Crash/Links, Tree/Crash/Keep,
--   Tree/Crash/Lost: what the list holds then. Tree/Durable, Tree/Durable/Restart: the list in the
--   memory, and the tree after a restart, when the machine stops in the method of one entry.
-- - Bitmap: the builds with USE_BITMAP and USE_FGPT: `MetaData`, `EntryPointer` and `ffs_short` of
--   src/entry.h. Bitmap/Tree: the tree whose index names a `MetaData`. Bitmap/Bits,
--   Bitmap/Pointer: bits and six-byte pointers. Bitmap/Agree, Bitmap/Insert, Bitmap/Methods: a
--   bitmap and fingerprints that describe an entry, and the methods then. Bitmap/Lost: a split.
--   Bitmap/Scan: the scans.
-- - Clht: the table for one thread. Clht/Threads: one bin under several threads, a shared access
--   at a time; Clht/Threads/State, Clht/Threads/Moves, Clht/Threads/Safety: the invariant and the
--   lock. Clht/Threads/Spec, Clht/Threads/Refines, Clht/Threads/Linear: the calls as operations on
--   a map; Clht/Threads/Missed: the removals that find nothing. Clht/Threads/Progress,
--   Clht/Threads/Reader: the bound on a holder of the lock, and the searches without it.
--   Clht/Threads/Copied, Clht/Threads/Frozen: the copy that a resize takes of a bin. Clht/Resizer:
--   a resize of the whole table by one thread while others work on it; Clht/Resizer/Keys,
--   Clht/Resizer/Phases: the keys and the locks of a bin; Clht/Resizer/Copy, Clht/Resizer/Content,
--   Clht/Resizer/Whole: what the new table holds; Clht/Resizer/Stale: a second resize of the same
--   table; Clht/Resizer/History: the operations on each bin in the meantime. Clht/Victim: the
--   elimination in a chain. Clht/Resize: resizing and `clht_put`. Clht/Memory: new tables and
--   their sizes. Clht/Chain, Clht/Table, Clht/Grow, Clht/Time: a chain and a table as maps, a
--   resize of the map, access times. Clht/Tight, Clht/Packed: how many buckets a table adds.
--   Clht/Smear, Clht/Growth: `pow2roundup` and how much a table grows. Clht/Submap, Clht/Resized,
--   Clht/Status, Clht/Eliminated, Clht/Put: what a resize and the eliminations leave.
-- - SwTable: `SWTable`.
-- - Epli: sequences of calls of the interface. Epli/Spec: the map that it promises. Epli/Refines:
--   the refinement. Epli/Cached: the interface with the SW-Table; Epli/Cached/Coherent,
--   Epli/Cached/Writes and Epli/Cached/Sampled: whether the table agrees with the tree.
--   Epli/Cached/Session: sequences of calls of it. Epli/Cached/Close: when the table is closed.
-- - Tests: runs, and the theorems at concrete data.
--
-- State. A pointer is an address, 0 is NULL, and the entries stand in a memory from addresses to
-- entries. A 64-bit counter wraps around; addresses do not. An array of pairs is a list. A key 0
-- is the empty slot, and the theorems are about the other keys. What a tree holds is read from its
-- list of entries: the index has no say in where a key is, its size only bounds how many entries
-- are followed.
--
-- Bounds and fuel. `Insert` calls itself after a split: two rounds are enough. The loop of
-- `BulkLoad` gets a round for each pair. The loops of `RangeScan` and `Scan` and the one of the
-- destructor follow `next`; a round for each entry, and one more for the destructor, is enough.
-- The loop of `Recover` is bounded by the array that it fills, of `load_size / 14 + 1` elements: a
-- further entry is a fault. `_nvm_perisist` gets more rounds than bytes. `ht_status` calls itself
-- after a resize that says so; the number of rounds is a parameter, and 0 is enough for `clht_put`
-- on a table whose number of buckets is a power of two below 2 ^ 30.
--
-- Not modelled. Several threads elsewhere than in the bins of a table and in a resize that grows
-- it, what calls that wait for a resize do in the new table and searches go on with in the old one
-- after the swap, and resizes that overlap, but for one that comes late to a table; the collection
-- of old tables; the order in which caches write stores back, but for the methods that write one
-- entry (a crash in a split is modelled between two of its stores, taken in the order of the
-- source); the mapping of the file (libpmem); the ALEX index, which is a copy of another library
-- and a parameter here; the other indexes, workloads and benchmarks of the repository; printing,
-- and the sizes that the tree and the SW-Table report.
pub mod Prelude
pub mod Nvm
pub mod Entry
pub mod Index
pub mod Bitmap
pub mod Tree
pub mod Clht
pub mod SwTable
pub mod Epli
pub mod Tests
