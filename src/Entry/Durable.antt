-- ===== src/Entry/Durable.antt =====
-- `MaybePut`, `Update` and `Remove` of src/entry.h when the machine may stop: the stores go to the cache,
-- and a cache line reaches the memory when `clflush` of src/pmem.h writes it back, or at any moment
-- before. An entry stands at a multiple of 256, so the offset of a word in it tells its line; `fence`
-- follows the flush and orders nothing else here.
pub mod Lines
pub mod Atomic
pub mod Crash
pub mod Series
pub mod Torn
use epli.Prelude.{
  ℕ, suc, ◌+◌, ◌*◌, ◌/◌, List, [], ◌∷◌, Option, none, some, Bool, true, ◌&&◌, ◌==◌, if◌then◌else◌,
}
use epli.Entry
use epli.Entry.{Entry, Kv, Status, invalid_key, find_key, set_key, set_val, maybe_put}

-- The offsets of `kvs[i].first` and `kvs[i].second`: the array begins at 24, behind `next`, `min_key`, and
-- `flag` with its padding.
abbrev pub key_offset : ℕ → ℕ
key_offset i = 24 + 16 * i

abbrev pub val_offset : ℕ → ℕ
val_offset i = key_offset i + 8

-- The line of an offset, of CACHE_LINE_SIZE bytes.
abbrev pub line : ℕ → ℕ
line o = o / 64

-- `setKey`, `setVal`, and `clflush((char *)&kvs[i])`.
pub data Instr : Type 0 where
  set_key_at : (i key : ℕ) → Instr
  set_val_at : (i val : ℕ) → Instr
  flush_at : (i : ℕ) → Instr

-- The array as the program sees it, and as the memory has it.
pub record Block : Type 0 where
  pub seen : List Kv
  pub stored : List Kv

-- A line is copied from the cache to the memory: the keys and the values that stand in it, of the slots
-- from `i` on.
unfoldable pub copy_line : (l i : ℕ) → (seen stored : List Kv) → List Kv
copy_line l i [] t = []
copy_line l i ((k, v) ∷ s) [] = []
copy_line l i ((k, v) ∷ s) ((j, w) ∷ t) =
    (if line (key_offset i) == l then k else j, if line (val_offset i) == l then v else w)
    ∷ copy_line l (suc i) s t

unfoldable pub write_back : (l : ℕ) → Block → Block
unfolding copy_line
write_back l b = record b { stored = copy_line l 0 b.seen b.stored }

-- `clflush` takes the line of the address that it is given, which is the one of the key.
unfoldable pub exec : Instr → Block → Block
unfolding set_key set_val write_back
exec (set_key_at i k) b = record b { seen = set_key b.seen i k }
exec (set_val_at i v) b = record b { seen = set_val b.seen i v }
exec (flush_at i) b = write_back (line (key_offset i)) b

-- A call of one of the three.
pub data Method : Type 0 where
  put : (k v : ℕ) → Method
  update : (k v : ℕ) → Method
  remove : (k : ℕ) → Method

-- What the method does without the cache.
unfoldable pub run_method : Method → Entry → Entry × Status
unfolding maybe_put Entry.update Entry.remove
run_method (put k v) e = maybe_put e k v
run_method (update k v) e = Entry.update e k v
run_method (remove k) e = Entry.remove e k

-- The slot that the loop of the method finds.
unfoldable pub slot : Method → List Kv → Option ℕ
unfolding find_key
slot (put k v) s = find_key s invalid_key
slot (update k v) s = find_key s k
slot (remove k) s = find_key s k

-- The stores and the flush of the method at that slot.
abbrev pub stores_at : Method → ℕ → List Instr
stores_at (put k v) i = set_val_at i v ∷ set_key_at i k ∷ flush_at i ∷ []
stores_at (update k v) i = set_val_at i v ∷ flush_at i ∷ []
stores_at (remove k) i = set_key_at i invalid_key ∷ flush_at i ∷ []

unfoldable pub stores : Method → List Kv → List Instr
unfolding slot
stores o s = elim (slot o s) [ none ↦ [] | some i ↦ stores_at o i ]

-- The block while the instructions `p` run: `q` is what is left of them. The cache may write back a line
-- at any moment.
pub data Steps (p : List Instr) (b : Block) : List Instr → Block → Type 0 where
  start : Steps p b p b
  next : {i : Instr} {q : List Instr} {c : Block} → Steps p b (i ∷ q) c → Steps p b q (exec i c)
  back : {q : List Instr} {c : Block} (l : ℕ) → Steps p b q c → Steps p b q (write_back l c)

-- All that the method stores stands in the line that it flushes.
abbrev pub fits_at : Method → ℕ → Bool
fits_at (put k v) i = line (key_offset i) == line (val_offset i)
fits_at (update k v) i = line (key_offset i) == line (val_offset i)
fits_at (remove k) i = true

unfoldable pub fits : Method → List Kv → Bool
unfolding slot
fits o s = elim (slot o s) [ none ↦ true | some i ↦ fits_at o i ]

-- The memory has what the program sees.
abbrev pub clean : List Kv → Block
clean s = record { seen = s; stored = s }

-- Calls of the methods one after the other, the last one first: each starts where the one before has
-- returned.
pub data Calls (b : Block) : List Method → Block → Type 0 where
  none_yet : Calls b [] b
  call :
      {o : Method} {os : List Method} {c d : Block}
      → Calls b os c
      → Steps (stores o c.seen) c [] d
      → Calls b (o ∷ os) d

abbrev pub run_all : List Method → Entry → Entry
run_all [] e = e
run_all (o ∷ os) e = (run_method o (run_all os e)).0

abbrev pub all_fit : List Method → Entry → Bool
all_fit [] e = true
all_fit (o ∷ os) e = fits o (run_all os e).kvs && all_fit os e
