-- ===== src/Entry.antt =====
-- `Entry`, one 256-byte block of key-value pairs: src/entry.h, in the default configuration
-- (USE_BITMAP and USE_FGPT are off). A `kv_type` is a pair of numbers, the array `kvs` a list of
-- `kvs_per_entry` of them, and a pointer an address. Flushes and fences do not change the state.
pub mod Slots
pub mod At
pub mod Copy
pub mod Methods
pub mod Sort
pub mod Sorted
pub mod Ordered
pub mod Durable
use epli.Prelude.{
  ℕ, zero, suc, ◌+◌, ◌-◌, ◌*◌, ◌/◌, ◌%◌, ◌^◌, ◌≡◌, ◌≢◌, List, [], ◌∷◌, Option, none, some, Bool,
  true, false, ltb, leb, ◌==◌, if◌then◌else◌, get_or, replicate,
}

abbrev pub Kv : Type 0
Kv = ℕ × ℕ

-- ENTRY_SIZE is 256, and (256 - 17) / 16 is 14.
abbrev pub kvs_per_entry : ℕ
kvs_per_entry = (256 - 17) / 16

abbrev pub invalid_key : ℕ
invalid_key = 0

pub data Status : Type 0 where
  ok : Status
  fail : Status
  overflow : Status

pub record Entry : Type 0 where
  pub next : ℕ
  pub min_key : ℕ
  pub flag : ℕ
  pub kvs : List Kv

-- An array that `memset` has filled with zero bytes.
abbrev pub zeroed : List Kv
zeroed = replicate kvs_per_entry (0, 0)

-- `Entry(init_min_key)`
unfoldable pub new_entry : ℕ → Entry
new_entry k = record { next = 0; min_key = k; flag = 0; kvs = zeroed }

-- `kvs[i].first = key`
unfoldable pub set_key : List Kv → ℕ → ℕ → List Kv
set_key [] i k = []
set_key ((j, w) ∷ s) zero k = (k, w) ∷ s
set_key ((j, w) ∷ s) (suc i) k = (j, w) ∷ set_key s i k

-- `kvs[i].second = val`
unfoldable pub set_val : List Kv → ℕ → ℕ → List Kv
set_val [] i v = []
set_val ((j, w) ∷ s) zero v = (j, v) ∷ s
set_val ((j, w) ∷ s) (suc i) v = (j, w) ∷ set_val s i v

-- The loops that store the first `size` pairs of one array at the front of another. The source
-- reads and writes inside both arrays; past an end the model stops.
unfoldable pub copy_kvs : (to from : List Kv) (size : ℕ) → List Kv
copy_kvs to from zero = to
copy_kvs [] from (suc n) = []
copy_kvs (d ∷ to) [] (suc n) = d ∷ to
copy_kvs (d ∷ to) ((k, v) ∷ from) (suc n) = (k, v) ∷ copy_kvs to from n

-- `Entry(init_min_key, init_kvs, size)`
unfoldable pub new_entry_from : ℕ → List Kv → ℕ → Entry
unfolding copy_kvs
new_entry_from k from size = record {
  next = 0;
  min_key = k;
  flag = 0;
  kvs = copy_kvs zeroed from size;
}

-- `setOrderedKVs(new_kvs, size)`
unfoldable pub set_ordered_kvs : Entry → List Kv → ℕ → Entry
unfolding copy_kvs
set_ordered_kvs e from size = record e {
  min_key = (get_or from 0 (0, 0)).0;
  kvs = copy_kvs zeroed from size;
}

-- `setFlag` and `setPersistFlag`, which adds a flush: a `uint8_t` keeps the low byte.
unfoldable pub set_flag : Entry → ℕ → Entry
set_flag e v = record e { flag = v % 2 ^ 8 }

-- The loops of `Get`, `Update` and `Remove`: the first position of a key.
unfoldable pub find_key : List Kv → ℕ → Option ℕ
find_key [] k = none
find_key ((j, w) ∷ s) k =
    if j == k then some 0 else elim (find_key s k) [ none ↦ none | some i ↦ some (suc i) ]

-- `Get(key, val)`: the status and what `val` holds afterwards.
unfoldable pub get : Entry → (key val : ℕ) → Status × ℕ
unfolding find_key
get e k v = elim (find_key e.kvs k) [ none ↦ (fail, v) | some i ↦ (ok, (get_or e.kvs i (0, 0)).1) ]

-- `MaybePut(key, val)`: the first empty position takes the pair, the value first.
unfoldable pub maybe_put : Entry → (key val : ℕ) → Entry × Status
unfolding find_key set_key set_val
maybe_put e k v = elim (find_key e.kvs invalid_key) [
  | none ↦ (e, overflow)
  | some i ↦ (record e { kvs = set_key (set_val e.kvs i v) i k }, ok)
]

-- `Update(key, val)`
unfoldable pub update : Entry → (key val : ℕ) → Entry × Status
unfolding find_key set_val
update e k v = elim (find_key e.kvs k) [
  | none ↦ (e, fail)
  | some i ↦ (record e { kvs = set_val e.kvs i v }, ok)
]

-- `Remove(key)` overwrites the key and leaves the value.
unfoldable pub remove : Entry → (key : ℕ) → Entry × Status
unfolding find_key set_key
remove e k = elim (find_key e.kvs k) [
  | none ↦ (e, fail)
  | some i ↦ (record e { kvs = set_key e.kvs i invalid_key }, ok)
]

-- `std::sort` of `tmp_kvs` by the keys. On distinct keys the order decides the result; between
-- equal keys the standard leaves the order open, and this version keeps it.
unfoldable pub insert_kv : Kv → List Kv → List Kv
insert_kv x [] = x ∷ []
insert_kv x (y ∷ s) = if leb x.0 y.0 then x ∷ y ∷ s else y ∷ insert_kv x s

unfoldable pub sort_kvs : List Kv → List Kv
unfolding insert_kv
sort_kvs [] = []
sort_kvs (x ∷ s) = insert_kv x (sort_kvs s)

-- `resetRightHalfKVs`: the bytes of `kvs + 7` onwards, `14 * 16 / 2` of them.
unfoldable pub clear_from : ℕ → List Kv → List Kv
clear_from n [] = []
clear_from zero (x ∷ s) = (0, 0) ∷ clear_from zero s
clear_from (suc n) (x ∷ s) = x ∷ clear_from n s

unfoldable pub reset_right_half_kvs : Entry → Entry
unfolding clear_from
reset_right_half_kvs e = record e { kvs = clear_from (kvs_per_entry / 2) e.kvs }
