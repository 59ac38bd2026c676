-- ===== src/SwTable.antt =====
-- `SWTable`, the hash table of hot pairs in front of the tree: src/swtable.h. The logical time `lt` is
-- a `uint32_t`; the source does not initialise it, so its first value is a parameter.
use epli.Prelude.{ℕ, ◌+◌, ◌%◌, ◌^◌, Option, none, some}
use epli.Clht.{Bucket, Hashtable, hashtable_create, clht_get, clht_update, clht_remove}
use epli.Clht.Resize.{clht_put}

pub record SwTable : Type 0 where
  pub hashtable : Hashtable
  pub lt : ℕ

abbrev pub num_buckets : ℕ
num_buckets = 16384

-- `Init()`; the allocator and the garbage list that it sets up hold old versions of the table only.
unfoldable pub init : (lt : ℕ) → Option SwTable
init lt = elim (hashtable_create num_buckets) [
  | none ↦ none
  | some ht ↦ some (record { hashtable = ht; lt = lt })
]

-- `Put(key, val)`
unfoldable pub put :
    (fuel : ℕ) → (raw : Hashtable → Bucket) → SwTable → (key val : ℕ) → Option SwTable
put fuel raw s k v = elim (clht_put fuel raw s.hashtable k v s.lt) [
  | none ↦ none
  | some (ht, added) ↦ some (record s { hashtable = ht })
]

-- `Update(key, val)`
unfoldable pub update : SwTable → (key val : ℕ) → SwTable
update s k v = record s { hashtable = (clht_update s.hashtable k v).0 }

-- `Get(key)`: a tick of the logical time, and the value or 0.
unfoldable pub get : SwTable → (key : ℕ) → SwTable × ℕ
get s k =
    let now = (s.lt + 1) % 2 ^ 32 in
    let r = clht_get s.hashtable k now in (record { hashtable = r.0; lt = now }, r.1)

-- `Remove(key)`
unfoldable pub remove : SwTable → (key : ℕ) → SwTable × ℕ
remove s k = let r = clht_remove s.hashtable k in (record s { hashtable = r.0 }, r.1)
