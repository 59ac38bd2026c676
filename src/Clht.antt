-- ===== src/Clht.antt =====
-- The hash table behind the SW-Table: src/clht_lb_res.cc, with include/clht/clht_lb_res.h and
-- include/clht/utils.h, as the project changed it (access times and the two eliminations). But for Threads, one thread
-- uses the table at a time, so each lock is free when it is taken; collecting old versions does not
-- change what the table holds. A chain of buckets is a list, its first bucket in the array `table`.
pub mod Time
pub mod Chain
pub mod Victim
pub mod Table
pub mod Resize
pub mod Grow
pub mod Growth
pub mod Smear
pub mod Tight
pub mod Packed
pub mod Submap
pub mod Eliminated
pub mod Resized
pub mod Status
pub mod Put
pub mod Memory
pub mod Threads
pub mod Resizer
use Prim.Native.Nat.{bit_and, bit_or}
use epli.Prelude.{
  ℕ, zero, suc, ◌+◌, ◌-◌, ◌*◌, ◌/◌, ◌%◌, ◌^◌, ◌≡◌, List, [], ◌∷◌, Option, none, some, Bool, true,
  false, leb, ltb, ◌&&◌, ◌||◌, ◌==◌, if◌then◌else◌, get_or, set, replicate, length, not,
}
use epli.Entry.{Kv, find_key, set_key, set_val}

-- Three bytes, the first one the highest.
pub record UInt24 : Type 0 where
  pub high : ℕ
  pub middle : ℕ
  pub low : ℕ

unfoldable pub unpack_uint24 : UInt24 → ℕ
unpack_uint24 x = (x.high * 256 + x.middle) * 256 + x.low

-- `pack_uint24`, and what `set_time` stores.
unfoldable pub pack_uint24 : ℕ → UInt24
pack_uint24 x = record { high = x / 2 ^ 16 % 256; middle = x / 2 ^ 8 % 256; low = x % 256 }

-- `slots` holds `key[j]` beside `val[j]`.
pub record Bucket : Type 0 where
  pub time : UInt24
  pub hops : ℕ
  pub slots : List Kv

abbrev pub entries_per_bucket : ℕ
entries_per_bucket = 3

pub record Hashtable : Type 0 where
  pub num_buckets : ℕ
  pub table : List (List Bucket)
  pub hash : ℕ
  pub version : ℕ
  pub num_expands : ℕ
  pub num_expands_threshold : ℕ

abbrev pub empty_keys : List Kv → List Kv
empty_keys [] = []
empty_keys ((k, v) ∷ s) = (0, v) ∷ empty_keys s

-- `clht_bucket_create`: only the keys are set; the rest is what the fresh memory `raw` holds.
unfoldable pub bucket_create : (raw : Bucket) → Bucket
bucket_create raw = record raw { slots = empty_keys raw.slots }

abbrev pub zero_bucket : Bucket
zero_bucket = record {
  time = record { high = 0; middle = 0; low = 0 };
  hops = 0;
  slots = replicate entries_per_bucket (0, 0);
}

-- `clht_hashtable_create`; `none` stands for NULL. CLHT_PERC_EXPANSIONS is 1.
unfoldable pub hashtable_create : ℕ → Option Hashtable
hashtable_create n =
    if n == 0
    then none
    else some (record {
      num_buckets = n;
      table = replicate n (zero_bucket ∷ []);
      hash = n - 1;
      version = 0;
      num_expands = 0;
      num_expands_threshold = if n % 2 ^ 32 == 0 then 1 else n % 2 ^ 32;
    })

-- `clht_hash`
unfoldable pub clht_hash : Hashtable → (key : ℕ) → ℕ
clht_hash ht k = bit_and k ht.hash

-- The bucket that `clht_get` has found the key in.
unfoldable pub touch : Bucket → (lt : ℕ) → Bucket
touch b lt = record b { hops = (b.hops + 1) % 2 ^ 32; time = pack_uint24 lt }

-- The loops of `clht_get` over a chain.
unfoldable pub get_chain : List Bucket → (key lt : ℕ) → List Bucket × ℕ
get_chain [] k lt = ([], 0)
get_chain (b ∷ c) k lt = elim (find_key b.slots k) [
  | some i ↦ (touch b lt ∷ c, (get_or b.slots i (0, 0)).1)
  | none ↦ (b ∷ (get_chain c k lt).0, (get_chain c k lt).1)
]

-- `bucket_exists`
unfoldable pub bucket_exists : List Bucket → (key : ℕ) → Bool
bucket_exists [] k = false
bucket_exists (b ∷ c) k = elim (find_key b.slots k) [ some i ↦ true | none ↦ bucket_exists c k ]

-- The loops of `clht_update`.
unfoldable pub update_chain : List Bucket → (key val : ℕ) → List Bucket × Bool
update_chain [] k v = ([], false)
update_chain (b ∷ c) k v = elim (find_key b.slots k) [
  | some i ↦ (record b { slots = set_val b.slots i v } ∷ c, true)
  | none ↦ (b ∷ (update_chain c k v).0, (update_chain c k v).1)
]

-- The loops of `clht_remove`: the value, or `false`, which is 0.
unfoldable pub remove_chain : List Bucket → (key : ℕ) → List Bucket × ℕ
remove_chain [] k = ([], 0)
remove_chain (b ∷ c) k = elim (find_key b.slots k) [
  | some i ↦ (record b { slots = set_key b.slots i 0 } ∷ c, (get_or b.slots i (0, 0)).1)
  | none ↦ (b ∷ (remove_chain c k).0, (remove_chain c k).1)
]

-- The writes of `clht_put`, and of `clht_put_seq`: into the first empty slot of the chain, or into
-- a new bucket at its end. The flag says that there is a new bucket.
unfoldable pub put_chain : (raw : Bucket) → List Bucket → (key val : ℕ) → List Bucket × Bool
put_chain raw [] k v =
    (record raw { slots = set_key (set_val (bucket_create raw).slots 0 v) 0 k } ∷ [], true)
put_chain raw (b ∷ c) k v = elim (find_key b.slots 0) [
  | some i ↦ (record b { slots = set_key (set_val b.slots i v) i k } ∷ c, false)
  | none ↦ (b ∷ (put_chain raw c k v).0, (put_chain raw c k v).1)
]

abbrev pub chain_of : Hashtable → (bin : ℕ) → List Bucket
chain_of ht bin = get_or ht.table bin []

abbrev pub with_chain : Hashtable → (bin : ℕ) → List Bucket → Hashtable
with_chain ht bin c = record ht { table = set ht.table bin c }

-- `clht_get`
unfoldable pub clht_get : Hashtable → (key lt : ℕ) → Hashtable × ℕ
clht_get ht k lt =
    let bin = clht_hash ht k in
    let r = get_chain (chain_of ht bin) k lt in (with_chain ht bin r.0, r.1)

-- `clht_update`
unfoldable pub clht_update : Hashtable → (key val : ℕ) → Hashtable × Bool
clht_update ht k v =
    let bin = clht_hash ht k in
    let r = update_chain (chain_of ht bin) k v in (with_chain ht bin r.0, r.1)

-- `clht_remove`, after the test of CLHT_READ_ONLY_FAIL.
unfoldable pub clht_remove : Hashtable → (key : ℕ) → Hashtable × ℕ
clht_remove ht k =
    let bin = clht_hash ht k in
    let r = remove_chain (chain_of ht bin) k in
    if bucket_exists (chain_of ht bin) k then (with_chain ht bin r.0, r.1) else (ht, 0)

-- `clht_put_seq`, and the part of `clht_put` that writes: the flag is `resize`, which
-- `clht_bucket_create_stats` sets when the number of expansions reaches the threshold.
unfoldable pub put_bin : (raw : Bucket) → Hashtable → (bin key val : ℕ) → Hashtable × Bool
put_bin raw ht bin k v =
    let r = put_chain raw (chain_of ht bin) k v in
    let n = (ht.num_expands + 1) % 2 ^ 32 in
    if r.1
    then (record (with_chain ht bin r.0) { num_expands = n }, n == ht.num_expands_threshold)
    else (with_chain ht bin r.0, false)
