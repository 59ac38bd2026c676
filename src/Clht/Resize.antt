-- ===== src/Clht/Resize.antt =====
-- `bucket_cpy`, `ht_resize_pes`, `ht_status` and `clht_put` of src/clht_lb_res.cc, and `pow2roundup` of
-- include/clht/utils.h. A full ratio is compared as the fraction that it stands for; the source
-- rounds it to a double. `none` is a fault (the resized table would have no bucket, and NULL is read)
-- or the end of the fuel. The memory `raw` of a fresh bucket may hold anything: it is a function of the
-- table that the bucket is added to, and so may be another one for each bucket.
use Prim.Native.Nat.{bit_or}
use epli.Prelude.{
  ℕ, zero, suc, ◌+◌, ◌-◌, ◌*◌, ◌/◌, ◌%◌, ◌^◌, List, [], ◌∷◌, Option, none, some, Bool, true, false,
  leb, ltb, ◌&&◌, ◌||◌, ◌==◌, if◌then◌else◌, length,
}
use epli.Entry.{Kv}
use epli.Clht.{
  Bucket, Hashtable, unpack_uint24, put_bin, clht_hash, hashtable_create, bucket_exists, chain_of,
  with_chain, entries_per_bucket,
}
use epli.Clht.Victim.{eliminate}

-- The slots with a valid key are put into the new table.
unfoldable pub copy_slots : (raw : Hashtable → Bucket) → List Kv → Hashtable → Hashtable
copy_slots raw [] ht = ht
copy_slots raw ((k, v) ∷ s) ht =
    copy_slots raw s (if k == 0 then ht else (put_bin (raw ht) ht (clht_hash ht k) k v).0)

abbrev pub kv_count : List Kv → ℕ
kv_count [] = 0
kv_count ((k, v) ∷ s) = if k == 0 then kv_count s else suc (kv_count s)

-- MAX_ACTIVE_ELIMINATION_TIME is 512: the active elimination keeps a bucket that was used lately
-- or holds less than two pairs.
unfoldable pub survives : Bucket → (lt : ℕ) → Bool
survives b lt = ltb lt (unpack_uint24 b.time + 512) || ltb (kv_count b.slots) 2

-- The two versions of `bucket_cpy`: all buckets where the table grows, the survivors where it
-- shrinks.
unfoldable pub bucket_cpy :
    (raw : Hashtable → Bucket) → (increase : Bool) → (lt : ℕ) → List Bucket → Hashtable → Hashtable
bucket_cpy raw increase lt [] ht = ht
bucket_cpy raw increase lt (b ∷ c) ht =
    bucket_cpy raw increase lt c
      (if increase || survives b lt then copy_slots raw b.slots ht else ht)

-- The loop of `ht_resize_pes` over the chains.
unfoldable pub copy_table :
    (raw : Hashtable → Bucket)
    → (increase : Bool) → (lt : ℕ) → List (List Bucket)
    → Hashtable
    → Hashtable
copy_table raw increase lt [] ht = ht
copy_table raw increase lt (c ∷ cs) ht =
    copy_table raw increase lt cs (bucket_cpy raw increase lt c ht)

-- `ht_resize_pes(h, is_increase, by, lt)`: the new table, and whether it has already expanded as often
-- as its threshold allows. CLHT_RATIO_HALVE is 8.
unfoldable pub ht_resize :
    (raw : Hashtable → Bucket)
    → (increase : Bool) → (by lt : ℕ) → Hashtable
    → Option (Hashtable × Bool)
ht_resize raw increase by lt old =
    elim (hashtable_create
      (if increase then by * old.num_buckets % 2 ^ 64 else old.num_buckets / 8)) [
        | none ↦ none
        | some new ↦
            let full =
              copy_table raw increase lt old.table
                (record new { version = (old.version + 1) % 2 ^ 64 }) in
            some (full, leb full.num_expands_threshold full.num_expands)
      ]

abbrev pub chain_size : List Bucket → ℕ
chain_size [] = 0
chain_size (b ∷ c) = kv_count b.slots + chain_size c

-- The counts of `ht_status`: the valid pairs, and the largest number of added buckets in a chain.
unfoldable pub table_size : List (List Bucket) → ℕ
table_size [] = 0
table_size (c ∷ cs) = chain_size c + table_size cs

unfoldable pub expands_max : List (List Bucket) → ℕ
expands_max [] = 0
expands_max (c ∷ cs) =
    let rest = expands_max cs in if ltb rest (length c - 1) then length c - 1 else rest

-- `x |= x >> s`
unfoldable pub smear : (shift x : ℕ) → ℕ
smear s x = bit_or x (x / 2 ^ s)

unfoldable pub smear_all : ℕ → ℕ
unfolding smear
smear_all x = smear 32 (smear 16 (smear 8 (smear 4 (smear 2 (smear 1 x)))))

unfoldable pub pow2roundup : ℕ → ℕ
unfolding smear_all
pow2roundup x = if x == 0 then 1 else (smear_all (x - 1) + 1) % 2 ^ 64

-- The factor by which a table grows. CLHT_OCCUP_AFTER_RES is 40.
unfoldable pub growth : (size num_buckets : ℕ) → ℕ
unfolding pow2roundup
growth size n =
    let by = pow2roundup (100 * size / (n * entries_per_bucket * 40)) in if by == 1 then 2 else by

-- What `ht_status` decides. CLHT_PERC_FULL_HALVE is 5, CLHT_PERC_FULL_DOUBLE 50, CLHT_MAX_EXPANSIONS 12.
pub data Decision : Type 0 where
  shrink : Decision
  grow : Decision
  keep : Decision

unfoldable pub decide_status : (resize_increase : Bool) → (size num_buckets expands : ℕ) → Decision
decide_status resize_increase size n expands =
    if ltb 0 size && ltb (100 * size) (5 * (n * entries_per_bucket))
    then shrink
    else if ltb (50 * (n * entries_per_bucket)) (100 * size) || ltb 12 expands || resize_increase
    then grow
    else keep

-- MAX_BUCKET_SIZE
abbrev pub max_bucket_size : ℕ
max_bucket_size = 1024 * 1024

-- What follows a resize: another look at the new table where it says so.
unfoldable pub finish_resize :
    (Hashtable → Option Hashtable) → Option (Hashtable × Bool) → Option Hashtable
finish_resize again none = none
finish_resize again (some (new, true)) = again new
finish_resize again (some (new, false)) = some new

-- `ht_status(h, resize_increase, 0, lt)`, which a resize calls again; past the maximal size the
-- table is left alone.
unfoldable pub ht_status :
    (fuel : ℕ)
    → (raw : Hashtable → Bucket) → (resize_increase : Bool) → (lt : ℕ) → Hashtable
    → Option Hashtable
ht_status zero raw inc lt ht = none
ht_status (suc fuel) raw inc lt ht =
    let size = table_size ht.table in
    let finish = finish_resize (ht_status fuel raw true 0) in
    elim (decide_status inc size ht.num_buckets (expands_max ht.table)) [
      | shrink ↦ finish (ht_resize raw false 33 lt ht)
      | grow ↦ elim (leb max_bucket_size size) [
        | true ↦ some ht
        | false ↦ finish (ht_resize raw true (growth size ht.num_buckets) 0 ht)
      ]
      | keep ↦ some ht
    ]

-- `ht_status(h, 1, 0, put_bin, lt)`, the call of `clht_put`: past the maximal size the coldest bucket
-- of the chain is emptied.
unfoldable pub ht_status_put :
    (fuel : ℕ) → (raw : Hashtable → Bucket) → (put_bin lt : ℕ) → Hashtable → Option Hashtable
ht_status_put fuel raw bin lt ht =
    let size = table_size ht.table in
    let finish = finish_resize (ht_status fuel raw true 0) in
    elim (decide_status true size ht.num_buckets (expands_max ht.table)) [
      | shrink ↦ finish (ht_resize raw false 33 lt ht)
      | grow ↦ elim (leb max_bucket_size size) [
        | true ↦ some (with_chain ht bin (eliminate (chain_of ht bin)))
        | false ↦ finish (ht_resize raw true (growth size ht.num_buckets) 0 ht)
      ]
      | keep ↦ some ht
    ]

-- `clht_put(h, key, val, lt)`: false for a key that is there.
unfoldable pub clht_put :
    (fuel : ℕ)
    → (raw : Hashtable → Bucket) → Hashtable
    → (key val lt : ℕ) → Option (Hashtable × Bool)
clht_put fuel raw ht k v lt =
    let bin = clht_hash ht k in
    let r = put_bin (raw ht) ht bin k v in
    if bucket_exists (chain_of ht bin) k
    then some (ht, false)
    else if r.1
    then elim (ht_status_put fuel raw bin lt r.0) [ none ↦ none | some new ↦ some (new, true) ]
    else some (r.0, true)
