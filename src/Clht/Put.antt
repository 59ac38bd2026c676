-- ===== src/Clht/Put.antt =====
-- `clht_put` as a whole, the resizing that follows it included.
use epli.Prelude.{
  ℕ, zero, suc, ◌≤◌, ◌<◌, ◌≡◌, ◌≢◌, ◌⊎◌, refl, arith, List, [], ◌∷◌, none, some, ◌==◌, true, ◌&&◌,
  if◌then◌else◌, get_or, length, not, Option-cases, Bool-cases, inl, inr, ◌∙◌, ap, or_else,
}
use epli.Entry.{Kv}
use epli.Entry.Slots.{lookup}
use epli.Clht.{Bucket, Hashtable, clht_hash, chain_of, entries_per_bucket, put_bin, bucket_exists}
use epli.Clht.Chain.{flat, is_some, bucket_exists-lookup}
use epli.Clht.Table.{IsTable, ht_lookup, put_bin-Sets}
use epli.Clht.Resize.{kv_count, chain_size, table_size, ht_status_put, clht_put}
use epli.Clht.Resized.{IsSized, Keeps}
use epli.Clht.Eliminated.{is_eliminated}
use epli.Clht.Status.{ht_status_put-Keeps}
use epli.Clht.Submap.{kv_count-append}

-- A table with a valid key is not empty.
kv_count-pos : (s : List Kv) (k v : ℕ) → k ≢ 0 → lookup s k ≡ some v → 0 < kv_count s
kv_count-pos [] k v nk h = cc
kv_count-pos ((j, w) ∷ s) k v nk h = ground (arith, kv_count-pos s k v)

chain_size-flat : (c : List Bucket) → kv_count (flat c) ≡ chain_size c
chain_size-flat [] = refl
chain_size-flat (b ∷ c) = omega (arith, kv_count-append b.slots (flat c), chain_size-flat c)

chain_size-le : (cs : List (List Bucket)) (i : ℕ) → chain_size (get_or cs i []) ≤ table_size cs
unfolding table_size
chain_size-le [] i = omega arith
chain_size-le (c ∷ cs) zero = omega arith
chain_size-le (c ∷ cs) (suc i) = omega (arith, chain_size-le cs i)

table_size-pos :
    (ht : Hashtable) (k v : ℕ) → k ≢ 0 → ht_lookup ht k ≡ some v → 0 < table_size ht.table
unfolding ht_lookup
table_size-pos ht k v nk h =
    let c = chain_of ht (clht_hash ht k) in
    omega (
      arith,
      kv_count-pos (flat c) k v nk h,
      chain_size-flat c,
      chain_size-le ht.table (clht_hash ht k),
    )

put_bin-buckets :
    (raw : Bucket) (ht : Hashtable) (bin k v : ℕ)
    → (put_bin raw ht bin k v).0.num_buckets ≡ ht.num_buckets
unfolding put_bin
put_bin-buckets raw ht bin k v = ground arith

put_bin-hash :
    (raw : Bucket) (ht : Hashtable) (bin k v j : ℕ)
    → clht_hash (put_bin raw ht bin k v).0 j ≡ clht_hash ht j
unfolding put_bin clht_hash
put_bin-hash raw ht bin k v j = ground arith

module _ (fuel : ℕ) (raw : Hashtable → Bucket) (ht : Hashtable) (k v lt : ℕ)
    (full : (t : Hashtable) → length (raw t).slots ≡ entries_per_bucket) (valid : IsTable ht)
    (sized : IsSized ht.num_buckets) (nk : k ≢ 0) (absent : ht_lookup ht k ≡ none) where
  abbrev put_to : Hashtable
  put_to = (put_bin (raw ht) ht (clht_hash ht k) k v).0

  put_reads :
      (j : ℕ)
      → j ≢ 0
      → ht_lookup put_to j ≡ or_else (ht_lookup ht j) (if j == k then some v else none)
  put_reads j nj =
      (put_bin-Sets ht valid k (raw ht) v (full ht) nk absent).reads j nj
      ∙ ground (arith, absent, ap (ht_lookup ht) {x = j} {y = k})

  status_after :
      (new : Hashtable) × (ht_status_put fuel raw (clht_hash ht k) lt put_to ≡ some new)
      × Keeps (is_eliminated put_to (clht_hash ht k) lt) put_to new
      × IsSized new.num_buckets
  status_after =
      let bins = put_bin-buckets (raw ht) ht (clht_hash ht k) k v in
      let table = (put_bin-Sets ht valid k (raw ht) v (full ht) nk absent).table in
      let found = put_reads k nk ∙ rw absent (ground arith) in
      rw (← put_bin-hash (raw ht) ht (clht_hash ht k) k v k) (
        ht_status_put-Keeps fuel raw put_to k lt full table (rw bins sized)
          (table_size-pos put_to k v nk found))

-- In a well-formed table whose number of buckets is a power of two below 2 ^ 30, `clht_put` of a valid key
-- ends without a fault and with no fuel for a second resize: it returns true if the key was absent and
-- false if it was there. The table is well-formed again, of such a number of buckets, and each valid
-- key has its old value, or the new one if it is the key that was absent. Only where the put adds a
-- bucket that reaches the threshold, the keys that `is_eliminated` names may be gone: those in a bucket that a
-- shrinking resize leaves out, or, past the maximal size, in the coldest bucket of the chain of the put.
pub clht_put_lem :
    (fuel : ℕ) (raw : Hashtable → Bucket) (ht : Hashtable) (k v lt : ℕ)
    → ((t : Hashtable) → length (raw t).slots ≡ entries_per_bucket)
    → IsTable ht
    → IsSized ht.num_buckets
    → k ≢ 0
    → (new : Hashtable) × (clht_put fuel raw ht k v lt ≡ some (new, not (is_some (ht_lookup ht k))))
      × IsTable new
      × IsSized new.num_buckets
      × ((j : ℕ)
          → j ≢ 0
          → (((put_bin (raw ht) ht (clht_hash ht k) k v).1
                  && is_eliminated
                      (put_bin (raw ht) ht (clht_hash ht k) k v).0
                      (clht_hash ht k)
                      lt
                      j
                ≡ true)
              × (ht_lookup new j ≡ none))
            ⊎ (ht_lookup new j ≡ or_else (ht_lookup ht j) (if j == k then some v else none)))
unfolding clht_put
clht_put_lem fuel raw ht k v lt full valid sized nk =
    let bin = clht_hash ht k in
    let exists : bucket_exists (chain_of ht bin) k ≡ is_some (ht_lookup ht k) =
      unfold ht_lookup in bucket_exists-lookup (chain_of ht bin) k in
    elim (Option-cases (ht_lookup ht k)) [
      | inr (w, e) ↦ (
        ht,
        rw (exists, e) refl,
        valid,
        sized,
        λ j nj. inr (ground (arith, e, ap (ht_lookup ht) {x = j} {y = k})),
      )
      | inl e ↦
          let sets = put_bin-Sets ht valid k (raw ht) v (full ht) nk e in
          let reads = put_reads fuel raw ht k v lt full valid sized nk e in
          elim (Bool-cases (put_bin (raw ht) ht bin k v).1) [
            | inr f ↦ (
              _,
              rw (exists, e, f) refl,
              sets.table,
              rw (put_bin-buckets (raw ht) ht bin k v) sized,
              λ j nj. inr (reads j nj),
            )
            | inl f ↦
                let (new, made, keeps, sized') =
                  status_after fuel raw ht k v lt full valid sized nk e in
                (
                  new,
                  rw (exists, e, f, made) refl,
                  keeps.table,
                  sized',
                  λ j nj. elim (keeps.reads j nj) [
                    | inl (h, z) ↦ inl (rw (f, h) refl, z)
                    | inr h ↦ inr (h ∙ reads j nj)
                  ],
                )
          ]
    ]
