-- ===== src/Clht/Memory.antt =====
-- `clht_create`, `clht_size`, `clht_size_mem` and `clht_size_mem_garbage` of src/clht_lb_res.cc: a new table,
-- how many pairs it holds, and how many bytes it and its old versions take.
use epli.Prelude.{
  ℕ, zero, suc, ◌+◌, ◌-◌, ◌*◌, ◌/◌, ◌%◌, ◌^◌, ◌≤◌, ◌<◌, ◌≡◌, refl, arith, List, [], ◌∷◌, Option,
  none, some, ap, length, take, replicate, ◌==◌, if◌then◌else◌,
}
use epli.Entry.{Kv}
use epli.Clht.{Bucket, Hashtable, entries_per_bucket, hashtable_create, zero_bucket}
use epli.Clht.Resize.{kv_count, table_size, copy_slots}
use epli.Clht.Packed.{copy_slots-Puts, expands-le, fresh-Packed, fresh-size}

-- `clht_t`, without the list of the versions in use.
pub record Clht : Type 0 where
  pub ht : Hashtable
  pub version_min : ℕ
  pub resize_lock : ℕ
  pub gc_lock : ℕ
  pub status_lock : ℕ

-- `clht_create`; `none` stands for NULL.
unfoldable pub clht_create : ℕ → Option Clht
clht_create n = elim (hashtable_create n) [
  | none ↦ none
  | some t ↦
      some (record { ht = t; version_min = 0; resize_lock = 0; gc_lock = 0; status_lock = 0 })
]

-- The loops of `clht_size` over the buckets of the first `num_buckets` chains.
unfoldable pub clht_size : Hashtable → ℕ
clht_size t = table_size (take t.num_buckets t.table)

-- `clht_size_mem`: sizeof(clht_hashtable_t **) is 8, and sizeof(bucket_t) is 64.
unfoldable pub clht_size_mem : Option Hashtable → ℕ
clht_size_mem none = 0
clht_size_mem (some t) = (8 + (t.num_buckets + t.num_expands) % 2 ^ 64 * 64) % 2 ^ 64

-- `clht_size_mem_garbage`, for the tables that follow by `table_prev`.
unfoldable pub clht_size_mem_garbage : List Hashtable → ℕ
unfolding clht_size_mem
clht_size_mem_garbage [] = 0
clht_size_mem_garbage (t ∷ prev) = (clht_size_mem (some t) + clht_size_mem_garbage prev) % 2 ^ 64

take-all : (xs : List (List Bucket)) (n : ℕ) → length xs ≡ n → take n xs ≡ xs
take-all [] zero h = refl
take-all [] (suc n) h = refl
take-all (x ∷ xs) zero h = absurd (omega arith)
take-all (x ∷ xs) (suc n) h =
    ap (λ (r : List (List Bucket)). x ∷ r) (take-all xs n (omega (arith, h)))

-- The table and the handle that `clht_create` makes.
abbrev new_table : ℕ → Hashtable
new_table n = record {
  num_buckets = n;
  table = replicate n (zero_bucket ∷ []);
  hash = n - 1;
  version = 0;
  num_expands = 0;
  num_expands_threshold = if n % 2 ^ 32 == 0 then 1 else n % 2 ^ 32;
}

abbrev made : Hashtable → Clht
made t = record { ht = t; version_min = 0; resize_lock = 0; gc_lock = 0; status_lock = 0 }

hashtable_create-made : (n : ℕ) → 0 < n → hashtable_create n ≡ some (new_table n)
unfolding hashtable_create
hashtable_create-made n pos = ground arith

clht_create-made : (n : ℕ) → 0 < n → clht_create n ≡ some (made (new_table n))
unfolding clht_create
clht_create-made n pos = rw (hashtable_create-made n pos, clht_create) refl

module _ (raw : Hashtable → Bucket)
    (full : (t : Hashtable) → length (raw t).slots ≡ entries_per_bucket) where
  -- A table made by `clht_create` with 1 to 2 ^ 57 buckets, into which `clht_put_seq` puts the valid pairs of
  -- a list of less than 2 ^ 32 of them, holds as many pairs by `clht_size` as the list has, and takes, by
  -- `clht_size_mem`, the bytes of its first buckets and of one more for each three pairs at most.
  pub copy_slots-bounds :
      (n : ℕ) (s : List Kv)
      → 0 < n
      → n ≤ 2 ^ 57
      → kv_count s < 2 ^ 32
      → (w : Clht) × (clht_create n ≡ some w)
        × (clht_size (copy_slots raw s w.ht) ≡ kv_count s)
        × (8 + 64 * n ≤ clht_size_mem (some (copy_slots raw s w.ht)))
        × (clht_size_mem (some (copy_slots raw s w.ht)) ≤ 8 + 64 * (n + kv_count s / 3))
  unfolding clht_size clht_size_mem
  copy_slots-bounds n s pos fits few =
      let r =
        copy_slots-Puts raw s (new_table n) full (fresh-Packed n 0 _ pos)
          (omega (arith, fresh-size n)) in
      let e = expands-le (copy_slots raw s (new_table n)) r.packed in
      let all =
        take-all (copy_slots raw s (new_table n)).table (copy_slots raw s (new_table n)).num_buckets
          r.packed.buckets in
      (
        made (new_table n),
        clht_create-made n pos,
        rw all (omega (arith, r.size, fresh-size n)),
        omega (arith, r.same_buckets, e, r.size, fresh-size n),
        omega (arith, r.same_buckets, e, r.size, fresh-size n),
      )
