-- ===== src/Tests/Tables.antt =====
-- The theorems on the hash table, applied to a concrete one.
use epli.Prelude.{
  ℕ, ◌+◌, ◌*◌, ◌/◌, List, zero, suc, bit_and-le_right, ◌≤◌, ◌≡◌, ◌≢◌, refl, arith, [], ◌∷◌, none,
  some, get_or, not, or_else, if◌then◌else◌, ◌==◌, ◌⊎◌, true, ◌&&◌,
}
use epli.Entry.{Kv}
use epli.Entry.Slots.{count}
use epli.Clht.Memory.{Clht, clht_create, clht_size, clht_size_mem, copy_slots-bounds}
use epli.Clht.{
  Bucket, Hashtable, zero_bucket, clht_hash, clht_get, clht_update, clht_remove, put_bin,
}
use epli.Clht.Eliminated.{is_eliminated}
use epli.Clht.Chain.{or_zero, flat, is_some}
use epli.Clht.Table.{IsTable, Sets, ht_lookup, calls-Sets}
use epli.Clht.Resize.{copy_slots, clht_put}
use epli.Clht.Put.{clht_put_lem}
use epli.Clht.Resized.{IsSized}

-- The memory of each fresh bucket is zeros.
abbrev pub zero_memory : Hashtable → Bucket
zero_memory t = zero_bucket

-- One chain of two buckets, with a pair in each; the value of the second is 0.
abbrev pub first_bucket : Bucket
first_bucket = record {
  time = record { high = 0; middle = 0; low = 9 };
  hops = 4;
  slots = (5, 50) ∷ (0, 0) ∷ (0, 0) ∷ [];
}

abbrev pub second_bucket : Bucket
second_bucket = record {
  time = record { high = 0; middle = 0; low = 3 };
  hops = 1;
  slots = (0, 0) ∷ (7, 0) ∷ (0, 0) ∷ [];
}

abbrev pub small : Hashtable
small = record {
  num_buckets = 1;
  table = (first_bucket ∷ second_bucket ∷ []) ∷ [];
  hash = 0;
  version = 0;
  num_expands = 1;
  num_expands_threshold = 1;
}

small-count :
    (j i : ℕ)
    → j ≢ 0
    → (count j (flat (get_or small.table i [])) ≤ 1)
      × (i ≢ 0 → count j (flat (get_or small.table i [])) ≡ 0)
small-count j zero nj = (ground arith, λ n. absurd (n refl))
small-count j (suc i) nj = (omega arith, λ n. refl)

pub small-hash : (j : ℕ) → clht_hash small j ≡ 0
unfolding clht_hash
small-hash j = omega (arith, bit_and-le_right j 0)

pub small-IsTable : IsTable small
small-IsTable = record {
  buckets = refl;
  some_buckets = omega arith;
  mask = refl;
  placed = λ j i nj. rw small-hash (small-count j i nj);
}

program : Unit {0}
unfolding ht_lookup clht_hash
program = tt

calls-Sets_example :
    (((clht_get small 7 12).1 ≡ or_zero (ht_lookup small 7))
      × Sets small 7 (ht_lookup small 7) (clht_get small 7 12).0)
    × ((((clht_update small 7 71).1 ≡ is_some (ht_lookup small 7))
          × Sets small 7
              (if is_some (ht_lookup small 7) then some 71 else none)
              (clht_update small 7 71).0)
        × (((clht_remove small 7).1 ≡ or_zero (ht_lookup small 7))
            × Sets small 7 none (clht_remove small 7).0))
calls-Sets_example = calls-Sets small small-IsTable 7 12 71 (omega arith)

clht_put_lem_example :
    (new : Hashtable) × (clht_put 0 zero_memory small 8 80 12
      ≡ some (new, not (is_some (ht_lookup small 8))))
    × IsTable new
    × IsSized new.num_buckets
    × ((j : ℕ)
        → j ≢ 0
        → (((put_bin (zero_memory small) small (clht_hash small 8) 8 80).1
                && is_eliminated
                    (put_bin (zero_memory small) small (clht_hash small 8) 8 80).0
                    (clht_hash small 8)
                    12
                    j
              ≡ true)
            × (ht_lookup new j ≡ none))
          ⊎ (ht_lookup new j ≡ or_else (ht_lookup small j) (if j == 8 then some 80 else none)))
clht_put_lem_example =
    clht_put_lem 0 zero_memory small 8 80 12 (λ t. refl) small-IsTable ((0, refl), omega arith)
      (omega arith)

-- Two pairs and an empty slot in a table of four buckets.
abbrev loaded : List Kv
loaded = (5, 50) ∷ (0, 0) ∷ (9, 90) ∷ []

copy_slots-bounds_example :
    (w : Clht) × (clht_create 4 ≡ some w)
    × (clht_size (copy_slots zero_memory loaded w.ht) ≡ 2)
    × (8 + 64 * 4 ≤ clht_size_mem (some (copy_slots zero_memory loaded w.ht)))
    × (clht_size_mem (some (copy_slots zero_memory loaded w.ht)) ≤ 8 + 64 * (4 + 2 / 3))
copy_slots-bounds_example =
    copy_slots-bounds zero_memory (λ t. refl) 4 loaded (omega arith) (omega arith) (omega arith)
