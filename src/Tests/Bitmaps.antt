-- ===== src/Tests/Bitmaps.antt =====
-- The theorems on bitmaps and fingerprints, applied to concrete entries, and runs.
use epli.Prelude.{
  ℕ, zero, suc, ◌-◌, ◌%◌, ◌≤◌, ◌≡◌, ◌≢◌, refl, arith, [], ◌∷◌, none, some, true, replicate,
}
use epli.Nvm.{alloc_aligned, reserve}
use epli.Entry.{Entry, ok, sort_kvs}
use epli.Entry.Slots.{lookup, count}
use epli.Entry.Methods.{IsValid, Writes}
use epli.Index.{Pairs}
use epli.Tree.{entry_size}
use epli.Bitmap.{
  MetaData, new_meta, hashcode1b, ffs_short, find_first_zero, set_bits_below, reset_n_bitmap,
  set_bitmap, pointer, setup, has_setup, read_bytes,
}
use epli.Bitmap.Bits.{bit}
use epli.Bitmap.Pointer.{pointer-setup}
use epli.Bitmap.Tree.{
  BitmapTree, find_by_mask, bulk_meta, locate_meta, entry_of, locate_insert, insert, update, remove,
}
use epli.Entry.At.{key_at}
use epli.Bitmap.Agree.{Agrees, Describes, find_by_mask-lookup}
use epli.Bitmap.Methods.{Leaks, write-Agrees}
use epli.Bitmap.Insert.{insert-Writes, meta_unfound}
use epli.Bitmap.Lost.{insert_split_unfound}
use epli.Tests.{list_index, page, one_pair, pairs_from, one_tree-few}

ffs_short_run : ffs_short 0x0130 ≡ 5
unfolding ffs_short
ffs_short_run = refl

hashcode1b_run : hashcode1b 0x123456789A ≡ 146
unfolding hashcode1b
hashcode1b_run = refl

reset_n_bitmap_run : reset_n_bitmap 3 0 ≡ 7
unfolding reset_n_bitmap set_bits_below set_bitmap
reset_n_bitmap_run = refl

pointer-setup_example :
    (pointer 4096 (setup 4096 4608) ≡ 4608)
    × ((4608 - 4096) % 2 ≡ 0 → has_setup (setup 4096 4608) ≡ true)
pointer-setup_example = pointer-setup 4096 4608 (omega arith) (omega arith) (omega arith)

-- An entry with one pair, and what stands beside it.
abbrev one_entry : Entry
one_entry = record { next = 0; min_key = 0; flag = 0; kvs = one_pair }

abbrev one_meta : MetaData
one_meta = record {
  bitmap = 1;
  fgpt = hashcode1b 5 ∷ replicate 13 0;
  entry_pointer = replicate 6 0;
}

empty_keys : (n j : ℕ) → key_at (replicate n (0, 0)) j ≡ 0
empty_keys zero j = refl
empty_keys (suc n) zero = refl
empty_keys (suc n) (suc j) = empty_keys n j

one_meta-Describes : Describes one_meta.fgpt one_meta.bitmap one_pair
unfolding bit
one_meta-Describes zero lt ne = (refl, refl)
one_meta-Describes (suc j) lt ne = absurd (ne (empty_keys 13 j))

one_meta-Agrees : Agrees one_meta one_entry
one_meta-Agrees = record { long = refl; describes = one_meta-Describes }

one_entry-IsValid : IsValid one_entry
one_entry-IsValid = record { slots = refl; unique = one_tree-few }

find_by_mask-lookup_example : find_by_mask one_meta one_entry 5 ≡ lookup one_pair 5
find_by_mask-lookup_example = find_by_mask-lookup one_meta one_entry 5 one_meta-Agrees (omega arith)

-- A tree of this entry; the index names the `MetaData` at 9000.
abbrev one_bitmap_tree : BitmapTree Pairs
one_bitmap_tree = record {
  heap = λ a. one_entry;
  metas = λ m. one_meta;
  nvm = page;
  head = 4096;
  base_addr = 4096;
  index = (0, 9000) ∷ [];
}

insert-Writes_example :
    (t' : BitmapTree Pairs) × (insert list_index 9100 one_bitmap_tree 3 30 ≡ (t', ok))
    × Writes one_entry 3
        (some 30)
        (t'.heap (entry_of list_index one_bitmap_tree (locate_insert list_index one_bitmap_tree 3)))
    × Agrees
        (t'.metas (locate_insert list_index one_bitmap_tree 3))
        (t'.heap (entry_of list_index one_bitmap_tree (locate_insert list_index one_bitmap_tree 3)))
    × ((b : ℕ)
        → b ≢ entry_of list_index one_bitmap_tree (locate_insert list_index one_bitmap_tree 3)
        → t'.heap b ≡ one_entry)
    × ((l : ℕ) → l ≢ locate_insert list_index one_bitmap_tree 3 → t'.metas l ≡ one_meta)
insert-Writes_example =
    insert-Writes list_index 9100 one_bitmap_tree 3 30 one_meta-Agrees one_entry-IsValid
      (omega arith) (unfold find_first_zero ffs_short in omega arith) (omega arith) refl

-- Built by `BulkLoad` or `Recover`, the key 5 has a fingerprint that is not stored.
meta_unfound_example :
    (find_by_mask (bulk_meta 4096 4096 1) one_entry 5 ≡ none)
    × (find_by_mask (new_meta 4096 4096) one_entry 5 ≡ none)
meta_unfound_example = meta_unfound 4096 4096 1 one_entry 5 (unfold hashcode1b in omega arith)

-- A full entry, from the key 2 on.
abbrev full_bitmap_tree : BitmapTree Pairs
full_bitmap_tree = record one_bitmap_tree {
  heap = λ a. record { next = 0; min_key = 0; flag = 0; kvs = pairs_from 14 2 };
  metas = λ m. record one_meta { bitmap = 0x3FFF };
}

full_few : (k : ℕ) → k ≢ 0 → count k (pairs_from 14 2) ≤ 1
full_few k nz = ground arith

located : locate_insert list_index full_bitmap_tree 1 ≡ 9000
unfolding locate_insert locate_meta pointer read_bytes
located = refl

fresh :
    (alloc_aligned entry_size 256 page).0
    ≢ entry_of list_index full_bitmap_tree (locate_insert list_index full_bitmap_tree 1)
unfolding locate_insert locate_meta pointer read_bytes alloc_aligned reserve
fresh = omega arith

insert_split_unfound_example :
    (t' : BitmapTree Pairs) × (insert list_index 9100 full_bitmap_tree 1 10 ≡ (t', ok))
    × (lookup
          (t'.heap (
            entry_of list_index full_bitmap_tree (locate_insert list_index full_bitmap_tree 1))).kvs
          1
        ≡ some 10)
    × (find_by_mask
          (t'.metas (locate_insert list_index full_bitmap_tree 1))
          (t'.heap
            (entry_of list_index full_bitmap_tree (locate_insert list_index full_bitmap_tree 1)))
          1
        ≡ none)
insert_split_unfound_example =
    insert_split_unfound list_index 9100 full_bitmap_tree 1 10
      (record { slots = refl; unique = full_few }) refl
      (unfold find_first_zero ffs_short in omega arith) (omega arith)
      (unfold sort_kvs in omega arith) refl (rw located (omega arith)) fresh

write-Agrees_example :
    let u = update list_index one_bitmap_tree 5 51 in
    let r = remove list_index one_bitmap_tree 5 in
    let m = locate_meta list_index one_bitmap_tree 5 in
    let a = entry_of list_index one_bitmap_tree m in
    ((u.1 ≡ ok) × Writes one_entry 5 (some 51) (u.0.heap a) × Agrees (u.0.metas m) (u.0.heap a))
    × ((r.1 ≡ ok)
        × Writes one_entry 5 none (r.0.heap a)
        × Agrees (r.0.metas m) (r.0.heap a)
        × Leaks (r.0.metas m) (r.0.heap a)
        × (u.0.metas ≡ one_bitmap_tree.metas)
        × (r.0.metas ≡ one_bitmap_tree.metas))
    × ((b : ℕ) → b ≢ a → (u.0.heap b ≡ one_entry) × (r.0.heap b ≡ one_entry))
write-Agrees_example =
    write-Agrees list_index one_bitmap_tree 5 51 50 one_meta-Agrees one_entry-IsValid (omega arith)
      refl
