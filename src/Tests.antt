-- ===== src/Tests.antt =====
-- Runs on concrete data: an index that is a sorted list, and the data of the examples.
pub mod Trees
pub mod Crashes
pub mod Durable
pub mod Tables
pub mod Threads
pub mod Resizes
pub mod Interface
pub mod Bitmaps
use epli.Prelude.{
  ℕ, zero, suc, ◌-◌, ◌%◌, ◌≤◌, ◌<◌, ◌≡◌, ◌≢◌, refl, arith, List, [], ◌∷◌, ◌++◌, true, false, ◌==◌,
  ltb, leb, if◌then◌else◌, length, replicate,
}
use epli.Nvm.{Alloc}
use epli.Entry.{Kv, Entry}
use epli.Entry.Slots.{count}
use epli.Entry.Methods.{IsValid}
use epli.Index.{Index, Pairs, insert_key, erase_key, floor_addr}
use epli.Tree.{Tree}
use epli.Tree.State.{IsTree}

abbrev load_list : Pairs → Pairs → Pairs
load_list [] c = c
load_list (x ∷ i) c = x ∷ i

abbrev find_list : Pairs → ℕ → ℕ
find_list [] k = 0
find_list ((j, a) ∷ c) k = floor_addr a c k

-- An index that stores the sorted list of its pairs.
abbrev pub list_index : Index
list_index = record {
  Carrier = Pairs;
  empty = [];
  insert = λ i k b. insert_key k b i;
  erase = λ i k. erase_key k i;
  bulk_load = load_list;
  get_payload_last_no_greater_than = find_list;
  pairs = λ i. i;
  pairs-empty = refl;
  pairs-insert = λ i k b h. refl;
  pairs-erase = λ i k. refl;
  pairs-bulk_load = λ i c h s. rw h;
  floor = λ i j a c k h. rw h;
}

abbrev pub page : Alloc
page = record { pmem_addr = 4096; current_addr = 4352; mapped_len = 65536; used = 256; freed = 0 }

-- A tree of one entry at 4096.
abbrev pub tree_of : List Kv → Tree Pairs
tree_of s = record {
  heap = λ a. record { next = 0; min_key = 0; flag = 0; kvs = s };
  nvm = page;
  head = 4096;
  index = (0, 4096) ∷ [];
}

abbrev pub tree_of-IsTree :
    (s : List Kv)
    → length s ≡ 14
    → ((k : ℕ) → k ≢ 0 → count k s ≤ 1)
    → IsTree list_index (tree_of s) 0
tree_of-IsTree s len few = record {
  later = [];
  stored = refl;
  chain = (record { slots = len; unique = few }, λ j nj lt. absurd (omega arith), refl);
  placed_head = (omega arith, refl, omega arith);
  placed = tt;
  aligned = refl;
}

abbrev pub one_pair : List Kv
one_pair = (5, 50) ∷ replicate 13 (0, 0)

-- 14 pairs, from the key 1 on.
abbrev pub pairs_from : (n key : ℕ) → List Kv
pairs_from zero k = []
pairs_from (suc n) k = (k, 10) ∷ pairs_from n (suc k)

abbrev pub one_tree : Tree Pairs
one_tree = tree_of one_pair

pub one_tree-few : (k : ℕ) → k ≢ 0 → count k one_pair ≤ 1
one_tree-few k nz = ground arith

abbrev pub one_tree-IsTree : IsTree list_index one_tree 0
one_tree-IsTree = tree_of-IsTree one_pair refl one_tree-few

abbrev pub empty_tree : Tree Pairs
empty_tree = tree_of (replicate 14 (0, 0))

pub empty_tree-few : (k : ℕ) → k ≢ 0 → count k (replicate 14 (0, 0)) ≤ 1
empty_tree-few k nz = ground arith

abbrev pub empty_tree-IsTree : IsTree list_index empty_tree 0
empty_tree-IsTree = tree_of-IsTree (replicate 14 (0, 0)) refl empty_tree-few

abbrev pub full_tree : Tree Pairs
full_tree = tree_of (pairs_from 14 1)

pub full_tree-few : (k : ℕ) → k ≢ 0 → count k (pairs_from 14 1) ≤ 1
full_tree-few k nz = ground arith

abbrev pub full_tree-IsTree : IsTree list_index full_tree 0
full_tree-IsTree = tree_of-IsTree (pairs_from 14 1) refl full_tree-few

-- A full entry at 4096, from the key 1 on, and one behind it at 4352, from the key 20 on.
abbrev pub two_entries : Tree Pairs
two_entries = record {
  heap = λ a.
      if a == 4096
      then record { next = 4352; min_key = 0; flag = 0; kvs = pairs_from 14 1 }
      else record { next = 0; min_key = 20; flag = 0; kvs = pairs_from 14 20 };
  nvm = record page { current_addr = 4608 };
  head = 4096;
  index = (0, 4096) ∷ (20, 4352) ∷ [];
}
