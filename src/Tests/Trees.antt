-- ===== src/Tests/Trees.antt =====
-- The theorems on entries and trees, applied to concrete ones.
use epli.Prelude.{
  ℕ, ◌<◌, ◌≤◌, ◌≡◌, ◌≢◌, refl, arith, List, [], ◌∷◌, ◌++◌, none, some, true, false, length,
}
use epli.Entry.{Kv, ok, fail, sort_kvs}
use epli.Entry.Slots.{lookup, count}
use epli.Index.{Pairs}
use epli.Tree.{Tree, new_tree, get, insert, update, remove, split_entry, locate}
use epli.Tree.State.{IsTree, contents, scan_list}
use epli.Nvm.{new_alloc}
use epli.Tree.Split.{right_half}
use epli.Tree.Restart.{restart_overwrites}
use epli.Tree.New.{new_tree_lem}
use epli.Tree.Methods.{Updates, get-contents, update-Updates, remove-Updates, writes-none}
use epli.Tree.Insert.{insert-Updates, split-contents}
use epli.Tree.Load.{bulk_load, recover, recover_loop}
use epli.Tree.Load.Recover.{recover-contents}
use epli.Tree.Load.Bulk.{bulk_load-lookup}
use epli.Tree.Scan.{
  range_scan, scan, in_range, range_middle, find_ge, scan_start, scan_middle, scan_end, valid_kvs,
  push_until,
}
use epli.Tree.Scan.Ends.{scan_ends}
use epli.Tree.Scan.Start.{Least, scan-Least}
use epli.Tree.Scan.Complete.{range_scan-contents}
use epli.Tests.{
  list_index, page, pairs_from, one_tree, one_tree-IsTree, empty_tree, empty_tree-IsTree, full_tree,
  full_tree-IsTree, two_entries,
}

new_tree_lem_example :
    IsTree list_index (new_tree list_index false (empty_tree.heap) page) 0
    × ((j : ℕ)
        → j ≢ 0
        → contents list_index (new_tree list_index false (empty_tree.heap) page) j ≡ none)
new_tree_lem_example = new_tree_lem list_index empty_tree.heap page refl (omega arith)

get-contents_example :
    get list_index one_tree 5 7
    ≡ elim (contents list_index one_tree 5) [ none ↦ (fail, 0) | some w ↦ (ok, w) ]
get-contents_example = get-contents list_index one_tree-IsTree 5 (omega arith) 7

update-Updates_example :
    (t' : Tree Pairs) × (update list_index one_tree 5 51 ≡ (t', ok))
    × Updates list_index one_tree 0 5 (some 51) t'
unfolding contents scan_list
update-Updates_example = update-Updates list_index one_tree-IsTree 5 (omega arith) 51 50 refl

remove-Updates_example :
    (t' : Tree Pairs) × (remove list_index one_tree 5 ≡ (t', ok))
    × Updates list_index one_tree 0 5 none t'
unfolding contents scan_list
remove-Updates_example = remove-Updates list_index one_tree-IsTree 5 (omega arith) 50 refl

writes-none_example :
    (update list_index one_tree 6 60 ≡ (one_tree, fail))
    × (remove list_index one_tree 6 ≡ (one_tree, fail))
unfolding contents scan_list
writes-none_example = writes-none list_index one_tree-IsTree 6 (omega arith) 60 refl

-- The entry is full, so the insertion splits it.
insert-Updates_example :
    (t' : Tree Pairs) × (insert list_index 2 full_tree 20 200 ≡ some (t', ok))
    × Updates list_index full_tree 0 20 (some 200) t'
unfolding contents scan_list
insert-Updates_example =
    insert-Updates list_index 0 full_tree-IsTree 20 200 (omega arith) (omega arith) refl

split-contents_example :
    contents list_index (split_entry list_index full_tree 4096) 3 ≡ contents list_index full_tree 3
split-contents_example = split-contents list_index full_tree-IsTree 20 refl 3 (omega arith)

bulk_load-lookup_example :
    (t' : Tree Pairs) × (bulk_load list_index empty_tree (pairs_from 30 1) ≡ some t')
    × IsTree list_index t' 1
    × ((j : ℕ) → j ≢ 0 → contents list_index t' j ≡ lookup (pairs_from 30 1) j)
bulk_load-lookup_example =
    bulk_load-lookup list_index empty_tree-IsTree refl 1 10 (pairs_from 29 2) (omega arith)
      (omega arith, ground arith)

few_pairs : (k : ℕ) → count k ((3, 1) ∷ (2, 4) ∷ []) ≤ 1
few_pairs k = ground arith

program : Unit {0}
unfolding locate range_scan in_range range_middle scan find_ge scan_start scan_middle scan_end
    valid_kvs push_until sort_kvs
program = tt

-- From the first entry into the second, and all the pairs in two rounds.
abbrev found : List Kv
found = pairs_from 14 1 ++ (pairs_from 14 1 ++ ((20, 10) ∷ (21, 10) ∷ []))

two_found : range_scan list_index 3 two_entries 1 21 ≡ some found
unfolding program
two_found = refl

-- Four pairs from the key 3 on.
scan-Least_example :
    (r : List Kv) × (scan list_index 1 full_tree 3 4 ≡ some r) × Least list_index full_tree 3 4 r
unfolding program
scan-Least_example = scan-Least list_index full_tree-IsTree 1 3 4 2 (omega arith) refl (omega arith)

first-count : (k : ℕ) → count k (pairs_from 14 1) ≤ 1
first-count k = ground arith

second-count : (k : ℕ) → count k (pairs_from 14 20) ≤ 1
second-count k = ground arith

first_below : (j : ℕ) → 20 ≤ j → lookup (pairs_from 14 1) j ≡ none
first_below j le = ground arith

second_above : (j : ℕ) → j < 20 → lookup (pairs_from 14 20) j ≡ none
second_above j lt = ground arith

abbrev two_entries-IsTree : IsTree list_index two_entries 0
two_entries-IsTree = record {
  later = (20, 4352) ∷ [];
  stored = refl;
  chain = (
    record { slots = refl; unique = λ k nz. first-count k },
    λ j nj lt. absurd (omega arith),
    refl,
    omega arith,
    λ j ge. first_below j ge,
    (omega arith, tt),
    omega arith,
    (record { slots = refl; unique = λ k nz. second-count k }, λ j nj lt. second_above j lt, refl),
  );
  placed_head = (omega arith, refl, omega arith);
  placed = ((omega arith, refl, omega arith), tt);
  aligned = refl;
}

-- The tree after a restart: the index is empty.
abbrev restarted : Tree Pairs
restarted = record two_entries { index = [] }

recover-contents_example :
    (t : Tree Pairs) × (recover list_index 28 restarted ≡ some t)
    × (t.index ≡ two_entries.index)
    × ((k : ℕ) → contents list_index t k ≡ contents list_index two_entries k)
    × ((k val : ℕ) → get list_index t k val ≡ get list_index two_entries k val)
recover-contents_example =
    recover-contents list_index two_entries-IsTree (refl, refl) 28 restarted refl refl refl
      (omega arith)

-- For a load of 13 pairs the array has room for one entry, and the list has two.
recover_overflows : recover list_index 13 restarted ≡ none
unfolding recover recover_loop
recover_overflows = refl

-- A scan for no pairs from the key 15 on delivers the whole second entry.
scan_of_none : scan list_index 2 two_entries 15 0 ≡ some (pairs_from 14 20)
unfolding locate scan find_ge scan_start scan_middle scan_end push_until sort_kvs valid_kvs program
scan_of_none = refl

scan_ends_example :
    (r : List Kv) × (scan list_index 2 two_entries 3 20 ≡ some r) × (0 < 20 → length r ≤ 20)
scan_ends_example = scan_ends list_index two_entries-IsTree 1 3 20 (omega arith)

range_scan-contents_example :
    (r : List Kv) × (range_scan list_index 2 two_entries 2 21 ≡ some r)
    × ((j : ℕ) → j ≢ 0 → 2 ≤ j → j ≤ 21 → lookup r j ≡ contents list_index two_entries j)
range_scan-contents_example =
    range_scan-contents list_index two_entries-IsTree 1 2 21 (omega arith) (omega arith)

restart_overwrites_example :
    let first = new_tree list_index false one_tree.heap (new_alloc 4096 65536) in
    let again = new_tree list_index true two_entries.heap (new_alloc 4096 65536) in
    ((split_entry list_index first 4096).heap 4352 ≡ right_half (first.heap 4096))
    × ((split_entry list_index again 4096).heap 4352 ≡ right_half (two_entries.heap 4096))
restart_overwrites_example =
    restart_overwrites list_index one_tree.heap two_entries.heap 4096 65536 4096 4096 refl
      (omega arith) (omega arith)
