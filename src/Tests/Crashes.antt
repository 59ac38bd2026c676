-- ===== src/Tests/Crashes.antt =====
-- The theorems on a stop in the middle of a split, applied to a full entry that takes the key 20.
use epli.Prelude.{◌≡◌, ◌≢◌, refl, arith, none}
use epli.Entry.{sort_kvs}
use epli.Nvm.{alloc_aligned}
use epli.Tree.State.{contents, scan_list}
use epli.Tree.Crash.{split_until}
use epli.Tree.Crash.Keep.{split_until-contents}
use epli.Tree.Crash.Lost.{split_until_loses}
use epli.Tests.{list_index, full_tree, full_tree-IsTree}

split_until-contents_example :
    scan_list 2 (split_until full_tree.heap 4096 4352 4) full_tree.head 9
    ≡ contents list_index full_tree 9
unfolding alloc_aligned
split_until-contents_example =
    split_until-contents list_index full_tree-IsTree 20 refl 4 2 9 (omega arith) (omega arith)
      (omega arith)

-- One pair of seven is stored; the key in third place is 3.
split_until_loses_example :
    (contents list_index full_tree 3 ≢ none)
    × (scan_list 2 (split_until full_tree.heap 4096 4352 6) full_tree.head 3 ≡ none)
unfolding sort_kvs alloc_aligned
split_until_loses_example =
    split_until_loses list_index full_tree-IsTree 20 refl 6 2 2 (omega arith) (omega arith)
      (omega arith) (omega arith)
