-- ===== src/Tests/Interface.antt =====
-- The theorems on the interface, applied to concrete states.
use epli.Prelude.{ℕ, ◌≡◌, ◌≢◌, ◌⊎◌, refl, arith, List, [], ◌∷◌, none, some, true, false}
use epli.Index.{Pairs}
use epli.Tests.Tables.{zero_memory}
use epli.Clht.Chain.{or_zero}
use epli.Clht.Table.{ht_lookup}
use epli.Tree.{Tree}
use epli.Tree.State.{contents, scan_list}
use epli.Epli.{Op, run}
use epli.Epli
use epli.Epli.Spec.{Map, spec_apply, spec_run, IsAllowed, AreAllowed}
use epli.Epli.Refines.{Represents, run-Refines}
use epli.Epli.Cached
use epli.Epli.Cached.{Cached}
use epli.Epli.Cached.Coherent.{IsCoherent, update_stale}
use epli.Epli.Cached.Sampled.{get-IsCoherent}
use epli.Epli.Cached.Session
use epli.Epli.Cached.Close.{AreAbsent, reads, reads_close}
use epli.Epli.Cached.Session.{IsServed, AreServed, cached_run-Refines}
use epli.Tests.{list_index, one_tree, one_tree-IsTree}
use epli.Tests.Tables.{small, small-hash, small-IsTable}

abbrev one_map : Map
one_map j = contents list_index one_tree j

one_map-Represents : Represents list_index one_tree 0 one_map
one_map-Represents = record { tree = one_tree-IsTree; reads = λ j nj. refl }

abbrev session : List Op
session =
    Epli.put 6 60 ∷ Epli.get 6 ∷ Epli.update 6 61 ∷ Epli.get 6 ∷ Epli.remove 5 ∷ Epli.get 5 ∷ []

session-Allowed : AreAllowed 0 one_map session
unfolding AreAllowed IsAllowed contents scan_list
session-Allowed = (
  (omega arith, omega arith, refl),
  (omega arith, (omega arith, (omega arith, (omega arith, (omega arith, tt))))),
)

run-Refines_example :
    (t : Tree Pairs) × (run list_index session one_tree ≡ some (t, (spec_run session one_map).1))
    × Represents list_index t 0 (spec_run session one_map).0
run-Refines_example = run-Refines list_index session one_map-Represents session-Allowed

session_prints : (spec_run session one_map).1 ≡ 60 ∷ 61 ∷ 0 ∷ []
unfolding spec_run spec_apply contents scan_list
session_prints = refl

-- The table holds the key 5 with the value of the tree, and the key 7, which the tree does not hold,
-- with the value 0.
abbrev cached : Cached Pairs
cached = record {
  tree = one_tree;
  table = record { hashtable = small; lt = 12 };
  table_on = true;
  hit_cnt = 3;
  tot_get = 7;
}

cached-agree :
    (j w : ℕ)
    → j ≢ 0
    → ht_lookup small j ≡ some w
    → (w ≡ 0) ⊎ (contents list_index one_tree j ≡ some w)
unfolding ht_lookup contents scan_list
cached-agree j w nj h = let h' = rw (small-hash j) at h in ground arith

cached-IsCoherent : IsCoherent list_index cached 0
cached-IsCoherent = record {
  tree = one_tree-IsTree;
  table = small-IsTable;
  sized = ((0, refl), omega arith);
  agree = cached-agree;
}

update_stale_example :
    (c' : Cached Pairs) × (Cached.get list_index 9 zero_memory
        (Cached.update list_index cached 7 70)
        7
      ≡ some (c', 70))
    × (contents list_index c'.tree 7 ≡ none)
unfolding ht_lookup contents scan_list
update_stale_example =
    update_stale list_index cached-IsCoherent 9 zero_memory 7 0 70 (omega arith) (omega arith) refl
      (rw (small-hash 7)) refl

-- The next read puts its pair into the table.
abbrev sampling : Cached Pairs
sampling = record cached { tot_get = 20 }

sampling-IsCoherent : IsCoherent list_index sampling 0
sampling-IsCoherent = record {
  tree = one_tree-IsTree;
  table = small-IsTable;
  sized = ((0, refl), omega arith);
  agree = cached-agree;
}

get-IsCoherent_example :
    (c' : Cached Pairs) × (Cached.get list_index 0 zero_memory sampling 7
      ≡ some (c', or_zero (contents list_index one_tree 7)))
    × IsCoherent list_index c' 0
    × (c'.tree ≡ one_tree)
get-IsCoherent_example =
    get-IsCoherent list_index sampling-IsCoherent 0 zero_memory 7 (λ t. refl) (omega arith)

session-Served : AreServed 0 one_map session
unfolding AreServed IsServed IsAllowed contents scan_list spec_apply
session-Served = (
  (omega arith, omega arith, refl),
  (omega arith, ((omega arith, λ q. cc), (omega arith, (omega arith, (omega arith, tt))))),
)

cached_run-Refines_example :
    (c' : Cached Pairs) × (Session.run list_index 0 zero_memory session sampling
      ≡ some (c', (spec_run session one_map).1))
    × (run list_index session one_tree ≡ some (c'.tree, (spec_run session one_map).1))
    × IsCoherent list_index c' 0
    × Represents list_index c'.tree 0 (spec_run session one_map).0
cached_run-Refines_example =
    cached_run-Refines list_index 0 zero_memory session (λ t. refl) sampling-IsCoherent
      one_map-Represents session-Served

-- One hit in 499 reads: two more misses close the table.
abbrev rarely_hit : Cached Pairs
rarely_hit = record cached { hit_cnt = 1; tot_get = 499 }

rarely_hit-IsCoherent : IsCoherent list_index rarely_hit 0
rarely_hit-IsCoherent = record {
  tree = one_tree-IsTree;
  table = small-IsTable;
  sized = ((0, refl), omega arith);
  agree = cached-agree;
}

two_absent : AreAbsent list_index one_tree (8 ∷ 9 ∷ [])
unfolding AreAbsent contents scan_list
two_absent = (omega arith, refl, (omega arith, refl, tt))

reads_close_example :
    (c' : Cached Pairs) × (Session.run list_index 0 zero_memory (reads (8 ∷ 9 ∷ [])) rarely_hit
      ≡ some (c', 0 ∷ 0 ∷ []))
    × (c'.table_on ≡ false)
    × (c'.tree ≡ one_tree)
reads_close_example =
    reads_close list_index 0 zero_memory (λ t. refl) (8 ∷ 9 ∷ []) rarely_hit-IsCoherent two_absent
      (omega arith) (omega arith) (omega arith) (omega arith)
