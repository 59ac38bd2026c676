-- ===== src/Tree/Load/Bulk.antt =====
-- `BulkLoad` as a whole: what the tree holds afterwards, and when the index stays empty.
use epli.Prelude.{
  ℕ, suc, ◌≤◌, ◌<◌, ◌≡◌, ◌≢◌, refl, arith, List, [], ◌∷◌, some, true, false, ◌∙◌, sym, ap, ◌==◌,
  leb, store_same, length, drop, take, take-append-drop, length-drop,
}
use epli.Entry.{Kv, Entry, kvs_per_entry, zeroed, copy_kvs, set_ordered_kvs}
use epli.Entry.Slots.{lookup, lookup-append}
use epli.Entry.Sort.{Ascending}
use epli.Index.{Index}
use epli.Tree.{Tree, modify}
use epli.Tree.State.{IsTree, contents, contents-view}
use epli.Tree.Load.{Loaded, at_most_full, load_loop, bulk_load}
use epli.Tree.Load.Block.{Filled, copied-Filled, bound_after, bound-ge, drop-Ascending}
use epli.Tree.Load.Loop.{IsSorted-mono, load_loop-Done}

-- The memory after the head entry has been filled.
abbrev filled : {C : Type 0} → Tree C → List Kv → ℕ → Entry
filled t kvs = modify t.heap t.head (λ e. set_ordered_kvs e kvs (at_most_full (length kvs)))

filled-head :
    {C : Type 0} (t : Tree C) (kvs : List Kv)
    → filled t kvs t.head ≡ set_ordered_kvs (t.heap t.head) kvs (at_most_full (length kvs))
unfolding modify
filled-head t kvs =
    store_same t.heap t.head (set_ordered_kvs (t.heap t.head) kvs (at_most_full (length kvs)))

head-Filled :
    {C : Type 0} (t : Tree C) (k w : ℕ) (kvs : List Kv)
    → Ascending 1 ((k, w) ∷ kvs)
    → Filled k ((k, w) ∷ kvs) (filled t ((k, w) ∷ kvs) t.head)
unfolding set_ordered_kvs
head-Filled t k w kvs up =
    copied-Filled k ((k, w) ∷ kvs) (filled t ((k, w) ∷ kvs) t.head) (omega arith)
      (omega arith, up.1) (ap (λ (e : Entry). e.kvs) (filled-head t ((k, w) ∷ kvs)))

module _ (ix : Index) where
  open ix use {Carrier}

  abbrev loaded : Tree Carrier → List Kv → Loaded → Tree Carrier
  loaded t kvs l = record t {
    heap = l.heap;
    nvm = l.nvm;
    index =
        ix.bulk_load (ix.erase t.index 0) (((filled t kvs t.head).min_key, t.head) ∷ l.index_kvs);
  }

  bulk_load_run :
      (t : Tree Carrier) (kvs : List Kv) (l : Loaded)
      → kvs_per_entry < length kvs
      → load_loop (length kvs) (filled t kvs) t.nvm t.head (drop kvs_per_entry kvs) ≡ some l
      → bulk_load ix t kvs ≡ some (loaded t kvs l)
  unfolding bulk_load
  bulk_load_run t kvs l lt run =
      let some_pairs : (length kvs == 0) ≡ false = ground arith in
      let many : leb (length kvs) kvs_per_entry ≡ false = ground arith in
      rw (run, bulk_load) (rw (some_pairs, many))

  module _ {t : Tree Carrier} (v : IsTree ix t 0) (fresh : v.later ≡ []) where
    emptied : ix.pairs (ix.erase t.index 0) ≡ []
    emptied = ix.pairs-erase t.index 0 ∙ rw (v.stored, fresh) refl

    -- `BulkLoad` into a tree of one entry that satisfies the invariant, with at least one pair and no
    -- more than one entry holds: the pairs are in the head entry and the index is empty.
    pub bulk_load_small :
        (kvs : List Kv)
        → 0 < length kvs
        → length kvs ≤ kvs_per_entry
        → (t' : Tree Carrier) × (bulk_load ix t kvs ≡ some t')
          × (ix.pairs t'.index ≡ [])
          × ((t'.heap t.head).kvs ≡ copy_kvs zeroed kvs (length kvs))
    unfolding bulk_load set_ordered_kvs
    bulk_load_small kvs pos le =
        let some_pairs : (length kvs == 0) ≡ false = ground arith in
        let few : leb (length kvs) kvs_per_entry ≡ true = ground arith in
        (
          record t { heap = filled t kvs; index = ix.erase t.index 0 },
          rw (some_pairs, few, bulk_load),
          emptied,
          ap (λ (e : Entry). e.kvs) (filled-head t kvs) ∙ rw few,
        )

    -- `BulkLoad` into a tree of one entry that satisfies the invariant, with more pairs than one entry
    -- holds, sorted by valid and distinct keys, ends; the tree then satisfies the invariant, its smallest
    -- index key is the first key, and it holds exactly these pairs.
    pub bulk_load-lookup :
        (k w : ℕ) (kvs : List Kv)
        → kvs_per_entry ≤ length kvs
        → Ascending 1 ((k, w) ∷ kvs)
        → (t' : Tree Carrier) × (bulk_load ix t ((k, w) ∷ kvs) ≡ some t')
          × IsTree ix t' k
          × ((j : ℕ) → j ≢ 0 → contents ix t' j ≡ lookup ((k, w) ∷ kvs) j)
    unfolding set_ordered_kvs
    bulk_load-lookup k w kvs le up =
        let all = (k, w) ∷ kvs in
        let h = filled t all in
        let head = filled-head t all in
        let old = rw fresh at v.chain in
        let f = head-Filled t k w kvs up in
        let m = bound_after k kvs_per_entry all in
        let (l, run, d) =
          load_loop-Done (length all) h t.nvm t.head k m (drop kvs_per_entry all)
            (omega (arith, length-drop kvs_per_entry all))
            (record {
              valid = f.valid;
              above = f.above;
              below = f.below;
              lo_lt = bound-ge (suc k) 13 kvs up.1;
              last = rw head old.2;
              placed = v.placed_head;
              aligned = v.aligned;
            })
            (drop-Ascending k kvs_per_entry all (omega arith, up.1)) in
        let t' = loaded t all l in
        let v' : IsTree ix t' k = record {
          later = l.index_kvs;
          stored =
              ap
                (λ (e : Entry).
                  ix.pairs (ix.bulk_load (ix.erase t.index 0) ((e.min_key, t.head) ∷ l.index_kvs)))
                head
              ∙ ix.pairs-bulk_load (ix.erase t.index 0) ((k, t.head) ∷ l.index_kvs) emptied (
                omega arith,
                IsSorted-mono m (suc k) l.index_kvs (bound-ge (suc k) 13 kvs up.1) d.sorted,
              );
          chain = d.chain;
          placed_head =
              (omega (arith, v.placed_head.0, d.frontier), v.placed_head.1, v.placed_head.2);
          placed = d.placed;
          aligned = d.aligned;
        } in
        (
          t',
          bulk_load_run t all l (omega arith) run,
          v',
          λ j nj.
              contents-view ix v' j
              ∙ d.reads j nj
              ∙ rw (f.reads j nj) (
                  sym (lookup-append (take kvs_per_entry all) (drop kvs_per_entry all) j)
                  ∙ ap (λ (s : List Kv). lookup s j) (take-append-drop kvs_per_entry all)),
        )
