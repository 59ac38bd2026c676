-- ===== src/Tree/Load.antt =====
-- `BulkLoad` and `Recover` of src/epltree.h, which build the index in one go.
pub mod Block
pub mod Loop
pub mod Bulk
pub mod Recover
use epli.Prelude.{
  ℕ, zero, suc, ◌+◌, ◌*◌, ◌/◌, ◌≡◌, List, [], ◌∷◌, Option, none, some, leb, ltb, ◌==◌,
  if◌then◌else◌, get_or, drop, length, store,
}
use epli.Nvm.{Alloc, alloc_aligned}
use epli.Entry.{Kv, Entry, kvs_per_entry, invalid_key, new_entry_from, set_ordered_kvs}
use epli.Index.{Index, Pairs}
use epli.Tree.{Tree, modify, entry_size}

-- `min(n, size_t(KVS_PER_ENTRY))`
abbrev pub at_most_full : ℕ → ℕ
at_most_full n = if leb n kvs_per_entry then n else kvs_per_entry

-- What the loop of `BulkLoad` leaves: the memory, the allocator, and the pairs that it stored.
pub record Loaded : Type 0 where
  pub heap : ℕ → Entry
  pub nvm : Alloc
  pub index_kvs : Pairs

-- The rounds of the loop for the pairs that are left, `bulk_kvs + i * KVS_PER_ENTRY`: a new entry
-- behind `cur` takes the next pairs. `none` means that the fuel ran out.
unfoldable pub load_loop : (fuel : ℕ) → (ℕ → Entry) → Alloc → (cur : ℕ) → List Kv → Option Loaded
load_loop zero h nvm cur rest = none
load_loop (suc fuel) h nvm cur [] = some (record { heap = h; nvm = nvm; index_kvs = [] })
load_loop (suc fuel) h nvm cur ((k, v) ∷ rest) =
    let r = alloc_aligned entry_size 256 nvm in
    let h1 =
      store h r.0 (new_entry_from k ((k, v) ∷ rest) (at_most_full (length ((k, v) ∷ rest)))) in
    let h2 = modify h1 cur (λ e. record e { next = r.0 }) in
    elim (load_loop fuel h2 r.1 r.0 (drop kvs_per_entry ((k, v) ∷ rest))) [
      | none ↦ none
      | some l ↦ some (record l { index_kvs = (k, r.0) ∷ l.index_kvs })
    ]

-- The loop of `Recover`: the pairs of the entries from `cur` on. `room` is what is left of the array
-- `index_kvs`; a store behind its end is a fault.
unfoldable pub recover_loop : (room : ℕ) → (ℕ → Entry) → (cur : ℕ) → Option Pairs
recover_loop zero h cur = if cur == 0 then some [] else none
recover_loop (suc room) h cur =
    let rest = recover_loop room h (h cur).next in
    if cur == 0
    then some []
    else elim rest [ none ↦ none | some c ↦ some (((h cur).min_key, cur) ∷ c) ]

module _ (ix : Index) where
  open ix use {Carrier}

  -- `BulkLoad(bulk_kvs, num_keys)`. With no more pairs than one entry holds it returns before the
  -- index is loaded.
  unfoldable pub bulk_load : Tree Carrier → List Kv → Option (Tree Carrier)
  bulk_load t kvs =
      let n = length kvs in
      let h = modify t.heap t.head (λ e. set_ordered_kvs e kvs (at_most_full n)) in
      let i = ix.erase t.index invalid_key in
      if n == 0
      then some t
      else if leb n kvs_per_entry
      then some (record t { heap = h; index = i })
      else elim (load_loop n h t.nvm t.head (drop kvs_per_entry kvs)) [
        | none ↦ none
        | some l ↦ some (record t {
          heap = l.heap;
          nvm = l.nvm;
          index = ix.bulk_load i (((h t.head).min_key, t.head) ∷ l.index_kvs);
        })
      ]

  -- `Recover(load_size)`
  unfoldable pub recover : (load_size : ℕ) → Tree Carrier → Option (Tree Carrier)
  recover load_size t = elim (recover_loop (load_size / kvs_per_entry + 1) t.heap t.head) [
    | none ↦ none
    | some c ↦ some (record t { index = ix.bulk_load t.index c })
  ]
