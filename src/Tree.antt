-- ===== src/Tree.antt =====
-- `EPLTree` and `DataList`: src/epltree.h and src/datalist.h, in the default configuration
-- (USE_BITMAP is off). The entries stand in a memory of their own, by address; a pointer is an
-- address and NULL is 0. One thread at a time calls the tree.
pub mod Chain
pub mod Cut
pub mod Split
pub mod State
pub mod New
pub mod Methods
pub mod Insert
pub mod Scan
pub mod Load
pub mod Free
pub mod Restart
pub mod Durable
pub mod Crash
use epli.Prelude.{
  ℕ, zero, suc, ◌+◌, ◌-◌, ◌*◌, ◌/◌, ◌%◌, ◌^◌, ◌≡◌, ◌≢◌, List, [], ◌∷◌, Option, none, some, Bool,
  true, false, ltb, leb, ◌==◌, if◌then◌else◌, get_or, drop, store,
}
use epli.Nvm.{Alloc, alloc_aligned}
use epli.Entry
use epli.Entry.{
  Kv, Entry, Status, ok, fail, overflow, kvs_per_entry, invalid_key, sort_kvs, new_entry,
  new_entry_from, set_flag, set_ordered_kvs, maybe_put,
}
use epli.Index.{Index}

-- `head` is the field of `DataList`, and `nvm` is `NVM::data_alloc`.
pub record Tree (Carrier : Type 0) : Type 0 where
  pub heap : ℕ → Entry
  pub nvm : Alloc
  pub head : ℕ
  pub index : Carrier

-- sizeof(Entry), and the default alignment of `alloc_aligned`.
abbrev pub entry_size : ℕ
entry_size = 256

-- A write through a pointer.
unfoldable pub modify : (ℕ → Entry) → ℕ → (Entry → Entry) → ℕ → Entry
unfolding store
modify h a f = store h a (f (h a))

-- `KVS_PER_ENTRY / 2`
abbrev pub half : ℕ
half = kvs_per_entry / 2

-- `tmp_kvs[KVS_PER_ENTRY / 2].first`, the `new_min_key` of a split.
abbrev pub pivot_key : Entry → ℕ
pivot_key e = (get_or (sort_kvs e.kvs) half (0, 0)).0

-- The stores of `splitEntry`, in the order of the source; `n` is the new entry. The array `tmp_kvs` is a
-- sorted copy of `entry->kvs`.
unfoldable pub split_heap : (ℕ → Entry) → (entry n : ℕ) → ℕ → Entry
unfolding modify store
split_heap h a n =
    let tmp_kvs = sort_kvs (h a).kvs in
    let h1 =
      store h n (new_entry_from (pivot_key (h a)) (drop half tmp_kvs) ((kvs_per_entry + 1) / 2)) in
    let h2 = modify h1 a (λ e. set_flag e 1) in
    let h3 = modify h2 n (λ e. record e { next = (h2 a).next }) in
    let h4 = modify h3 a (λ e. record e { next = n }) in
    let h5 = modify h4 a (λ e. set_ordered_kvs e tmp_kvs half) in modify h5 a (λ e. set_flag e 0)

module _ (ix : Index) where
  open ix use {Carrier}

  -- `DataList::Init(recover)` and the constructor of `EPLTree`, on a given memory.
  unfoldable pub new_tree : (recover : Bool) → (ℕ → Entry) → Alloc → Tree Carrier
  new_tree recover h nvm =
      let r = alloc_aligned entry_size 256 nvm in
      if recover then record { heap = h; nvm = r.1; head = r.0; index = ix.empty } else record {
        heap = store h r.0 (new_entry invalid_key);
        nvm = r.1;
        head = r.0;
        index = ix.insert ix.empty invalid_key r.0;
      }

  -- The entry that the index names for a key.
  unfoldable pub locate : Tree Carrier → (key : ℕ) → ℕ
  locate t k = ix.get_payload_last_no_greater_than t.index k

  -- `Get(key, val)`: the status and what `val` holds afterwards, 0 on failure.
  unfoldable pub get : Tree Carrier → (key val : ℕ) → Status × ℕ
  get t k v = let r = Entry.get (t.heap (locate t k)) k v in elim r.0 [ ok ↦ r | _ ↦ (fail, 0) ]

  -- `splitEntry(entry)`
  unfoldable pub split_entry : Tree Carrier → (entry : ℕ) → Tree Carrier
  split_entry t a =
      let r = alloc_aligned entry_size 256 t.nvm in
      record t {
        heap = split_heap t.heap a r.0;
        nvm = r.1;
        index = ix.insert t.index (pivot_key (t.heap a)) r.0;
      }

  -- The entry that takes a new key; behind the greatest key the index may answer NULL.
  unfoldable pub locate_insert : Tree Carrier → (key : ℕ) → ℕ
  locate_insert t k = if locate t k == 0 then locate t ((k + 2 ^ 64 - 1) % 2 ^ 64) else locate t k

  -- `Insert(key, val)`, which calls itself after a split; `none` means that the fuel ran out.
  unfoldable pub insert : (fuel : ℕ) → Tree Carrier → (key val : ℕ) → Option (Tree Carrier × Status)
  insert zero t k v = none
  insert (suc fuel) t k v =
      let a = locate_insert t k in
      let r = maybe_put (t.heap a) k v in
      let again = insert fuel (split_entry t a) k v in
      elim r.1 [ overflow ↦ again | s ↦ some (record t { heap = store t.heap a r.0 }, s) ]

  -- `Update(key, val)`
  unfoldable pub update : Tree Carrier → (key val : ℕ) → Tree Carrier × Status
  update t k v =
      let a = locate t k in
      let r = Entry.update (t.heap a) k v in (record t { heap = store t.heap a r.0 }, r.1)

  -- `Remove(key)`
  unfoldable pub remove : Tree Carrier → (key : ℕ) → Tree Carrier × Status
  remove t k =
      let a = locate t k in
      let r = Entry.remove (t.heap a) k in (record t { heap = store t.heap a r.0 }, r.1)
