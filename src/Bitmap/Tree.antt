-- ===== src/Bitmap/Tree.antt =====
-- `EPLTree` in the builds with USE_BITMAP and USE_FGPT: src/epltree.h. The index names a `MetaData`, which
-- names the entry. `new` is not modelled: the addresses that it returns are arguments.
use epli.Prelude.{
  ℕ, zero, suc, ◌+◌, ◌-◌, ◌/◌, ◌%◌, ◌^◌, List, [], ◌∷◌, Option, none, some, Bool, leb, ◌==◌, ◌&&◌,
  if◌then◌else◌, drop, length, store,
}
use epli.Nvm.{Alloc, alloc_aligned}
use epli.Entry
use epli.Entry.{
  Kv, Entry, Status, ok, fail, overflow, kvs_per_entry, invalid_key, sort_kvs, new_entry,
  new_entry_from, set_ordered_kvs, set_key, set_val, maybe_put,
}
use epli.Index.{Index, Pairs}
use epli.Tree.{entry_size, half, modify, pivot_key, split_heap}
use epli.Tree.Load.{at_most_full}
use epli.Bitmap.{
  MetaData, new_meta, set_bitmap, find_first_zero, half_bitmap, reset_n_bitmap, hashcode1b,
  set_n_fgpt, set_fgpt, pointer,
}

-- `metas` is the volatile memory of `MetaData`.
pub record BitmapTree (Carrier : Type 0) : Type 0 where
  pub heap : ℕ → Entry
  pub metas : ℕ → MetaData
  pub nvm : Alloc
  pub head : ℕ
  pub base_addr : ℕ
  pub index : Carrier

-- `PutAtPos(key, val, pos)`
unfoldable pub put_at_pos : Entry → (key val pos : ℕ) → Entry
unfolding set_key set_val
put_at_pos e k v pos = record e { kvs = set_key (set_val e.kvs pos v) pos k }

-- The mask of `Get`, its lowest bit first: the fingerprint of a position is the one of the key, and its
-- bit is set. The vector instructions compare all bytes at once.
unfoldable pub candidates : (key_hash : ℕ) → (fgpt : List ℕ) → (bitmap : ℕ) → List Bool
candidates hash [] b = []
candidates hash (f ∷ fs) b = ((f == hash) && (b % 2 == 1)) ∷ candidates hash fs (b / 2)

-- The loop over the mask, from its lowest bit on.
unfoldable pub search_mask : (mask : List Bool) → List Kv → (key : ℕ) → Option ℕ
search_mask [] s k = none
search_mask (c ∷ cs) [] k = none
search_mask (c ∷ cs) ((j, w) ∷ s) k =
    let rest = search_mask cs s k in if c && (j == k) then some w else rest

-- What `Get` finds in an entry by its `MetaData`.
unfoldable pub find_by_mask : MetaData → Entry → (key : ℕ) → Option ℕ
find_by_mask m e k = search_mask (candidates (hashcode1b k) m.fgpt m.bitmap) e.kvs k

-- The `MetaData` that `BulkLoad` makes for an entry with `n` pairs.
unfoldable pub bulk_meta : (base entry n : ℕ) → MetaData
bulk_meta base a n = let m = new_meta base a in record m { bitmap = reset_n_bitmap n m.bitmap }

-- The two changes of `splitEntry` to `MetaData`: of the new entry and of the old one.
unfoldable pub right_meta : (base n : ℕ) → (tmp_kvs : List Kv) → MetaData
right_meta base n tmp =
    let m = new_meta base n in
    record m {
      bitmap = half_bitmap;
      fgpt = set_n_fgpt m.fgpt (drop half tmp) 0 ((kvs_per_entry + 1) / 2);
    }

unfoldable pub left_meta : MetaData → (tmp_kvs : List Kv) → MetaData
left_meta m tmp = record m { bitmap = half_bitmap; fgpt = set_n_fgpt m.fgpt tmp 0 half }

module _ (ix : Index) where
  open ix use {Carrier}

  -- The constructor, on a given memory; `m` is the address of the first `MetaData`.
  unfoldable pub new_bitmap_tree :
      (recover : Bool) → (ℕ → Entry) → (ℕ → MetaData) → Alloc → (m : ℕ) → BitmapTree Carrier
  new_bitmap_tree recover h metas nvm m =
      let r = alloc_aligned entry_size 256 nvm in
      record {
        heap = if recover then h else store h r.0 (new_entry invalid_key);
        metas = store metas m (new_meta nvm.pmem_addr r.0);
        nvm = r.1;
        head = r.0;
        base_addr = nvm.pmem_addr;
        index = ix.insert ix.empty invalid_key m;
      }

  unfoldable pub locate_meta : BitmapTree Carrier → (key : ℕ) → ℕ
  locate_meta t k = ix.get_payload_last_no_greater_than t.index k

  abbrev pub entry_of : BitmapTree Carrier → (meta : ℕ) → ℕ
  entry_of t m = pointer t.base_addr (t.metas m).entry_pointer

  -- `Get(key, val)`
  unfoldable pub get : BitmapTree Carrier → (key : ℕ) → Status × ℕ
  get t k =
      let m = locate_meta t k in
      elim (find_by_mask (t.metas m) (t.heap (entry_of t m)) k) [
        | some w ↦ (ok, w)
        | none ↦ (fail, 0)
      ]

  -- `splitEntry(data)`; `n` is the address of the new `MetaData`.
  unfoldable pub split_entry : BitmapTree Carrier → (meta n : ℕ) → BitmapTree Carrier
  split_entry t m n =
      let a = entry_of t m in
      let r = alloc_aligned entry_size 256 t.nvm in
      let tmp = sort_kvs (t.heap a).kvs in
      let metas₁ = store t.metas n (right_meta t.base_addr r.0 tmp) in
      record t {
        heap = split_heap t.heap a r.0;
        metas = store metas₁ m (left_meta (metas₁ m) tmp);
        nvm = r.1;
        index = ix.insert t.index (pivot_key (t.heap a)) n;
      }

  -- The `MetaData` that takes a new key.
  unfoldable pub locate_insert : BitmapTree Carrier → (key : ℕ) → ℕ
  locate_insert t k =
      let m = locate_meta t k in
      if entry_of t m == 0 then locate_meta t ((k + 2 ^ 64 - 1) % 2 ^ 64) else m

  -- The end of `Insert` after a split: the bitmap and the fingerprints are not touched.
  unfoldable pub put_after_split :
      BitmapTree Carrier → (entry key val : ℕ) → BitmapTree Carrier × Status
  put_after_split t a k v =
      let b = (t.heap a).next in
      let c = if leb (t.heap b).min_key k then b else a in
      let r = maybe_put (t.heap c) k v in (record t { heap = store t.heap c r.0 }, r.1)

  -- `Insert(key, val)`; `n` is the address that `new` returns if there is a split.
  unfoldable pub insert : (n : ℕ) → BitmapTree Carrier → (key val : ℕ) → BitmapTree Carrier × Status
  insert n t k v =
      let m = locate_insert t k in
      let a = entry_of t m in
      let pos = find_first_zero (t.metas m).bitmap in
      let d = t.metas m in
      if leb kvs_per_entry pos then put_after_split (split_entry t m n) a k v else (
        record t {
          heap = modify t.heap a (λ e. put_at_pos e k v pos);
          metas = store t.metas m (record d {
            bitmap = set_bitmap d.bitmap pos;
            fgpt = set_fgpt d.fgpt pos (hashcode1b k);
          });
        },
        ok,
      )

  -- `Update(key, val)` and `Remove(key)`, which leave the `MetaData` alone.
  unfoldable pub update : BitmapTree Carrier → (key val : ℕ) → BitmapTree Carrier × Status
  update t k v =
      let a = entry_of t (locate_meta t k) in
      let r = Entry.update (t.heap a) k v in (record t { heap = store t.heap a r.0 }, r.1)

  unfoldable pub remove : BitmapTree Carrier → (key : ℕ) → BitmapTree Carrier × Status
  remove t k =
      let a = entry_of t (locate_meta t k) in
      let r = Entry.remove (t.heap a) k in (record t { heap = store t.heap a r.0 }, r.1)

-- What the loop of `BulkLoad` leaves.
pub record BitmapLoaded : Type 0 where
  pub heap : ℕ → Entry
  pub metas : ℕ → MetaData
  pub nvm : Alloc
  pub index_kvs : Pairs

-- The rounds of the loop for the pairs that are left. `none` means that the fuel or the list of addresses
-- that `new` returns ran out.
unfoldable pub load_loop :
    (fuel base : ℕ)
    → (news : List ℕ) → (ℕ → Entry)
    → (ℕ → MetaData)
    → Alloc
    → (cur : ℕ) → List Kv
    → Option BitmapLoaded
load_loop zero base news h metas nvm cur rest = none
load_loop (suc fuel) base news h metas nvm cur [] =
    some (record { heap = h; metas = metas; nvm = nvm; index_kvs = [] })
load_loop (suc fuel) base [] h metas nvm cur ((k, v) ∷ rest) = none
load_loop (suc fuel) base (m ∷ news) h metas nvm cur ((k, v) ∷ rest) =
    let r = alloc_aligned entry_size 256 nvm in
    let n = at_most_full (length ((k, v) ∷ rest)) in
    let h1 = store h r.0 (new_entry_from k ((k, v) ∷ rest) n) in
    let h2 = modify h1 cur (λ e. record e { next = r.0 }) in
    let metas1 = store metas m (bulk_meta base r.0 n) in
    elim (load_loop fuel base news h2 metas1 r.1 r.0 (drop kvs_per_entry ((k, v) ∷ rest))) [
      | none ↦ none
      | some l ↦ some (record l { index_kvs = (k, m) ∷ l.index_kvs })
    ]

-- The loop of `Recover`: a new `MetaData` for each entry of the list. `room` is what is left of the
-- array `index_kvs`; a store behind its end is a fault.
unfoldable pub recover_loop :
    (room base : ℕ)
    → (news : List ℕ) → (ℕ → Entry)
    → (ℕ → MetaData)
    → (cur : ℕ) → Option ((ℕ → MetaData) × Pairs)
recover_loop zero base news h metas cur = if cur == 0 then some (metas, []) else none
recover_loop (suc room) base [] h metas cur = if cur == 0 then some (metas, []) else none
recover_loop (suc room) base (m ∷ news) h metas cur =
    let rest = recover_loop room base news h (store metas m (new_meta base cur)) (h cur).next in
    if cur == 0
    then some (metas, [])
    else elim rest [ none ↦ none | some (ms, c) ↦ some (ms, ((h cur).min_key, m) ∷ c) ]

module _ (ix : Index) where
  open ix use {Carrier}

  -- `BulkLoad(bulk_kvs, num_keys)`; `m` and `news` are the addresses that `new` returns.
  unfoldable pub bulk_load :
      (m : ℕ) → (news : List ℕ) → BitmapTree Carrier → List Kv → Option (BitmapTree Carrier)
  bulk_load m news t kvs =
      let n = length kvs in
      let h = modify t.heap t.head (λ e. set_ordered_kvs e kvs (at_most_full n)) in
      let metas = store t.metas m (bulk_meta t.base_addr t.head (at_most_full n)) in
      let i = ix.erase t.index invalid_key in
      if n == 0
      then some t
      else if leb n kvs_per_entry
      then some (record t { heap = h; metas = metas; index = i })
      else elim (load_loop n t.base_addr news h metas t.nvm t.head (drop kvs_per_entry kvs)) [
        | none ↦ none
        | some l ↦ some (record t {
          heap = l.heap;
          metas = l.metas;
          nvm = l.nvm;
          index = ix.bulk_load i (((h t.head).min_key, m) ∷ l.index_kvs);
        })
      ]

  -- `Recover(load_size)`
  unfoldable pub recover :
      (load_size : ℕ) → (news : List ℕ) → BitmapTree Carrier → Option (BitmapTree Carrier)
  recover load_size news t =
      elim (recover_loop (load_size / kvs_per_entry + 1) t.base_addr news t.heap t.metas t.head) [
        | none ↦ none
        | some (ms, c) ↦ some (record t { metas = ms; index = ix.bulk_load t.index c })
      ]
