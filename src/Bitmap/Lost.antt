-- ===== src/Bitmap/Lost.antt =====
-- `Insert` after a split: `MaybePut` stores the pair, and the bitmap beside the entry does not tell.
use epli.Prelude.{
  ℕ, zero, suc, ◌/◌, ◌%◌, ◌^◌, ◌≤◌, ◌<◌, ◌≡◌, ◌≢◌, refl, arith, List, [], ◌∷◌, none, some, true,
  false, ◌∙◌, sym, ◌==◌, leb, length, store, store_same, replicate,
}
use epli.Entry.{
  Kv, Entry, ok, kvs_per_entry, find_key, set_key, set_val, maybe_put, copy_kvs, zeroed, sort_kvs,
  set_flag, set_ordered_kvs,
}
use epli.Entry.Slots.{lookup, count, lookup-put}
use epli.Entry.Copy.{lookup-copy_zeroed, length-copy_kvs}
use epli.Entry.Sort.{lookup-sort, count-sort, length-sort}
use epli.Entry.Methods.{IsValid}
use epli.Index.{Index}
use epli.Nvm.{alloc_aligned}
use epli.Tree.{entry_size, half, pivot_key}
use epli.Tree.Split.{left_half, right_half, split_heap-eq}
use epli.Tree.Load.Block.{lookup-take-none}
use epli.Bitmap.{MetaData, hashcode1b, find_first_zero, half_bitmap}
use epli.Bitmap.Tree.{
  BitmapTree, candidates, search_mask, find_by_mask, left_meta, entry_of, locate_insert, insert,
  right_meta, put_after_split, split_entry,
}
use epli.Entry.At.{key_at}
use epli.Bitmap.Agree.{key_at-put}

-- Positions whose bits are 0 are not searched.
mask_below :
    (w hash k : ℕ) (fs : List ℕ) (b : ℕ) (s : List Kv)
    → b < 2 ^ w
    → ((j : ℕ) → j < w → j < length s → key_at s j ≢ k)
    → search_mask (candidates hash fs b) s k ≡ none
unfolding search_mask candidates
mask_below w hash k [] b s lt ne = refl
mask_below w hash k (f ∷ fs) b [] lt ne = refl
mask_below zero hash k (f ∷ fs) b ((j, v) ∷ s) lt ne =
    let z : b % 2 ≡ 0 = omega arith in
    ground (arith, mask_below zero hash k fs (b / 2) s (omega arith) (λ i l. absurd (omega arith)))
mask_below (suc w) hash k (f ∷ fs) b ((j, v) ∷ s) lt ne = ground (
  arith,
  ne zero (omega arith) (omega arith),
  mask_below w hash k fs (b / 2) s (omega arith) (λ i l m. ne (suc i) (omega arith) (omega arith)),
)

-- The first empty slot behind copied pairs.
find_key-copied :
    (m n : ℕ) (s : List Kv)
    → n < m
    → n ≤ length s
    → count 0 s ≡ 0
    → find_key (copy_kvs (replicate m (0, 0)) s n) 0 ≡ some n
unfolding find_key copy_kvs
find_key-copied zero n s lt le full = absurd (omega arith)
find_key-copied (suc m) zero s lt le full = refl
find_key-copied (suc m) (suc n) [] lt le full = absurd (omega arith)
find_key-copied (suc m) (suc n) ((k, v) ∷ s) lt le full = ground (arith, find_key-copied m n s)

key_at-copied :
    (m n j : ℕ) (s : List Kv)
    → n ≤ m
    → n ≤ length s
    → j < n
    → key_at (copy_kvs (replicate m (0, 0)) s n) j ≡ key_at s j
unfolding copy_kvs
key_at-copied m zero j s lt le l = absurd (omega arith)
key_at-copied zero (suc n) j s lt le l = absurd (omega arith)
key_at-copied (suc m) (suc n) j [] lt le l = absurd (omega arith)
key_at-copied (suc m) (suc n) zero ((k, v) ∷ s) lt le l = refl
key_at-copied (suc m) (suc n) (suc j) ((k, v) ∷ s) lt le l =
    key_at-copied m n j s (omega arith) (omega arith) (omega arith)

absent_key : (s : List Kv) (k j : ℕ) → lookup s k ≡ none → j < length s → key_at s j ≢ k
absent_key [] k j h lt = absurd (omega arith)
absent_key ((i, v) ∷ s) k zero h lt = ground arith
absent_key ((i, v) ∷ s) k (suc j) h lt = absent_key s k j (ground arith) (omega arith)

-- An entry with half of its slots filled, before and after the key is put behind them.
module _ (e : Entry) (s : List Kv) (k v : ℕ) (kvs : e.kvs ≡ copy_kvs zeroed s half)
    (long : half ≤ length s) (full : count 0 s ≡ 0) (nk : k ≢ 0) (absent : lookup s k ≡ none) where
  abbrev behind : Entry
  behind = record e { kvs = set_key (set_val e.kvs half v) half k }

  slot : find_key e.kvs 0 ≡ some half
  slot = rw kvs (find_key-copied kvs_per_entry half s (omega arith) long full)

  put_behind : maybe_put e k v ≡ (behind, ok)
  unfolding maybe_put
  put_behind = rw (slot, maybe_put)

  behind_there : lookup behind.kvs k ≡ some v
  behind_there =
      let gone : lookup e.kvs k ≡ none =
        rw kvs
          (lookup-copy_zeroed s half (omega arith) long k nk ∙ lookup-take-none half k s absent) in
      lookup-put k k v e.kvs half slot nk nk gone ∙ ground arith

  behind_unfound :
      (hash : ℕ) (fs : List ℕ) → search_mask (candidates hash fs half_bitmap) behind.kvs k ≡ none
  behind_unfound hash fs =
      let len : length e.kvs ≡ kvs_per_entry = rw kvs (length-copy_kvs zeroed s half) in
      mask_below half hash k fs half_bitmap behind.kvs (omega arith) (λ j lt l.
        let at = key_at-put e.kvs half j k v (omega (arith, len)) in
        let low : (j == half) ≡ false = ground arith in
        let old = rw low at at in
        let copied : key_at e.kvs j ≡ key_at s j =
          rw kvs (key_at-copied kvs_per_entry half j s (omega arith) long lt) in
        λ q. absent_key s k j absent (omega arith) (sym copied ∙ (sym old ∙ q)))

  left_unfound : (d : MetaData) → find_by_mask (left_meta d s) behind k ≡ none
  unfolding find_by_mask left_meta
  left_unfound d = behind_unfound (hashcode1b k) (left_meta d s).fgpt

left_below :
    (h : ℕ → Entry) (e : Entry) (a r k : ℕ)
    → r ≢ a
    → k < pivot_key e
    → leb (store (store h r (right_half e)) a (left_half e r) (left_half e r).next).min_key k
      ≡ false
unfolding left_half right_half store
left_below h e a r k ne lt = ground arith

-- The end of `Insert` where the key is below the new entry behind `a`.
module _ (ix : Index) (t : BitmapTree ix.Carrier) (a k v : ℕ) where
  put_left :
      (e : Entry)
      → t.heap a ≡ e
      → leb (t.heap e.next).min_key k ≡ false
      → put_after_split ix t a k v
        ≡ (record t { heap = store t.heap a (maybe_put e k v).0 }, (maybe_put e k v).1)
  unfolding put_after_split
  put_left e at below =
      let below' : leb (t.heap (t.heap a).next).min_key k ≡ false = rw at below in rw (below', at)

module _ (ix : Index) where
  open ix use {Carrier}

  -- `Insert` of an absent valid key into a valid entry whose 14 slots and 14 bits are used, where the key is
  -- smaller than the middle key: it answers STATUS_OK and the entry holds the pair, but the search by
  -- the entry's `MetaData` does not find the key. `n` and the new block are fresh addresses.
  pub insert_split_unfound :
      (n : ℕ) (t : BitmapTree Carrier) (k v : ℕ)
      → let m = locate_insert ix t k in
        let a = entry_of ix t m in
        IsValid (t.heap a)
        → count 0 (t.heap a).kvs ≡ 0
        → kvs_per_entry ≤ find_first_zero (t.metas m).bitmap
        → k ≢ 0
        → k < pivot_key (t.heap a)
        → lookup (t.heap a).kvs k ≡ none
        → n ≢ m
        → (alloc_aligned entry_size 256 t.nvm).0 ≢ a
        → (t' : BitmapTree Carrier) × (insert ix n t k v ≡ (t', ok))
          × (lookup (t'.heap a).kvs k ≡ some v)
          × (find_by_mask (t'.metas m) (t'.heap a) k ≡ none)
  unfolding insert put_after_split split_entry find_by_mask
  insert_split_unfound n t k v valid full set_bits nk low absent new_meta new_entry =
      let m = locate_insert ix t k in
      let a = entry_of ix t m in
      let e = t.heap a in
      let r = (alloc_aligned entry_size 256 t.nvm).0 in
      let s = sort_kvs e.kvs in
      let left = left_half e r in
      let split = split_heap-eq t.heap a r new_entry in
      let kvs : left.kvs ≡ copy_kvs zeroed s half =
        unfold left_half set_flag set_ordered_kvs in refl in
      let len : half ≤ length s = omega (arith, length-sort e.kvs, valid.slots) in
      let full' : count 0 s ≡ 0 = count-sort e.kvs 0 ∙ full in
      let absent' : lookup s k ≡ none = lookup-sort e.kvs k ∙ absent in
      let again : leb kvs_per_entry (find_first_zero (t.metas m).bitmap) ≡ true = ground arith in
      let x = behind left s k v kvs len full' nk absent' in
      let pivot = pivot_key e in
      let h = store (store t.heap r (right_half e)) a left in
      let new_metas = store t.metas n (right_meta t.base_addr r s) in
      let t₁ : BitmapTree Carrier = record t {
        heap = h;
        metas = store new_metas m (left_meta (new_metas m) s);
        nvm = (alloc_aligned entry_size 256 t.nvm).1;
        index = ix.insert t.index pivot n;
      } in
      let there : t₁.heap a ≡ left = store_same (store t.heap r (right_half e)) a left in
      let below : leb (h left.next).min_key k ≡ false = left_below t.heap e a r k new_entry low in
      (
        record t₁ { heap = store h a x },
        rw
            (
              again,
              split,
              put_left ix t₁ a k v left there below,
              put_behind left s k v kvs len full' nk absent',
            )
            refl,
        rw (store_same h a x) (behind_there left s k v kvs len full' nk absent'),
        rw (store_same new_metas m (left_meta (new_metas m) s), store_same h a x)
            (left_unfound left s k v kvs len full' nk absent' (new_metas m)),
      )
