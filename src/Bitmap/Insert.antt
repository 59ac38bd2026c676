-- ===== src/Bitmap/Insert.antt =====
-- `Insert` and `Get` with bitmaps and fingerprints, and what a split and a bulk load leave out.
use epli.Prelude.{
  ℕ, zero, suc, ◌-◌, ◌/◌, ◌^◌, ◌<◌, ◌≡◌, ◌≢◌, refl, arith, List, [], ◌∷◌, none, some, false, ◌==◌,
  leb, get_or, length, store, store_same, store_other, Bool-cases, inl, inr, replicate,
}
use epli.Entry.{Kv, Entry, ok, fail, kvs_per_entry}
use epli.Entry.Slots.{lookup}
use epli.Entry.Methods.{IsValid, Writes}
use epli.Index.{Index}
use epli.Tree.{modify}
use epli.Bitmap.{MetaData, hashcode1b, find_first_zero, new_meta, set_bitmap, set_fgpt}
use epli.Bitmap.Bits.{find_first_zero_lem}
use epli.Bitmap.Tree.{
  BitmapTree, put_at_pos, candidates, search_mask, find_by_mask, bulk_meta, locate_meta, entry_of,
  locate_insert, get, insert,
}
use epli.Entry.At.{key_at}
use epli.Bitmap.Agree.{Agrees, find_by_mask-lookup, put_at_pos-Writes, put_at_pos-Agrees}

-- A bit that is 0 belongs to an empty slot.
free_slot :
    (m : MetaData) (e : Entry)
    → Agrees m e
    → IsValid e
    → m.bitmap < 2 ^ 16 - 1
    → find_first_zero m.bitmap < kvs_per_entry
    → key_at e.kvs (find_first_zero m.bitmap) ≡ 0
free_slot m e a valid small room =
    let i = find_first_zero m.bitmap in
    let clear = (find_first_zero_lem m.bitmap small).1 in
    elim (Bool-cases (key_at e.kvs i == 0)) [
      | inl q ↦ ground arith
      | inr q ↦ absurd (
          omega (arith, clear, (a.describes i (omega (arith, valid.slots, room)) (ground arith)).1))
    ]

module _ (ix : Index) where
  open ix use {Carrier}

  -- `Get` of a valid key, where the bitmap and the fingerprints describe the entry that the index names: the
  -- value with STATUS_OK, or 0 with STATUS_FAIL, as in a search through all its slots.
  pub get-lookup :
      (t : BitmapTree Carrier) (k : ℕ)
      → Agrees (t.metas (locate_meta ix t k)) (t.heap (entry_of ix t (locate_meta ix t k)))
      → k ≢ 0
      → get ix t k ≡ elim (lookup (t.heap (entry_of ix t (locate_meta ix t k))).kvs k) [
        | none ↦ (fail, 0)
        | some w ↦ (ok, w)
      ]
  unfolding get
  get-lookup t k a nz =
      rw
        (
          find_by_mask-lookup (t.metas (locate_meta ix t k))
              (t.heap (entry_of ix t (locate_meta ix t k))) k a nz,
          get,
        )
        (ground arith)

  -- `Insert` without a split: the bitmap and the fingerprints describe the valid entry, a bit among the first
  -- 14 is 0, and the valid key is absent. It answers STATUS_OK, the entry takes the pair and keeps the
  -- rest, the bitmap and the fingerprints describe it again, and no other entry or `MetaData` changes.
  pub insert-Writes :
      (n : ℕ) (t : BitmapTree Carrier) (k v : ℕ)
      → let m = locate_insert ix t k in
        let a = entry_of ix t m in
        Agrees (t.metas m) (t.heap a)
        → IsValid (t.heap a)
        → (t.metas m).bitmap < 2 ^ 16 - 1
        → find_first_zero (t.metas m).bitmap < kvs_per_entry
        → k ≢ 0
        → lookup (t.heap a).kvs k ≡ none
        → (t' : BitmapTree Carrier) × (insert ix n t k v ≡ (t', ok))
          × Writes (t.heap a) k (some v) (t'.heap a)
          × Agrees (t'.metas m) (t'.heap a)
          × ((b : ℕ) → b ≢ a → t'.heap b ≡ t.heap b)
          × ((l : ℕ) → l ≢ m → t'.metas l ≡ t.metas l)
  unfolding insert modify
  insert-Writes n t k v agrees valid small room nk absent =
      let m = locate_insert ix t k in
      let a = entry_of ix t m in
      let e = t.heap a in
      let i = find_first_zero (t.metas m).bitmap in
      let inside : i < length e.kvs = omega (arith, valid.slots, room) in
      let no_split : leb kvs_per_entry i ≡ false = ground arith in
      let empty = free_slot (t.metas m) e agrees valid small room in
      let d = t.metas m in
      (
        record t {
          heap = store t.heap a (put_at_pos e k v i);
          metas = store t.metas m (record d {
            bitmap = set_bitmap d.bitmap i;
            fgpt = set_fgpt d.fgpt i (hashcode1b k);
          });
        },
        rw no_split,
        rw (store_same t.heap a (put_at_pos e k v i))
            (put_at_pos-Writes e k v i valid inside empty nk absent),
        rw (store_same t.heap a (put_at_pos e k v i), store_same t.metas m _)
            (put_at_pos-Agrees (t.metas m) e k v i agrees inside (omega (arith, valid.slots))),
        λ b ne. store_other t.heap a b _ ne,
        λ l ne. store_other t.metas m l _ ne,
      )

-- Without a fingerprint nothing is found.
zero_candidates :
    (hash k : ℕ) (fs : List ℕ) (b : ℕ) (s : List Kv)
    → hash ≢ 0
    → ((j : ℕ) → get_or fs j 0 ≡ 0)
    → search_mask (candidates hash fs b) s k ≡ none
unfolding search_mask candidates
zero_candidates hash k [] b s nz z = refl
zero_candidates hash k (f ∷ fs) b [] nz z = refl
zero_candidates hash k (f ∷ fs) b ((j, w) ∷ s) nz z =
    let other : (f == hash) ≡ false = ground (arith, z zero) in
    rw (other, zero_candidates hash k fs (b / 2) s nz (λ i. z (suc i)))

zeros_at : (n j : ℕ) → get_or {A = ℕ} (replicate n 0) j 0 ≡ 0
zeros_at zero j = refl
zeros_at (suc n) zero = refl
zeros_at (suc n) (suc j) = zeros_at n j

-- The `MetaData` that `BulkLoad` makes for an entry of `n` pairs and the one that `Recover` makes have no
-- fingerprints: a key whose hash is not 0 is not found by them, even if the entry holds the key.
pub meta_unfound :
    (base a n : ℕ) (e : Entry) (k : ℕ)
    → hashcode1b k ≢ 0
    → (find_by_mask (bulk_meta base a n) e k ≡ none) × (find_by_mask (new_meta base a) e k ≡ none)
unfolding find_by_mask bulk_meta new_meta
meta_unfound base a n e k nz = (
  zero_candidates (hashcode1b k) k (replicate kvs_per_entry 0) _ e.kvs nz (zeros_at kvs_per_entry),
  zero_candidates (hashcode1b k) k (replicate kvs_per_entry 0) _ e.kvs nz (zeros_at kvs_per_entry),
)
