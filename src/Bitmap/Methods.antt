-- ===== src/Bitmap/Methods.antt =====
-- `Update` and `Remove` beside a bitmap and fingerprints, which they leave alone.
use epli.Prelude.{
  ℕ, zero, suc, ◌<◌, ◌≡◌, ◌≢◌, refl, arith, List, [], ◌∷◌, none, some, ◌∙◌, sym, ap, length,
  Option-cases, inl, inr, store_same, store_other,
}
use epli.Entry
use epli.Entry.{Kv, Entry, Status, ok, find_key, set_key, set_val}
use epli.Entry.Slots.{lookup, find_key-none, length-set_key, length-set_val}
use epli.Entry.Methods.{IsValid, Writes, update-Writes, remove-Writes}
use epli.Index.{Index}
use epli.Bitmap.{MetaData}
use epli.Bitmap.Tree.{BitmapTree, locate_meta, entry_of, update, remove}
use epli.Entry.At.{key_at}
use epli.Bitmap.Agree.{Agrees}
use epli.Bitmap.Bits.{bit}

key_at-set_val : (s : List Kv) (i v j : ℕ) → key_at (set_val s i v) j ≡ key_at s j
unfolding set_val
key_at-set_val [] i v j = refl
key_at-set_val ((k, w) ∷ s) zero v zero = refl
key_at-set_val ((k, w) ∷ s) zero v (suc j) = refl
key_at-set_val ((k, w) ∷ s) (suc i) v zero = refl
key_at-set_val ((k, w) ∷ s) (suc i) v (suc j) = key_at-set_val s i v j

-- A key that a removal leaves was there before.
key_at-clear :
    (s : List Kv) (i j : ℕ) → key_at (set_key s i 0) j ≢ 0 → key_at (set_key s i 0) j ≡ key_at s j
unfolding set_key
key_at-clear [] i j ne = refl
key_at-clear ((k, w) ∷ s) zero zero ne = absurd (ne refl)
key_at-clear ((k, w) ∷ s) zero (suc j) ne = refl
key_at-clear ((k, w) ∷ s) (suc i) zero ne = refl
key_at-clear ((k, w) ∷ s) (suc i) (suc j) ne = key_at-clear s i j ne

-- No slot gets a new key.
Agrees-fewer :
    (m : MetaData) (e r : Entry)
    → Agrees m e
    → length r.kvs ≡ length e.kvs
    → ((j : ℕ) → key_at r.kvs j ≢ 0 → key_at r.kvs j ≡ key_at e.kvs j)
    → Agrees m r
Agrees-fewer m e r a len same = record {
  long = a.long ∙ sym len;
  describes =
      λ j lt ne. rw (same j ne) (a.describes j (omega (arith, len)) (λ z. ne (same j ne ∙ z)));
}

module _ (m : MetaData) (e : Entry) (a : Agrees m e) (k : ℕ) where
  update-Agrees : (v : ℕ) → Agrees m (Entry.update e k v).0
  unfolding Entry.update
  update-Agrees v = elim (Option-cases (find_key e.kvs k)) [
    | inl h ↦ rw (h, Entry.update) a
    | inr (i, h) ↦
        rw (h, Entry.update)
          (Agrees-fewer m e _ a (length-set_val e.kvs i v) (λ j ne. key_at-set_val e.kvs i v j))
  ]

  remove-Agrees : Agrees m (Entry.remove e k).0
  unfolding Entry.remove
  remove-Agrees = elim (Option-cases (find_key e.kvs k)) [
    | inl h ↦ rw (h, Entry.remove) a
    | inr (i, h) ↦
        rw (h, Entry.remove)
          (Agrees-fewer m e _ a (length-set_key e.kvs i 0) (λ j ne. key_at-clear e.kvs i j ne))
  ]

find_key-lt : (s : List Kv) (k i : ℕ) → find_key s k ≡ some i → (i < length s) × (key_at s i ≡ k)
unfolding find_key
find_key-lt [] k i h = cc
find_key-lt ((a, w) ∷ s) k zero h = ground arith
find_key-lt ((a, w) ∷ s) k (suc i) h = ground (arith, find_key-lt s k i)

key_at-cleared : (s : List Kv) (i : ℕ) → key_at (set_key s i 0) i ≡ 0
unfolding set_key
key_at-cleared [] i = refl
key_at-cleared ((a, w) ∷ s) zero = refl
key_at-cleared ((a, w) ∷ s) (suc i) = key_at-cleared s i

-- A slot without a key whose bit is set: no `Insert` takes it.
abbrev pub Leaks : MetaData → Entry → Type 0
Leaks m e = (i : ℕ) × (i < length e.kvs) × (key_at e.kvs i ≡ 0) × (bit i m.bitmap ≡ 1)

remove-Leaks :
    (m : MetaData) (e : Entry) (k w : ℕ)
    → Agrees m e
    → k ≢ 0
    → lookup e.kvs k ≡ some w
    → Leaks m (Entry.remove e k).0
unfolding Entry.remove
remove-Leaks m e k w a nk here = elim (Option-cases (find_key e.kvs k)) [
  | inl h ↦ absurd (ground (arith, here, find_key-none e.kvs k h))
  | inr (i, h) ↦
      let (lt, at) = find_key-lt e.kvs k i h in
      rw (h, Entry.remove)
        (
          i,
          rw (length-set_key e.kvs i 0) lt,
          key_at-cleared e.kvs i,
          (a.describes i lt (λ z. nk (sym at ∙ z))).1,
        )
]

module _ (ix : Index) where
  open ix use {Carrier}

  -- Where the bitmap and the fingerprints describe the valid entry that the index names, and the entry holds a valid
  -- key, `Update` and `Remove` of the key answer STATUS_OK, set its value or take it out, and keep the rest; the
  -- bitmap and the fingerprints, which they do not touch, describe the entry again, and no other entry changes.
  -- `Remove` leaves the bit of the slot that it empties set.
  pub write-Agrees :
      (t : BitmapTree Carrier) (k v w : ℕ)
      → let m = locate_meta ix t k in
        let a = entry_of ix t m in
        Agrees (t.metas m) (t.heap a)
        → IsValid (t.heap a)
        → k ≢ 0
        → lookup (t.heap a).kvs k ≡ some w
        → let u = update ix t k v in
          let r = remove ix t k in
          ((u.1 ≡ ok)
            × Writes (t.heap a) k (some v) (u.0.heap a)
            × Agrees (u.0.metas m) (u.0.heap a))
          × ((r.1 ≡ ok)
              × Writes (t.heap a) k none (r.0.heap a)
              × Agrees (r.0.metas m) (r.0.heap a)
              × Leaks (r.0.metas m) (r.0.heap a)
              × (u.0.metas ≡ t.metas)
              × (r.0.metas ≡ t.metas))
          × ((b : ℕ) → b ≢ a → (u.0.heap b ≡ t.heap b) × (r.0.heap b ≡ t.heap b))
  unfolding update remove
  write-Agrees t k v w agrees valid nk here =
      let m = locate_meta ix t k in
      let a = entry_of ix t m in
      let e = t.heap a in
      let (u, updated, u_writes) = update-Writes e valid k v nk w here in
      let (r, removed, r_writes) = remove-Writes e valid k v nk w here in
      let u_agrees = update-Agrees (t.metas m) e agrees k v in
      let r_agrees = remove-Agrees (t.metas m) e agrees k in
      (
        (
          ap (λ (x : Entry × Status). x.1) updated,
          rw (store_same t.heap a (Entry.update e k v).0, updated) u_writes,
          rw (store_same t.heap a (Entry.update e k v).0) u_agrees,
        ),
        (
          ap (λ (x : Entry × Status). x.1) removed,
          rw (store_same t.heap a (Entry.remove e k).0, removed) r_writes,
          rw (store_same t.heap a (Entry.remove e k).0) r_agrees,
          rw (store_same t.heap a (Entry.remove e k).0)
              (remove-Leaks (t.metas m) e k w agrees nk here),
          refl,
          refl,
        ),
        λ b ne. (
          store_other t.heap a b (Entry.update e k v).0 ne,
          store_other t.heap a b (Entry.remove e k).0 ne,
        ),
      )
