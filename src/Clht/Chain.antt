-- ===== src/Clht/Chain.antt =====
-- A chain of buckets as one array of slots, and what the loops over it do to the map it stands for.
use mathlib.Core.List.{append-nil}
use epli.Prelude.{
  ℕ, ◌+◌, ◌≤◌, ◌<◌, ◌≡◌, ◌≢◌, refl, arith, List, [], ◌∷◌, ◌++◌, Option, none, some, Bool, true,
  false, ◌==◌, if◌then◌else◌, length, Option-cases, inl, inr, ap,
}
use epli.Entry.{Kv, find_key, set_key, set_val}
use epli.Entry.Slots.{
  lookup, count, lookup-append, count-append, lookup_find, find_key-none, lookup-put, count-put,
  lookup-set_val, count-set_val, lookup-clear, count-clear-le, lookup-eq-none,
}
use epli.Clht.{
  Bucket, touch, get_chain, bucket_exists, update_chain, remove_chain, put_chain, bucket_create,
  empty_keys, entries_per_bucket,
}

abbrev pub flat : List Bucket → List Kv
flat [] = []
flat (b ∷ c) = b.slots ++ flat c

abbrev pub is_some {ℓ} : {A : Type ℓ} → Option A → Bool
is_some none = false
is_some (some a) = true

abbrev pub or_zero : Option ℕ → ℕ
or_zero none = 0
or_zero (some v) = v

-- A lookup changes no slot and finds the first pair under the key, or 0.
pub get_chain-lookup :
    (c : List Bucket) (k lt : ℕ)
    → (flat (get_chain c k lt).0 ≡ flat c) × ((get_chain c k lt).1 ≡ or_zero (lookup (flat c) k))
unfolding get_chain touch
get_chain-lookup [] k lt = (refl, refl)
get_chain-lookup (b ∷ c) k lt =
    let ih = get_chain-lookup c k lt in
    ground (arith, ih.0, ih.1, lookup_find b.slots k, lookup-append b.slots (flat c) k)

pub bucket_exists-lookup :
    (c : List Bucket) (k : ℕ) → bucket_exists c k ≡ is_some (lookup (flat c) k)
unfolding bucket_exists
bucket_exists-lookup [] k = refl
bucket_exists-lookup (b ∷ c) k =
    ground
      (arith, bucket_exists-lookup c k, lookup_find b.slots k, lookup-append b.slots (flat c) k)

pub lookup-empty_keys : (s : List Kv) (j : ℕ) → j ≢ 0 → lookup (empty_keys s) j ≡ none
lookup-empty_keys [] j nj = refl
lookup-empty_keys ((a, w) ∷ s) j nj = ground (arith, lookup-empty_keys s j nj)

first_slot :
    (k j v : ℕ) (s : List Kv)
    → 0 < length s
    → j ≢ 0
    → lookup (set_key (set_val (empty_keys s) 0 v) 0 k ++ []) j ≡ (if j == k then some v else none)
unfolding set_key set_val
first_slot k j v [] pos nj = absurd (omega arith)
first_slot k j v ((a, w) ∷ s) pos nj =
    rw (append-nil (empty_keys s), lookup-empty_keys s j nj) (ground arith)

pub count-empty_keys : (s : List Kv) (j : ℕ) → j ≢ 0 → count j (empty_keys s) ≡ 0
count-empty_keys [] j nj = refl
count-empty_keys ((a, w) ∷ s) j nj = ground (arith, count-empty_keys s j nj)

first_slot_count :
    (k j v : ℕ) (s : List Kv)
    → 0 < length s
    → j ≢ 0
    → count j (set_key (set_val (empty_keys s) 0 v) 0 k ++ []) ≡ (if j == k then 0 + 1 else 0)
unfolding set_key set_val
first_slot_count k j v [] pos nj = absurd (omega arith)
first_slot_count k j v ((a, w) ∷ s) pos nj =
    rw (append-nil (empty_keys s), count-empty_keys s j nj) (ground arith)

module _ (k j : ℕ) where
  pub lookup-update_chain :
      (v : ℕ) (c : List Bucket)
      → (lookup (flat (update_chain c k v).0) j ≡ (
          if j == k then (if (update_chain c k v).1 then some v else none) else lookup (flat c) j))
        × ((update_chain c k v).1 ≡ is_some (lookup (flat c) k))
  unfolding update_chain
  lookup-update_chain v [] = (ground arith, refl)
  lookup-update_chain v (b ∷ c) =
      let at_j = lookup-append b.slots (flat c) j in
      let at_k = lookup-append b.slots (flat c) k in
      elim (Option-cases (find_key b.slots k)) [
        | inl n ↦
            let ih = lookup-update_chain v c in
            let none_k = find_key-none b.slots k n in
            let new = lookup-append b.slots (flat (update_chain c k v).0) j in
            ground (arith, n, ih.0, ih.1, none_k, new, ap (lookup b.slots) {x = j} {y = k})
        | inr (i, e) ↦
            let new = lookup-append (set_val b.slots i v) (flat c) j in
            ground (arith, e, new, lookup-set_val j k v b.slots i e, lookup_find b.slots k)
      ]

  -- The first occurrence of a key that occurs once is taken out.
  pub lookup-remove_chain :
      (c : List Bucket)
      → j ≢ 0
      → count k (flat c) ≤ 1
      → (lookup (flat (remove_chain c k).0) j ≡ (if j == k then none else lookup (flat c) j))
        × ((remove_chain c k).1 ≡ or_zero (lookup (flat c) k))
  unfolding remove_chain
  lookup-remove_chain [] nj u = (ground arith, refl)
  lookup-remove_chain (b ∷ c) nj u =
      let at_j = lookup-append b.slots (flat c) j in
      let at_k = lookup-append b.slots (flat c) k in
      let counted = count-append b.slots (flat c) k in
      elim (Option-cases (find_key b.slots k)) [
        | inl n ↦
            let ih = lookup-remove_chain c nj (omega (arith, counted)) in
            let none_k = find_key-none b.slots k n in
            let new = lookup-append b.slots (flat (remove_chain c k).0) j in
            ground (arith, n, ih.0, ih.1, none_k, new, ap (lookup b.slots) {x = j} {y = k})
        | inr (i, e) ↦
            let new = lookup-append (set_key b.slots i 0) (flat c) j in
            ground (
              arith,
              e,
              new,
              lookup-clear j k b.slots i e nj (omega (arith, counted)),
              lookup_find b.slots k,
              lookup-eq-none (flat c) k,
              lookup-eq-none b.slots k,
              ap (lookup (flat c)) {x = j} {y = k},
            )
      ]

  -- A pair is put into the chain, in an empty slot or in a new bucket.
  pub lookup-put_chain :
      (raw : Bucket) (v : ℕ) (c : List Bucket)
      → length raw.slots ≡ entries_per_bucket
      → k ≢ 0
      → j ≢ 0
      → lookup (flat c) k ≡ none
      → lookup (flat (put_chain raw c k v).0) j ≡ (if j == k then some v else lookup (flat c) j)
  unfolding put_chain bucket_create
  lookup-put_chain raw v [] full nk nj absent = first_slot k j v raw.slots (omega arith) nj
  lookup-put_chain raw v (b ∷ c) full nk nj absent =
      let at_j = lookup-append b.slots (flat c) j in
      let at_k = lookup-append b.slots (flat c) k in
      elim (Option-cases (find_key b.slots 0)) [
        | inl n ↦
            let ih = lookup-put_chain raw v c full nk nj (ground arith) in
            let new = lookup-append b.slots (flat (put_chain raw c k v).0) j in
            ground (arith, n, ih, new, ap (lookup b.slots) {x = j} {y = k})
        | inr (i, e) ↦
            let new = lookup-append (set_key (set_val b.slots i v) i k) (flat c) j in
            ground (arith, e, new, lookup-put j k v b.slots i e nk nj)
      ]

  pub count-put_chain :
      (raw : Bucket) (v : ℕ) (c : List Bucket)
      → length raw.slots ≡ entries_per_bucket
      → j ≢ 0
      → count j (flat (put_chain raw c k v).0)
        ≡ (if j == k then count j (flat c) + 1 else count j (flat c))
  unfolding put_chain bucket_create
  count-put_chain raw v [] full nj = first_slot_count k j v raw.slots (omega arith) nj
  count-put_chain raw v (b ∷ c) full nj =
      let old = count-append b.slots (flat c) j in
      elim (Option-cases (find_key b.slots 0)) [
        | inl n ↦
            let ih = count-put_chain raw v c full nj in
            let new = count-append b.slots (flat (put_chain raw c k v).0) j in
            ground (arith, n, ih, new)
        | inr (i, e) ↦
            let new = count-append (set_key (set_val b.slots i v) i k) (flat c) j in
            ground (arith, e, new, count-put j k v b.slots i e nj)
      ]

  pub count-update_chain :
      (v : ℕ) (c : List Bucket) → count j (flat (update_chain c k v).0) ≡ count j (flat c)
  unfolding update_chain
  count-update_chain v [] = refl
  count-update_chain v (b ∷ c) =
      let old = count-append b.slots (flat c) j in
      elim (Option-cases (find_key b.slots k)) [
        | inl n ↦
            let ih = count-update_chain v c in
            let new = count-append b.slots (flat (update_chain c k v).0) j in
            ground (arith, n, ih, new)
        | inr (i, e) ↦
            let new = count-append (set_val b.slots i v) (flat c) j in
            ground (arith, e, new, count-set_val j k v b.slots i)
      ]

  pub count-remove_chain-le :
      (c : List Bucket) → j ≢ 0 → count j (flat (remove_chain c k).0) ≤ count j (flat c)
  unfolding remove_chain
  count-remove_chain-le [] nj = omega arith
  count-remove_chain-le (b ∷ c) nj =
      let old = count-append b.slots (flat c) j in
      elim (Option-cases (find_key b.slots k)) [
        | inl n ↦
            let ih = count-remove_chain-le c nj in
            let new = count-append b.slots (flat (remove_chain c k).0) j in
            ground (arith, n, ih, new)
        | inr (i, e) ↦
            let new = count-append (set_key b.slots i 0) (flat c) j in
            ground (arith, e, new, count-clear-le j k b.slots i nj)
      ]
