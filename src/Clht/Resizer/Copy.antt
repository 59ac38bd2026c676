-- ===== src/Clht/Resizer/Copy.antt =====
-- What the new table holds after the pairs of a bin are put into it.
use epli.Prelude.{
  ◌+◌, ℕ, ◌≤◌, ◌≡◌, ◌≢◌, refl, arith, List, [], ◌∷◌, Option, none, some, ◌==◌, if◌then◌else◌,
  length, or_else, store, Option-cases, inl, inr, ◌∙◌, Bool-cases, ==→eq, sym, ap,
}
use epli.Entry.{Kv, find_key}
use epli.Entry.Slots.{
  lookup, count, count-put, count-append, lookup-put, lookup-append, lookup-eq-none,
}
use epli.Clht.{Bucket, entries_per_bucket}
use epli.Clht.Threads.{new_slots}
use epli.Clht.Threads.Moves.{count-new_slots}
use epli.Clht.Threads.Refines.{lookup-new_slots}
use epli.Clht.Resizer.{bin_of, put_seq, put_pairs}

-- What a key finds in its bin of the new table.
abbrev pub found_in : (num : ℕ) → (ℕ → List Kv) → (j : ℕ) → Option ℕ
found_in num new j = lookup (new (bin_of num j)) j

module _ (raw : Bucket) (full : length raw.slots ≡ entries_per_bucket) where
  put_seq-lookup :
      (s : List Kv) (k v j : ℕ)
      → k ≢ 0
      → j ≢ 0
      → lookup s k ≡ none
      → lookup (put_seq raw s k v) j ≡ (if j == k then some v else lookup s j)
  unfolding put_seq
  put_seq-lookup s k v j nk nj absent = elim (Option-cases (find_key s 0)) [
    | inl h ↦
        rw (h, put_seq)
          (lookup-append s (new_slots raw k v) j
            ∙ ground (arith, lookup-new_slots raw j k v full nj))
    | inr (i, h) ↦ rw (h, put_seq) (lookup-put j k v s i h nk nj absent)
  ]

  put_first-lookup :
      (num : ℕ) (new : ℕ → List Kv) (k v j : ℕ)
      → k ≢ 0
      → j ≢ 0
      → found_in num new k ≡ none
      → found_in num (store new (bin_of num k) (put_seq raw (new (bin_of num k)) k v)) j
        ≡ (if j == k then some v else found_in num new j)
  unfolding store
  put_first-lookup num new k v j nk nj absent = elim (Bool-cases (bin_of num j == bin_of num k)) [
    | inl e ↦ rw e (
        put_seq-lookup (new (bin_of num k)) k v j nk nj absent
        ∙ ap (λ b. if j == k then some v else lookup (new b) j) (sym (==→eq _ _ e)))
    | inr e ↦ rw e (ground (arith, e))
  ]

  put_seq-count :
      (s : List Kv) (k v j : ℕ)
      → j ≢ 0
      → count j (put_seq raw s k v) ≡ (if j == k then count j s + 1 else count j s)
  unfolding put_seq
  put_seq-count s k v j nj = elim (Option-cases (find_key s 0)) [
    | inl h ↦
        rw (h, put_seq)
          (count-append s (new_slots raw k v) j ∙ ground (arith, count-new_slots raw j k v full nj))
    | inr (i, h) ↦ rw (h, put_seq) (count-put j k v s i h nj)
  ]

module _ (raw : (ℕ → List Kv) → Bucket)
    (full : (t : ℕ → List Kv) → length (raw t).slots ≡ entries_per_bucket) where
  -- Each pair is found afterwards, and all that was found before.
  pub put_pairs-lookup :
      (num : ℕ) (c : List Kv) (new : ℕ → List Kv)
      → count 0 c ≡ 0
      → ((j : ℕ) → j ≢ 0 → count j c ≤ 1)
      → ((j : ℕ) → j ≢ 0 → count j c ≢ 0 → found_in num new j ≡ none)
      → (j : ℕ) → j ≢ 0
      → found_in num (put_pairs raw num c new) j ≡ or_else (lookup c j) (found_in num new j)
  unfolding put_pairs
  put_pairs-lookup num [] new z u f j nj = refl
  put_pairs-lookup num ((k, v) ∷ c) new z u f j nj =
      let nk : k ≢ 0 = λ e. ground (arith, e) in
      let first = put_first-lookup (raw new) (full new) num new k v in
      let absent = f k nk (ground arith) in
      put_pairs-lookup num c (store new (bin_of num k) (put_seq (raw new) (new (bin_of num k)) k v))
        (ground arith) (λ i ni. ground (arith, u i ni))
        (λ i ni h. ground (arith, u i ni, f i ni, first i nk ni absent)) j nj
      ∙ ground (arith, first j nk nj absent, lookup-eq-none c j, u j nj)

  -- Each pair is in its bin, and in no other.
  pub put_pairs-count :
      (num : ℕ) (c : List Kv) (new : ℕ → List Kv) (j b : ℕ)
      → count 0 c ≡ 0
      → j ≢ 0
      → count j (put_pairs raw num c new b)
        ≡ (if bin_of num j == b then count j c + count j (new b) else count j (new b))
  unfolding put_pairs store
  put_pairs-count num [] new j b z nj = ground arith
  put_pairs-count num ((k, v) ∷ c) new j b z nj =
      put_pairs-count num c (store new (bin_of num k) (put_seq (raw new) (new (bin_of num k)) k v))
        j b (ground arith) nj
      ∙ (elim (Bool-cases (b == bin_of num k)) [
        | inl e ↦ rw e (
            ground (
              arith,
              e,
              put_seq-count (raw new) (full new) (new (bin_of num k)) k v j nj,
              ap (λ a. count j (new a)) (==→eq _ _ e),
            ))
        | inr e ↦ rw e (ground (arith, e))
      ])
