-- ===== src/Clht/Submap.antt =====
-- What the eliminations leave: some of the pairs, each with its value.
use epli.Prelude.{
  ℕ, zero, suc, ◌+◌, ◌≤◌, ◌≡◌, ◌≢◌, ◌⊎◌, refl, arith, List, [], ◌∷◌, ◌++◌, Option, none, some, Bool,
  ◌==◌, ◌||◌, if◌then◌else◌, Option-cases, Bool-cases, inl, inr, ◌∙◌, ap, sym, or_else,
}
use epli.Entry.{Kv}
use epli.Entry.Slots.{lookup, count, lookup-append, count-append, lookup-eq-none}
use epli.Clht.{Bucket, Hashtable, empty_keys}
use epli.Clht.Chain.{flat, count-empty_keys}
use epli.Clht.Victim.{coldest, uint32_max, clear_bucket, eliminate}
use epli.Clht.Resize.{
  kv_count, chain_size, table_size, survives, copy_slots, bucket_cpy, copy_table,
}
use epli.Clht.Grow.{flats, copy_slots-append}

-- The slots `s` are some of the slots `r`.
pub record SubOf (s r : List Kv) : Type 0 where
  pub fewer : (j : ℕ) → j ≢ 0 → count j s ≤ count j r
  pub reads : (j : ℕ) → j ≢ 0 → count j r ≤ 1 → (lookup s j ≡ none) ⊎ (lookup s j ≡ lookup r j)

pub same-SubOf : (s : List Kv) → SubOf s s
same-SubOf s = record { fewer = λ j nj. omega arith; reads = λ j nj u. inr refl }

pub empty-SubOf : (s r : List Kv) → ((j : ℕ) → j ≢ 0 → count j s ≡ 0) → SubOf s r
empty-SubOf s r z = record {
  fewer = λ j nj. omega (arith, z j nj);
  reads = λ j nj u. inl (lookup-eq-none s j (z j nj));
}

-- Two readings in a row, where one of the two that they come from is empty.
join :
    (x x' y y' : Option ℕ)
    → (x ≡ none) ⊎ (x ≡ y)
    → (x' ≡ none) ⊎ (x' ≡ y')
    → (y ≡ none) ⊎ (y' ≡ none)
    → (or_else x x' ≡ none) ⊎ (or_else x x' ≡ or_else y y')
join x x' y y' (inl e) (inl e') o = rw (e, e') (inl refl)
join x x' y y' (inr e) (inr e') o = rw (e, e') (inr refl)
join x x' y y' (inl e) (inr e') (inl z) = rw (e, e', z) (inr refl)
join x x' y y' (inl e) (inr e') (inr z) = rw (e, e', z) (inl refl)
join x x' y y' (inr e) (inl e') (inl z) = rw (e, e', z) (inl refl)
join x x' y none (inr e) (inl e') (inr z) = rw (e, e') (inr refl)
join x x' y (some w) (inr e) (inl e') (inr z) = cc

pub append-SubOf : (s s' r r' : List Kv) → SubOf s r → SubOf s' r' → SubOf (s ++ s') (r ++ r')
append-SubOf s s' r r' a b = record {
  fewer =
      λ j nj. omega (arith, count-append s s' j, count-append r r' j, a.fewer j nj, b.fewer j nj);
  reads = λ j nj u.
      let n = count-append r r' j in
      let one : (lookup r j ≡ none) ⊎ (lookup r' j ≡ none) = elim (Bool-cases (count j r == 0)) [
        | inl e ↦ inl (lookup-eq-none r j (ground arith))
        | inr e ↦ inr (lookup-eq-none r' j (ground (arith, n)))
      ] in
      rw (lookup-append s s' j, lookup-append r r' j)
        (join _ _ _ _ (a.reads j nj (omega (arith, n))) (b.reads j nj (omega (arith, n))) one);
}

-- The pairs that a resize copies.
unfoldable pub kept_chain : (increase : Bool) → (lt : ℕ) → List Bucket → List Kv
kept_chain inc lt [] = []
kept_chain inc lt (b ∷ c) = (if inc || survives b lt then b.slots else []) ++ kept_chain inc lt c

unfoldable pub kept : (increase : Bool) → (lt : ℕ) → List (List Bucket) → List Kv
kept inc lt [] = []
kept inc lt (c ∷ cs) = kept_chain inc lt c ++ kept inc lt cs

kept_chain-SubOf : (inc : Bool) (lt : ℕ) (c : List Bucket) → SubOf (kept_chain inc lt c) (flat c)
unfolding kept_chain
kept_chain-SubOf inc lt [] = same-SubOf []
kept_chain-SubOf inc lt (b ∷ c) = elim (Bool-cases (inc || survives b lt)) [
  | inl e ↦ rw e (append-SubOf _ _ _ _ (same-SubOf b.slots) (kept_chain-SubOf inc lt c))
  | inr e ↦
      rw e
        (append-SubOf [] _ _ _ (empty-SubOf [] b.slots (λ j nj. refl)) (kept_chain-SubOf inc lt c))
]

pub kept-SubOf : (inc : Bool) (lt : ℕ) (cs : List (List Bucket)) → SubOf (kept inc lt cs) (flats cs)
unfolding kept
kept-SubOf inc lt [] = same-SubOf []
kept-SubOf inc lt (c ∷ cs) = append-SubOf _ _ _ _ (kept_chain-SubOf inc lt c) (kept-SubOf inc lt cs)

pub kv_count-append : (s r : List Kv) → kv_count (s ++ r) ≡ kv_count s + kv_count r
kv_count-append [] r = omega arith
kv_count-append ((k, v) ∷ s) r = ground (arith, kv_count-append s r)

kept_chain-size :
    (inc : Bool) (lt : ℕ) (c : List Bucket) → kv_count (kept_chain inc lt c) ≤ chain_size c
unfolding kept_chain
kept_chain-size inc lt [] = omega arith
kept_chain-size inc lt (b ∷ c) = elim (Bool-cases (inc || survives b lt)) [
  | inl e ↦
      rw e (omega (arith, kv_count-append b.slots (kept_chain inc lt c), kept_chain-size inc lt c))
  | inr e ↦ rw e (omega (arith, kept_chain-size inc lt c))
]

pub kept-size :
    (inc : Bool) (lt : ℕ) (cs : List (List Bucket)) → kv_count (kept inc lt cs) ≤ table_size cs
unfolding kept table_size
kept-size inc lt [] = omega arith
kept-size inc lt (c ∷ cs) = omega (
  arith,
  kv_count-append (kept_chain inc lt c) (kept inc lt cs),
  kept_chain-size inc lt c,
  kept-size inc lt cs,
)

bucket_cpy-kept :
    (raw : Hashtable → Bucket) (inc : Bool) (lt : ℕ) (c : List Bucket) (ht : Hashtable)
    → bucket_cpy raw inc lt c ht ≡ copy_slots raw (kept_chain inc lt c) ht
unfolding bucket_cpy kept_chain copy_slots
bucket_cpy-kept raw inc lt [] ht = refl
bucket_cpy-kept raw inc lt (b ∷ c) ht = elim (Bool-cases (inc || survives b lt)) [
  | inl e ↦ rw e (
      bucket_cpy-kept raw inc lt c _ ∙ sym (copy_slots-append raw b.slots (kept_chain inc lt c) ht))
  | inr e ↦ rw e (bucket_cpy-kept raw inc lt c ht)
]

pub copy_table-kept :
    (raw : Hashtable → Bucket) (inc : Bool) (lt : ℕ) (cs : List (List Bucket)) (ht : Hashtable)
    → copy_table raw inc lt cs ht ≡ copy_slots raw (kept inc lt cs) ht
unfolding copy_table kept
copy_table-kept raw inc lt [] ht = unfold copy_slots in refl
copy_table-kept raw inc lt (c ∷ cs) ht =
    copy_table-kept raw inc lt cs _
    ∙ ap (copy_slots raw (kept inc lt cs)) (bucket_cpy-kept raw inc lt c ht)
    ∙ sym (copy_slots-append raw (kept_chain inc lt c) (kept inc lt cs) ht)

clear_bucket-SubOf : (c : List Bucket) (pos : ℕ) → SubOf (flat (clear_bucket c pos)) (flat c)
unfolding clear_bucket
clear_bucket-SubOf [] pos = same-SubOf []
clear_bucket-SubOf (b ∷ c) zero =
    append-SubOf _ _ _ _ (empty-SubOf (empty_keys b.slots) b.slots (count-empty_keys b.slots))
      (same-SubOf (flat c))
clear_bucket-SubOf (b ∷ c) (suc pos) =
    append-SubOf _ _ _ _ (same-SubOf b.slots) (clear_bucket-SubOf c pos)

pub eliminate-SubOf : (c : List Bucket) → SubOf (flat (eliminate c)) (flat c)
unfolding eliminate
eliminate-SubOf c = elim (Option-cases (coldest c 0 none uint32_max uint32_max)) [
  | inl e ↦ rw (e, eliminate) (same-SubOf (flat c))
  | inr (pos, e) ↦ rw (e, eliminate) (clear_bucket-SubOf c pos)
]
