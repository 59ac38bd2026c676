-- ===== src/Clht/Eliminated.antt =====
-- Which keys the eliminations of src/clht_lb_res.cc remove: the keys of the buckets that a shrinking resize
-- leaves out, and the ones of the coldest bucket of a chain.
use epli.Prelude.{
  ℕ, zero, suc, ◌≡◌, ◌≢◌, ◌⊎◌, refl, arith, List, [], ◌∷◌, none, some, Bool, true, false, ◌==◌,
  ◌&&◌, ◌||◌, not, leb, if◌then◌else◌, get_or, Option-cases, Bool-cases, inl, inr, ◌∙◌, sym, ◌≤◌,
}
use epli.Entry.Slots.{lookup, count, lookup-append, lookup-eq-none}
use epli.Clht.{Bucket, Hashtable, zero_bucket, clht_hash, chain_of, empty_keys}
use epli.Clht.Chain.{flat, count-empty_keys}
use epli.Clht.Victim.{coldest, uint32_max, clear_bucket, eliminate}
use epli.Clht.Resize.{
  survives, decide_status, shrink, grow, keep, table_size, expands_max, max_bucket_size,
}
use epli.Clht.Grow.{flats}
use epli.Clht.Submap.{kept_chain, kept, kept-SubOf}

abbrev pub has_key : Bucket → (key : ℕ) → Bool
has_key b k = not (count k b.slots == 0)

-- A bucket with the key is left out of the copy.
abbrev pub left_out : (increase : Bool) → (lt : ℕ) → List Bucket → (key : ℕ) → Bool
left_out inc lt [] k = false
left_out inc lt (b ∷ c) k =
    let rest = left_out inc lt c k in if inc || survives b lt then rest else has_key b k || rest

abbrev pub any_left_out : (increase : Bool) → (lt : ℕ) → List (List Bucket) → (key : ℕ) → Bool
any_left_out inc lt [] k = false
any_left_out inc lt (c ∷ cs) k = left_out inc lt c k || any_left_out inc lt cs k

-- The coldest bucket has the key.
unfoldable pub in_coldest : List Bucket → (key : ℕ) → Bool
in_coldest c k = elim (coldest c 0 none uint32_max uint32_max) [
  | none ↦ false
  | some pos ↦ has_key (get_or c pos zero_bucket) k
]

-- What `ht_status` removes from a table after a put into the bin at the time `now`: on a shrinking resize the pairs of
-- the buckets that are not read often enough, and past the maximal size the pairs of the coldest bucket of the chain.
unfoldable pub is_eliminated : Hashtable → (bin now key : ℕ) → Bool
is_eliminated ht bin lt k =
    elim (decide_status true (table_size ht.table) ht.num_buckets (expands_max ht.table)) [
      | shrink ↦ any_left_out false lt ht.table k
      | grow ↦
          leb max_bucket_size (table_size ht.table)
          && ((clht_hash ht k == bin) && in_coldest (chain_of ht bin) k)
      | keep ↦ false
    ]

module _ (inc : Bool) (lt k : ℕ) where
  kept_chain-lookup :
      (c : List Bucket)
      → left_out inc lt c k ≡ false
      → lookup (kept_chain inc lt c) k ≡ lookup (flat c) k
  unfolding kept_chain
  kept_chain-lookup [] h = refl
  kept_chain-lookup (b ∷ c) h = elim (Bool-cases (inc || survives b lt)) [
    | inl e ↦
        let rest = kept_chain-lookup c (rw e at h) in
        rw e (
          lookup-append b.slots (kept_chain inc lt c) k
          ∙ rw rest (sym (lookup-append b.slots (flat c) k)))
    | inr e ↦
        let h' = rw e at h in
        let rest = kept_chain-lookup c (ground (arith, h')) in
        let absent = lookup-eq-none b.slots k (ground (arith, h')) in
        rw e (rest ∙ sym (lookup-append b.slots (flat c) k ∙ rw absent refl))
  ]

  kept-lookup :
      (cs : List (List Bucket))
      → any_left_out inc lt cs k ≡ false
      → lookup (kept inc lt cs) k ≡ lookup (flats cs) k
  unfolding kept
  kept-lookup [] h = refl
  kept-lookup (c ∷ cs) h =
      lookup-append (kept_chain inc lt c) (kept inc lt cs) k
      ∙ rw (kept_chain-lookup c (ground (arith, h)), kept-lookup cs (ground (arith, h)))
          (sym (lookup-append (flat c) (flats cs) k))

  -- A key of the table is copied, or stands in a bucket that is left out.
  pub kept-reads :
      (cs : List (List Bucket))
      → k ≢ 0
      → count k (flats cs) ≤ 1
      → ((any_left_out inc lt cs k ≡ true) × (lookup (kept inc lt cs) k ≡ none))
        ⊎ (lookup (kept inc lt cs) k ≡ lookup (flats cs) k)
  kept-reads cs nk u = elim (Bool-cases (any_left_out inc lt cs k)) [
    | inr e ↦ inr (kept-lookup cs e)
    | inl e ↦ elim ((kept-SubOf inc lt cs).reads k nk u) [ inl h ↦ inl (e, h) | inr h ↦ inr h ]
  ]

grown_chain_keeps : (lt k : ℕ) (c : List Bucket) → left_out true lt c k ≡ false
grown_chain_keeps lt k [] = refl
grown_chain_keeps lt k (b ∷ c) = grown_chain_keeps lt k c

pub grown_keeps : (lt k : ℕ) (cs : List (List Bucket)) → any_left_out true lt cs k ≡ false
grown_keeps lt k [] = refl
grown_keeps lt k (c ∷ cs) = rw (grown_chain_keeps lt k c, grown_keeps lt k cs) refl

clear_bucket-lookup :
    (k : ℕ) (c : List Bucket) (pos : ℕ)
    → k ≢ 0
    → has_key (get_or c pos zero_bucket) k ≡ false
    → lookup (flat (clear_bucket c pos)) k ≡ lookup (flat c) k
unfolding clear_bucket
clear_bucket-lookup k [] pos nk h = refl
clear_bucket-lookup k (b ∷ c) zero nk h =
    let cleared = lookup-eq-none (empty_keys b.slots) k (count-empty_keys b.slots k nk) in
    let absent = lookup-eq-none b.slots k (ground (arith, h)) in
    lookup-append (empty_keys b.slots) (flat c) k
    ∙ rw cleared (sym (lookup-append b.slots (flat c) k ∙ rw absent refl))
clear_bucket-lookup k (b ∷ c) (suc pos) nk h =
    lookup-append b.slots (flat (clear_bucket c pos)) k
    ∙ rw (clear_bucket-lookup k c pos nk h) (sym (lookup-append b.slots (flat c) k))

pub eliminate-lookup :
    (k : ℕ) (c : List Bucket)
    → k ≢ 0
    → in_coldest c k ≡ false
    → lookup (flat (eliminate c)) k ≡ lookup (flat c) k
unfolding eliminate in_coldest
eliminate-lookup k c nk h = elim (Option-cases (coldest c 0 none uint32_max uint32_max)) [
  | inl e ↦ rw (e, eliminate) refl
  | inr (pos, e) ↦ rw (e, eliminate) (clear_bucket-lookup k c pos nk (rw (e, in_coldest) at h))
]
