-- ===== src/Tree/Load/Block.antt =====
-- One entry filled by `BulkLoad`: the next pairs of a sorted array.
use epli.Prelude.{
  ℕ, zero, suc, ◌≤◌, ◌<◌, ◌≡◌, ◌≢◌, refl, arith, List, [], ◌∷◌, none, ◌∙◌, ap, leb, Bool-cases, inl,
  inr, length, drop, take,
}
use epli.Entry.{Kv, Entry, kvs_per_entry, zeroed, copy_kvs}
use epli.Entry.Slots.{lookup, count}
use epli.Entry.Sort.{Ascending}
use epli.Entry.Sorted.{lookup_below, count-take-le}
use epli.Entry.Copy.{lookup-copy_zeroed, count-copy_zeroed, length-copy_kvs}
use epli.Entry.Methods.{IsValid}
use epli.Tree.Chain.{Above, Below}
use epli.Tree.Load.{at_most_full}

pub count-Ascending : (lo k : ℕ) (s : List Kv) → Ascending lo s → count k s ≤ 1
count-Ascending lo k [] up = omega arith
count-Ascending lo k ((j, w) ∷ s) up =
    ground (arith, count-Ascending (suc j) k s up.1, count_above (suc j) k s up.1)
  where
    count_above : (lo k : ℕ) (s : List Kv) → Ascending lo s → k < lo → count k s ≡ 0
    count_above lo k [] up lt = refl
    count_above lo k ((j, w) ∷ s) up lt = ground (arith, count_above (suc j) k s up.1)

-- The key after the first `n` pairs, or after the last one.
abbrev pub bound_after : ℕ → ℕ → List Kv → ℕ
bound_after lo zero s = lo
bound_after lo (suc n) [] = lo
bound_after lo (suc n) ((k, v) ∷ s) = bound_after (suc k) n s

pub bound-ge : (lo n : ℕ) (s : List Kv) → Ascending lo s → lo ≤ bound_after lo n s
bound-ge lo zero s up = omega arith
bound-ge lo (suc n) [] up = omega arith
bound-ge lo (suc n) ((k, v) ∷ s) up = omega (arith, bound-ge (suc k) n s up.1)

pub drop-Ascending :
    (lo n : ℕ) (s : List Kv) → Ascending lo s → Ascending (bound_after lo n s) (drop n s)
drop-Ascending lo zero s up = up
drop-Ascending lo (suc n) [] up = tt
drop-Ascending lo (suc n) ((k, v) ∷ s) up = drop-Ascending (suc k) n s up.1

pub take_below :
    (lo n j : ℕ) (s : List Kv)
    → Ascending lo s
    → bound_after lo n s ≤ j
    → lookup (take n s) j ≡ none
take_below lo zero j s up le = refl
take_below lo (suc n) j [] up le = refl
take_below lo (suc n) j ((k, v) ∷ s) up le =
    ground (arith, take_below (suc k) n j s up.1, bound-ge (suc k) n s up.1)

pub take-at_most : (n : ℕ) (s : List Kv) → length s ≤ n → take (length s) s ≡ take n s
take-at_most zero [] le = refl
take-at_most (suc n) [] le = refl
take-at_most zero (x ∷ s) le = absurd (omega arith)
take-at_most (suc n) (x ∷ s) le = ap (λ (r : List Kv). x ∷ r) (take-at_most n s (omega arith))

pub take-full : (s : List Kv) → take (at_most_full (length s)) s ≡ take kvs_per_entry s
take-full s = elim (Bool-cases (leb (length s) kvs_per_entry)) [
  | inl e ↦ rw e (take-at_most kvs_per_entry s (ground arith))
  | inr e ↦ rw e
]

pub at_most_full_le : (n : ℕ) → (at_most_full n ≤ kvs_per_entry) × (at_most_full n ≤ n)
at_most_full_le n = ground arith

-- An entry that is filled from sorted pairs holds the first of them.
pub record Filled (lo : ℕ) (s : List Kv) (e : Entry) : Type 0 where
  pub valid : IsValid e
  pub reads : (j : ℕ) → j ≢ 0 → lookup e.kvs j ≡ lookup (take kvs_per_entry s) j
  pub above : Above lo e
  pub below : Below (bound_after lo kvs_per_entry s) e

pub lookup-take-none : (n j : ℕ) (s : List Kv) → lookup s j ≡ none → lookup (take n s) j ≡ none
lookup-take-none zero j s h = refl
lookup-take-none (suc n) j [] h = refl
lookup-take-none (suc n) j ((k, v) ∷ s) h = ground (arith, lookup-take-none n j s)

pub copied-Filled :
    (lo : ℕ) (s : List Kv) (e : Entry)
    → 0 < lo
    → Ascending lo s
    → e.kvs ≡ copy_kvs zeroed s (at_most_full (length s))
    → Filled lo s e
copied-Filled lo s e pos up eq =
    let n = at_most_full (length s) in
    let le = at_most_full_le (length s) in
    let reads : (j : ℕ) → j ≢ 0 → lookup e.kvs j ≡ lookup (take kvs_per_entry s) j =
      λ j nj. rw (eq, lookup-copy_zeroed s n le.0 le.1 j nj, take-full s) in
    record {
      valid = record {
        slots = rw (eq, length-copy_kvs zeroed s n);
        unique = λ j nj.
            rw (eq, count-copy_zeroed s n le.0 le.1 j nj)
              (omega (arith, count-take-le n j s, count-Ascending lo j s up));
      };
      reads = reads;
      above =
          λ j nj lt. reads j nj ∙ lookup-take-none kvs_per_entry j s (lookup_below lo j s up lt);
      below = λ j ge.
          reads j (omega (arith, bound-ge lo kvs_per_entry s up))
          ∙ take_below lo kvs_per_entry j s up ge;
    }
