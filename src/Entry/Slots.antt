-- ===== src/Entry/Slots.antt =====
-- The array of an entry as a partial map from keys to values, and how the writes change it.
use epli.Prelude.{
  ℕ, zero, suc, ◌+◌, ◌≤◌, ◌≡◌, ◌≢◌, refl, arith, List, [], ◌∷◌, ◌++◌, Option, none, some, ◌==◌,
  if◌then◌else◌, get_or, replicate, or_else, length,
}
use epli.Entry.{Kv, set_key, set_val, find_key}

-- The value at the first occurrence of a key.
abbrev pub lookup : List Kv → ℕ → Option ℕ
lookup [] k = none
lookup ((j, w) ∷ s) k = if j == k then some w else lookup s k

-- How often a key occurs.
abbrev pub count : ℕ → List Kv → ℕ
count k [] = 0
count k ((j, w) ∷ s) = if j == k then suc (count k s) else count k s

pub lookup_find :
    (s : List Kv) (k : ℕ)
    → lookup s k ≡ elim (find_key s k) [ none ↦ none | some i ↦ some (get_or s i (0, 0)).1 ]
unfolding find_key
lookup_find [] k = refl
lookup_find ((j, w) ∷ s) k = ground (arith, lookup_find s k)

pub count-eq-zero : (s : List Kv) (k : ℕ) → lookup s k ≡ none → count k s ≡ 0
count-eq-zero [] k h = refl
count-eq-zero ((j, w) ∷ s) k h = ground (arith, count-eq-zero s k)

pub lookup-eq-none : (s : List Kv) (k : ℕ) → count k s ≡ 0 → lookup s k ≡ none
lookup-eq-none [] k h = refl
lookup-eq-none ((j, w) ∷ s) k h = ground (arith, lookup-eq-none s k)

pub lookup-append : (a b : List Kv) (k : ℕ) → lookup (a ++ b) k ≡ or_else (lookup a k) (lookup b k)
lookup-append [] b k = refl
lookup-append ((j, w) ∷ a) b k = ground (arith, lookup-append a b k)

pub count-append : (a b : List Kv) (k : ℕ) → count k (a ++ b) ≡ count k a + count k b
count-append [] b k = omega arith
count-append ((j, w) ∷ a) b k = ground (arith, count-append a b k)

-- Zero bytes hold no key but the invalid one.
pub lookup-replicate : (n k : ℕ) → k ≢ 0 → lookup (replicate n (0, 0)) k ≡ none
lookup-replicate zero k h = refl
lookup-replicate (suc n) k h = ground (arith, lookup-replicate n k)

pub count-replicate : (n k : ℕ) → k ≢ 0 → count k (replicate n (0, 0)) ≡ 0
count-replicate zero k h = refl
count-replicate (suc n) k h = ground (arith, count-replicate n k)

pub find_key-none : (s : List Kv) (k : ℕ) → find_key s k ≡ none → lookup s k ≡ none
unfolding find_key
find_key-none [] k h = refl
find_key-none ((j, w) ∷ s) k h = ground (arith, find_key-none s k)

module _ (j k : ℕ) (v : ℕ) where
  -- A pair is written into the first empty slot.
  pub lookup-put :
      (s : List Kv) (i : ℕ)
      → find_key s 0 ≡ some i
      → k ≢ 0
      → j ≢ 0
      → lookup s k ≡ none
      → lookup (set_key (set_val s i v) i k) j ≡ (if j == k then some v else lookup s j)
  unfolding find_key set_key set_val
  lookup-put [] i h nk nj e = cc
  lookup-put ((a, w) ∷ s) zero h nk nj e = ground arith
  lookup-put ((a, w) ∷ s) (suc i) h nk nj e = ground (arith, lookup-put s i)

  pub count-put :
      (s : List Kv) (i : ℕ)
      → find_key s 0 ≡ some i
      → j ≢ 0
      → count j (set_key (set_val s i v) i k) ≡ (if j == k then count j s + 1 else count j s)
  unfolding find_key set_key set_val
  count-put [] i h nj = cc
  count-put ((a, w) ∷ s) zero h nj = ground arith
  count-put ((a, w) ∷ s) (suc i) h nj = ground (arith, count-put s i)

  pub lookup-set_val :
      (s : List Kv) (i : ℕ)
      → find_key s k ≡ some i
      → lookup (set_val s i v) j ≡ (if j == k then some v else lookup s j)
  unfolding find_key set_val
  lookup-set_val [] i h = cc
  lookup-set_val ((a, w) ∷ s) zero h = ground arith
  lookup-set_val ((a, w) ∷ s) (suc i) h = ground (arith, lookup-set_val s i)

  pub count-set_val : (s : List Kv) (i : ℕ) → count j (set_val s i v) ≡ count j s
  unfolding set_val
  count-set_val [] i = refl
  count-set_val ((a, w) ∷ s) zero = refl
  count-set_val ((a, w) ∷ s) (suc i) = ground (arith, count-set_val s i)

module _ (j k : ℕ) where
  -- The key at its first position is overwritten by 0.
  pub lookup-clear :
      (s : List Kv) (i : ℕ)
      → find_key s k ≡ some i
      → j ≢ 0
      → count k s ≤ 1
      → lookup (set_key s i 0) j ≡ (if j == k then none else lookup s j)
  unfolding find_key set_key
  lookup-clear [] i h nj u = cc
  lookup-clear ((a, w) ∷ s) zero h nj u = ground (arith, lookup-eq-none s k)
  lookup-clear ((a, w) ∷ s) (suc i) h nj u = ground (arith, lookup-clear s i)

  pub count-clear-le : (s : List Kv) (i : ℕ) → j ≢ 0 → count j (set_key s i 0) ≤ count j s
  unfolding set_key
  count-clear-le [] i nj = omega arith
  count-clear-le ((a, w) ∷ s) zero nj = ground arith
  count-clear-le ((a, w) ∷ s) (suc i) nj = ground (arith, count-clear-le s i)

pub length-set_val : (s : List Kv) (i v : ℕ) → length (set_val s i v) ≡ length s
unfolding set_val
length-set_val [] i v = refl
length-set_val ((a, w) ∷ s) zero v = refl
length-set_val ((a, w) ∷ s) (suc i) v = ground (arith, length-set_val s i v)

pub length-set_key : (s : List Kv) (i k : ℕ) → length (set_key s i k) ≡ length s
unfolding set_key
length-set_key [] i k = refl
length-set_key ((a, w) ∷ s) zero k = refl
length-set_key ((a, w) ∷ s) (suc i) k = ground (arith, length-set_key s i k)
