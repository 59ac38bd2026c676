-- ===== src/Entry/At.antt =====
-- Reads and writes of one slot of an array of pairs, by its position.
use epli.Prelude.{
  ℕ, zero, suc, ◌+◌, ◌≤◌, ◌<◌, ◌≡◌, ◌≢◌, refl, arith, List, [], ◌∷◌, none, some, ◌==◌,
  if◌then◌else◌, get_or, length, take,
}
use epli.Entry.{Kv, set_key, set_val}
use epli.Entry.Slots.{lookup, count, lookup-eq-none}

abbrev pub key_at : List Kv → ℕ → ℕ
key_at s i = (get_or s i (0, 0)).0

abbrev pub val_at : List Kv → ℕ → ℕ
val_at s i = (get_or s i (0, 0)).1

pub lt_of_key : (s : List Kv) (i : ℕ) → key_at s i ≢ 0 → i < length s
lt_of_key [] i h = absurd (h refl)
lt_of_key (x ∷ s) zero h = omega arith
lt_of_key (x ∷ s) (suc i) h = omega (arith, lt_of_key s i h)

pub key_at-set_key :
    (s : List Kv) (i j k : ℕ)
    → i < length s
    → key_at (set_key s i k) j ≡ (if j == i then k else key_at s j)
unfolding set_key
key_at-set_key [] i j k lt = absurd (omega arith)
key_at-set_key ((a, w) ∷ s) zero zero k lt = refl
key_at-set_key ((a, w) ∷ s) zero (suc j) k lt = ground arith
key_at-set_key ((a, w) ∷ s) (suc i) zero k lt = ground arith
key_at-set_key ((a, w) ∷ s) (suc i) (suc j) k lt = ground (arith, key_at-set_key s i j k)

pub key_at-set_val : (s : List Kv) (i j v : ℕ) → key_at (set_val s i v) j ≡ key_at s j
unfolding set_val
key_at-set_val [] i j v = refl
key_at-set_val ((a, w) ∷ s) zero zero v = refl
key_at-set_val ((a, w) ∷ s) zero (suc j) v = refl
key_at-set_val ((a, w) ∷ s) (suc i) zero v = refl
key_at-set_val ((a, w) ∷ s) (suc i) (suc j) v = key_at-set_val s i j v

pub val_at-set_val : (s : List Kv) (i v : ℕ) → i < length s → val_at (set_val s i v) i ≡ v
unfolding set_val
val_at-set_val [] i v lt = absurd (omega arith)
val_at-set_val ((a, w) ∷ s) zero v lt = refl
val_at-set_val ((a, w) ∷ s) (suc i) v lt = val_at-set_val s i v (omega arith)

-- A key that is not among the first `j` slots, nor in the next one.
pub count-take-suc :
    (k : ℕ) (s : List Kv) (j : ℕ)
    → k ≢ 0
    → count k (take j s) ≡ 0
    → key_at s j ≢ k
    → count k (take (suc j) s) ≡ 0
count-take-suc k [] zero nk h n = refl
count-take-suc k [] (suc j) nk h n = refl
count-take-suc k ((a, w) ∷ s) zero nk h n = ground arith
count-take-suc k ((a, w) ∷ s) (suc j) nk h n = ground (arith, count-take-suc k s j)

pub take-all : (s : List Kv) (j : ℕ) → length s ≤ j → take j s ≡ s
take-all [] zero le = refl
take-all [] (suc j) le = refl
take-all (x ∷ s) zero le = absurd (omega arith)
take-all (x ∷ s) (suc j) le = rw (take-all s j (omega arith)) refl

-- A key that stands in one slot, and nowhere else.
pub lookup-key_at :
    (k : ℕ) (s : List Kv) (i : ℕ)
    → k ≢ 0
    → key_at s i ≡ k
    → count k s ≤ 1
    → lookup s k ≡ some (val_at s i)
lookup-key_at k [] i nk h u = absurd (nk (cc))
lookup-key_at k ((a, w) ∷ s) zero nk h u = ground arith
lookup-key_at k ((a, w) ∷ s) (suc i) nk h u =
    ground (arith, lookup-key_at k s i, lookup-eq-none s k)

module _ (j : ℕ) (nj : j ≢ 0) where
  -- The value of a slot without a key changes nothing.
  pub lookup-set_val_empty :
      (s : List Kv) (i v : ℕ) → key_at s i ≡ 0 → lookup (set_val s i v) j ≡ lookup s j
  unfolding set_val
  lookup-set_val_empty [] i v h = refl
  lookup-set_val_empty ((a, w) ∷ s) zero v h = ground arith
  lookup-set_val_empty ((a, w) ∷ s) (suc i) v h = ground (arith, lookup-set_val_empty s i v)

  pub lookup-set_val_at :
      (k v : ℕ) (s : List Kv) (i : ℕ)
      → k ≢ 0
      → key_at s i ≡ k
      → count k s ≤ 1
      → lookup (set_val s i v) j ≡ (if j == k then some v else lookup s j)
  unfolding set_val
  lookup-set_val_at k v [] i nk h u = absurd (nk (cc))
  lookup-set_val_at k v ((a, w) ∷ s) zero nk h u = ground arith
  lookup-set_val_at k v ((a, w) ∷ s) (suc i) nk h u =
      ground (arith, lookup-set_val_at k v s i, lookup-key_at k s i, lookup-eq-none s k)

  -- The key of a slot without one is set: the value was there before.
  pub lookup-set_key_empty :
      (k : ℕ) (s : List Kv) (i : ℕ)
      → k ≢ 0
      → i < length s
      → key_at s i ≡ 0
      → count k s ≡ 0
      → lookup (set_key s i k) j ≡ (if j == k then some (val_at s i) else lookup s j)
  unfolding set_key
  lookup-set_key_empty k [] i nk lt h u = absurd (omega arith)
  lookup-set_key_empty k ((a, w) ∷ s) zero nk lt h u = ground arith
  lookup-set_key_empty k ((a, w) ∷ s) (suc i) nk lt h u = ground (arith, lookup-set_key_empty k s i)

  pub count-set_key_empty :
      (k : ℕ) (s : List Kv) (i : ℕ)
      → i < length s
      → key_at s i ≡ 0
      → count j (set_key s i k) ≡ (if j == k then count j s + 1 else count j s)
  unfolding set_key
  count-set_key_empty k [] i lt h = absurd (omega arith)
  count-set_key_empty k ((a, w) ∷ s) zero lt h = ground arith
  count-set_key_empty k ((a, w) ∷ s) (suc i) lt h = ground (arith, count-set_key_empty k s i)

  pub lookup-clear_at :
      (k : ℕ) (s : List Kv) (i : ℕ)
      → k ≢ 0
      → key_at s i ≡ k
      → count k s ≤ 1
      → lookup (set_key s i 0) j ≡ (if j == k then none else lookup s j)
  unfolding set_key
  lookup-clear_at k [] i nk h u = absurd (nk (cc))
  lookup-clear_at k ((a, w) ∷ s) zero nk h u = ground (arith, lookup-eq-none s k)
  lookup-clear_at k ((a, w) ∷ s) (suc i) nk h u =
      ground (arith, lookup-clear_at k s i, lookup-key_at k s i, lookup-eq-none s k)
