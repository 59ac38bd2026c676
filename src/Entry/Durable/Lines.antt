-- ===== src/Entry/Durable/Lines.antt =====
-- One slot of the array in the cache and in the memory: what a store and a line's copy do to it.
use epli.Prelude.{
  ℕ, zero, suc, ◌+◌, ◌≡◌, refl, arith, List, [], ◌∷◌, ◌==◌, if◌then◌else◌, ap, subst,
}
use epli.Entry.{Kv, set_key, set_val}
use epli.Entry.At.{key_at, val_at}
use epli.Entry.Durable.{line, key_offset, val_offset, copy_line}

-- The array with a pair at a slot.
unfoldable pub put_at : List Kv → ℕ → Kv → List Kv
unfolding set_key set_val
put_at s i p = set_key (set_val s i p.1) i p.0

pub put_at_same : (s : List Kv) (i : ℕ) → put_at s i (key_at s i, val_at s i) ≡ s
unfolding put_at set_key set_val
put_at_same [] i = refl
put_at_same ((a, w) ∷ s) zero = refl
put_at_same ((a, w) ∷ s) (suc i) = ground (arith, put_at_same s i)

pub set_val-put_at :
    (s : List Kv) (i v : ℕ) (p : Kv) → set_val (put_at s i p) i v ≡ put_at s i (p.0, v)
unfolding put_at set_key set_val
set_val-put_at [] i v p = refl
set_val-put_at ((a, w) ∷ s) zero v p = refl
set_val-put_at ((a, w) ∷ s) (suc i) v p = ground (arith, set_val-put_at s i v p)

pub set_key-put_at :
    (s : List Kv) (i k : ℕ) (p : Kv) → set_key (put_at s i p) i k ≡ put_at s i (k, p.1)
unfolding put_at set_key set_val
set_key-put_at [] i k p = refl
set_key-put_at ((a, w) ∷ s) zero k p = refl
set_key-put_at ((a, w) ∷ s) (suc i) k p = ground (arith, set_key-put_at s i k p)

pub copy_line_same : (l n : ℕ) (s : List Kv) → copy_line l n s s ≡ s
unfolding copy_line
copy_line_same l n [] = refl
copy_line_same l n ((a, w) ∷ s) = ground (arith, copy_line_same l (suc n) s)

-- What a copied line makes of the slot: its words that stand in the line.
abbrev pub merge : (l i : ℕ) → (p q : Kv) → Kv
merge l i p q =
    (if line (key_offset i) == l then p.0 else q.0, if line (val_offset i) == l then p.1 else q.1)

module _ (l m : ℕ) (p q : Kv) where
  pub copy_line-put_at :
      (n : ℕ) (s : List Kv) (i : ℕ)
      → n + i ≡ m
      → copy_line l n (put_at s i p) (put_at s i q) ≡ put_at s i (merge l m p q)
  unfolding copy_line put_at set_key set_val
  copy_line-put_at n [] i h = refl
  copy_line-put_at n ((a, w) ∷ s) zero h =
      subst
        (λ x.
          copy_line l n (put_at ((a, w) ∷ s) 0 p) (put_at ((a, w) ∷ s) 0 q)
          ≡ put_at ((a, w) ∷ s) 0 (merge l x p q))
        (omega arith) (ap (λ t. merge l n p q ∷ t) (copy_line_same l (suc n) s))
  copy_line-put_at n ((a, w) ∷ s) (suc i) h = ground (arith, copy_line-put_at (suc n) s i)
