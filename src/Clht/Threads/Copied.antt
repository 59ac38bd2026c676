-- ===== src/Clht/Threads/Copied.antt =====
-- The pairs that `bucket_cpy` takes from a bin, for `clht_put_seq` to store in the new table.
use epli.Prelude.{
  ℕ, zero, suc, ◌<◌, ◌≡◌, ◌≢◌, refl, arith, List, [], ◌∷◌, ◌++◌, ◌==◌, if◌then◌else◌, length, take,
}
use epli.Entry.{Kv}
use epli.Entry.At.{key_at, val_at}
use epli.Entry.Slots.{lookup}

-- The pairs with a valid key.
abbrev pub valid_pairs : List Kv → List Kv
valid_pairs [] = []
valid_pairs ((k, v) ∷ s) = if k == 0 then valid_pairs s else (k, v) ∷ valid_pairs s

pub valid_pairs-take-suc :
    (s : List Kv) (j : ℕ)
    → j < length s
    → valid_pairs (take (suc j) s) ≡ (
        if key_at s j == 0
        then valid_pairs (take j s)
        else valid_pairs (take j s) ++ (key_at s j, val_at s j) ∷ [])
valid_pairs-take-suc [] j lt = absurd (omega arith)
valid_pairs-take-suc ((k, v) ∷ s) zero lt = ground arith
valid_pairs-take-suc ((k, v) ∷ s) (suc j) lt =
    ground (arith, valid_pairs-take-suc s j (omega arith))

pub lookup-valid_pairs : (s : List Kv) (j : ℕ) → j ≢ 0 → lookup (valid_pairs s) j ≡ lookup s j
lookup-valid_pairs [] j nj = refl
lookup-valid_pairs ((k, v) ∷ s) j nj = ground (arith, lookup-valid_pairs s j nj)
