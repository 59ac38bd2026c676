-- ===== src/Entry/Ordered.antt =====
-- A sorted array that may hold the invalid key several times, as `std::sort` leaves `tmp_kvs`, and its parts.
use epli.Prelude.{
  ℕ, zero, suc, ◌≤◌, ◌<◌, ◌≡◌, ◌≢◌, refl, arith, List, [], ◌∷◌, none, leb, take, Bool-cases, inl,
  inr, ◌⊎◌,
}
use epli.Entry.{Kv, insert_kv, sort_kvs}
use epli.Entry.Slots.{lookup}

-- The keys do not fall, from `lo` on.
abbrev pub Ordered : ℕ → List Kv → Type 0
Ordered lo [] = Unit {0}
Ordered lo ((k, v) ∷ s) = (lo ≤ k) × Ordered k s

insert_kv-Ordered :
    (k v lo : ℕ) (s : List Kv) → Ordered lo s → lo ≤ k → Ordered lo (insert_kv (k, v) s)
unfolding insert_kv
insert_kv-Ordered k v lo [] o le = (le, tt)
insert_kv-Ordered k v lo ((j, w) ∷ s) o le = elim (Bool-cases (leb k j)) [
  | inl e ↦ rw e (le, (ground arith, o.1))
  | inr e ↦ rw e (o.0, insert_kv-Ordered k v j s o.1 (ground arith))
]

pub sort-Ordered : (s : List Kv) → Ordered 0 (sort_kvs s)
unfolding sort_kvs
sort-Ordered [] = tt
sort-Ordered ((k, v) ∷ s) = insert_kv-Ordered k v 0 (sort_kvs s) (sort-Ordered s) (omega arith)

pub lookup-Ordered : (lo j : ℕ) (s : List Kv) → Ordered lo s → lookup s j ≢ none → lo ≤ j
lookup-Ordered lo j [] o h = absurd (h refl)
lookup-Ordered lo j ((k, v) ∷ s) o h = ground (arith, lookup-Ordered k j s o.1)

pub lookup-take :
    (n j : ℕ) (s : List Kv) → (lookup (take n s) j ≡ none) ⊎ (lookup (take n s) j ≡ lookup s j)
lookup-take zero j s = inl refl
lookup-take (suc n) j [] = inl refl
lookup-take (suc n) j ((k, v) ∷ s) = ground (arith, lookup-take n j s)

pub take-Ordered : (lo n : ℕ) (s : List Kv) → Ordered lo s → Ordered lo (take n s)
take-Ordered lo zero s o = tt
take-Ordered lo (suc n) [] o = tt
take-Ordered lo (suc n) ((k, v) ∷ s) o = (o.0, take-Ordered k n s o.1)

-- A key that the first pairs leave out is not below any of theirs.
pub take_least :
    (lo n j x : ℕ) (s : List Kv)
    → Ordered lo s
    → lookup s j ≢ none
    → lookup (take n s) j ≡ none
    → lookup (take n s) x ≢ none
    → x < j
take_least lo zero j x s o h out here = absurd (here refl)
take_least lo (suc n) j x [] o h out here = absurd (here refl)
take_least lo (suc n) j x ((k, v) ∷ s) o h out here =
    ground (arith, take_least k n j x s o.1, lookup-Ordered k j s o.1)
