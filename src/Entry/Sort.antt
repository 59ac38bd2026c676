-- ===== src/Entry/Sort.antt =====
-- Sorting keeps the pairs, and orders an array of distinct keys strictly.
use epli.Prelude.{
  ℕ, suc, ◌≤◌, ◌≡◌, refl, arith, List, [], ◌∷◌, some, ◌==◌, leb, if◌then◌else◌, length, Bool-cases,
  inl, inr,
}
use epli.Entry.{Kv, insert_kv, sort_kvs}
use epli.Entry.Slots.{lookup, count}

lookup-insert_kv :
    (k v j : ℕ) (s : List Kv)
    → lookup (insert_kv (k, v) s) j ≡ (if k == j then some v else lookup s j)
unfolding insert_kv
lookup-insert_kv k v j [] = refl
lookup-insert_kv k v j ((a, w) ∷ s) = ground (arith, lookup-insert_kv k v j s)

count-insert_kv :
    (k v j : ℕ) (s : List Kv)
    → count j (insert_kv (k, v) s) ≡ (if k == j then suc (count j s) else count j s)
unfolding insert_kv
count-insert_kv k v j [] = refl
count-insert_kv k v j ((a, w) ∷ s) = ground (arith, count-insert_kv k v j s)

length-insert_kv : (x : Kv) (s : List Kv) → length (insert_kv x s) ≡ suc (length s)
unfolding insert_kv
length-insert_kv x [] = refl
length-insert_kv x ((a, w) ∷ s) = ground (arith, length-insert_kv x s)

pub lookup-sort : (s : List Kv) (j : ℕ) → lookup (sort_kvs s) j ≡ lookup s j
unfolding sort_kvs
lookup-sort [] j = refl
lookup-sort ((k, v) ∷ s) j = rw (lookup-insert_kv k v j (sort_kvs s), lookup-sort s j)

pub count-sort : (s : List Kv) (j : ℕ) → count j (sort_kvs s) ≡ count j s
unfolding sort_kvs
count-sort [] j = refl
count-sort ((k, v) ∷ s) j = rw (count-insert_kv k v j (sort_kvs s), count-sort s j)

pub length-sort : (s : List Kv) → length (sort_kvs s) ≡ length s
unfolding sort_kvs
length-sort [] = refl
length-sort (x ∷ s) = rw (length-insert_kv, length-sort s)

-- The keys grow strictly, from `lo` on.
abbrev pub Ascending : ℕ → List Kv → Type 0
Ascending lo [] = Unit {0}
Ascending lo ((k, v) ∷ s) = (lo ≤ k) × Ascending (suc k) s

insert_kv-Ascending :
    (k v lo : ℕ) (s : List Kv)
    → Ascending lo s
    → lo ≤ k
    → count k s ≡ 0
    → Ascending lo (insert_kv (k, v) s)
unfolding insert_kv
insert_kv-Ascending k v lo [] h le c = (le, tt)
insert_kv-Ascending k v lo ((a, w) ∷ s) h le c = elim (Bool-cases (leb k a)) [
  | inl e ↦ rw e (le, (ground arith, h.1))
  | inr e ↦ rw e (h.0, insert_kv-Ascending k v (suc a) s h.1 (ground arith) (ground arith))
]

-- The sort puts pairs with distinct keys in strictly ascending order.
pub sort-Ascending : (s : List Kv) → ((k : ℕ) → count k s ≤ 1) → Ascending 0 (sort_kvs s)
unfolding sort_kvs
sort-Ascending [] u = tt
sort-Ascending ((k, v) ∷ s) u =
    insert_kv-Ascending k v 0 (sort_kvs s) (sort-Ascending s (λ j. ground (arith, u j)))
      (omega arith) (rw (count-sort s k) (ground (arith, u k)))
