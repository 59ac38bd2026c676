-- ===== src/Entry/Sorted.antt =====
-- Cutting a strictly sorted array at a position cuts the keys at the key of that position.
use epli.Prelude.{
  ℕ, zero, suc, ◌≤◌, ◌<◌, ◌≡◌, refl, arith, List, [], ◌∷◌, none, some, ltb, if◌then◌else◌, length,
  take, drop, get_or,
}
use epli.Entry.{Kv}
use epli.Entry.Slots.{lookup, count}
use epli.Entry.Sort.{Ascending}

pub lookup_below : (lo j : ℕ) (s : List Kv) → Ascending lo s → j < lo → lookup s j ≡ none
lookup_below lo j [] h lt = refl
lookup_below lo j ((k, v) ∷ s) h lt = ground (arith, lookup_below (suc k) j s h.1 (omega arith))

pub pivot-ge : (lo n : ℕ) (s : List Kv) → Ascending lo s → n < length s → lo ≤ (get_or s n (0, 0)).0
pivot-ge lo n [] h lt = absurd (omega arith)
pivot-ge lo zero ((k, v) ∷ s) h lt = h.0
pivot-ge lo (suc n) ((k, v) ∷ s) h lt = omega (arith, pivot-ge (suc k) n s h.1 (omega arith))

pub lookup-pivot :
    (lo n : ℕ) (s : List Kv)
    → Ascending lo s
    → n < length s
    → lookup s (get_or s n (0, 0)).0 ≡ some (get_or s n (0, 0)).1
lookup-pivot lo n [] h lt = absurd (omega arith)
lookup-pivot lo zero ((k, v) ∷ s) h lt = ground arith
lookup-pivot lo (suc n) ((k, v) ∷ s) h lt =
    ground
      (arith, lookup-pivot (suc k) n s h.1 (omega arith), pivot-ge (suc k) n s h.1 (omega arith))

pub lookup-take :
    (lo n j : ℕ) (s : List Kv)
    → Ascending lo s
    → n < length s
    → lookup (take n s) j ≡ (if ltb j (get_or s n (0, 0)).0 then lookup s j else none)
lookup-take lo n j [] h lt = absurd (omega arith)
lookup-take lo zero j ((k, v) ∷ s) h lt = ground (arith, lookup_below (suc k) j s h.1)
lookup-take lo (suc n) j ((k, v) ∷ s) h lt =
    ground
      (arith, lookup-take (suc k) n j s h.1 (omega arith), pivot-ge (suc k) n s h.1 (omega arith))

pub lookup-drop :
    (lo n j : ℕ) (s : List Kv)
    → Ascending lo s
    → n < length s
    → lookup (drop n s) j ≡ (if ltb j (get_or s n (0, 0)).0 then none else lookup s j)
lookup-drop lo n j [] h lt = absurd (omega arith)
lookup-drop lo zero j ((k, v) ∷ s) h lt = ground (arith, lookup_below (suc k) j s h.1)
lookup-drop lo (suc n) j ((k, v) ∷ s) h lt =
    ground
      (arith, lookup-drop (suc k) n j s h.1 (omega arith), pivot-ge (suc k) n s h.1 (omega arith))

pub count-take-le : (n j : ℕ) (s : List Kv) → count j (take n s) ≤ count j s
count-take-le zero j s = omega arith
count-take-le (suc n) j [] = omega arith
count-take-le (suc n) j ((k, v) ∷ s) = ground (arith, count-take-le n j s)

pub count-drop-le : (n j : ℕ) (s : List Kv) → count j (drop n s) ≤ count j s
count-drop-le zero j s = omega arith
count-drop-le (suc n) j [] = omega arith
count-drop-le (suc n) j ((k, v) ∷ s) = ground (arith, count-drop-le n j s)

-- The first key is the smallest.
pub first-lt-pivot :
    (lo n : ℕ) (s : List Kv)
    → Ascending lo s
    → 0 < n
    → n < length s
    → (get_or s 0 (0, 0)).0 < (get_or s n (0, 0)).0
first-lt-pivot lo n [] h pos lt = absurd (omega arith)
first-lt-pivot lo zero ((k, v) ∷ s) h pos lt = absurd (omega arith)
first-lt-pivot lo (suc n) ((k, v) ∷ s) h pos lt = pivot-ge (suc k) n s h.1 (omega arith)
