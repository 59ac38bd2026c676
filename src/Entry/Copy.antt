-- ===== src/Entry/Copy.antt =====
-- The loops that copy the front of one array into zeroed bytes.
use epli.Prelude.{
  ℕ, zero, suc, ◌-◌, ◌≤◌, ◌<◌, ◌≡◌, ◌≢◌, refl, arith, ap, List, [], ◌∷◌, ◌++◌, ◌∙◌, replicate,
  length, take, drop,
}
use epli.Entry.{Kv, kvs_per_entry, zeroed, copy_kvs}
use epli.Entry.Slots.{lookup, count, lookup-append, lookup-replicate, count-append, count-replicate}

pub copy_kvs-take :
    (to from : List Kv) (n : ℕ)
    → n ≤ length to
    → n ≤ length from
    → copy_kvs to from n ≡ take n from ++ drop n to
unfolding copy_kvs
copy_kvs-take to from zero h k = refl
copy_kvs-take [] from (suc n) h k = absurd (omega arith)
copy_kvs-take (d ∷ to) [] (suc n) h k = absurd (omega arith)
copy_kvs-take (d ∷ to) ((j, w) ∷ from) (suc n) h k =
    ap (λ (r : List Kv). (j, w) ∷ r) (copy_kvs-take to from n (omega arith) (omega arith))

pub length-copy_kvs : (to from : List Kv) (n : ℕ) → length (copy_kvs to from n) ≡ length to
unfolding copy_kvs
length-copy_kvs to from zero = refl
length-copy_kvs [] from (suc n) = refl
length-copy_kvs (d ∷ to) [] (suc n) = refl
length-copy_kvs (d ∷ to) ((j, w) ∷ from) (suc n) = ap suc (length-copy_kvs to from n)

drop-replicate : (n m : ℕ) (x : Kv) → drop n (replicate m x) ≡ replicate (m - n) x
drop-replicate zero m x = rw (let e : m - 0 ≡ m = omega arith in e)
drop-replicate (suc n) zero x = rw (let e : 0 - suc n ≡ 0 = omega arith in e)
drop-replicate (suc n) (suc m) x =
    drop-replicate n m x ∙ ap (λ (d : ℕ). replicate d x) (omega arith)

module _ (from : List Kv) (n : ℕ) (fits : n ≤ kvs_per_entry) (full : n ≤ length from) where
  copy_zeroed : copy_kvs zeroed from n ≡ take n from ++ replicate (kvs_per_entry - n) (0, 0)
  copy_zeroed = rw (← drop-replicate n kvs_per_entry (0, 0)) (copy_kvs-take zeroed from n fits full)

  -- A valid key is in the new array where it is in the part that was copied.
  pub lookup-copy_zeroed :
      (k : ℕ) → k ≢ 0 → lookup (copy_kvs zeroed from n) k ≡ lookup (take n from) k
  lookup-copy_zeroed k nz = rw (copy_zeroed, lookup-append, lookup-replicate _ k nz) (ground arith)

  pub count-copy_zeroed : (k : ℕ) → k ≢ 0 → count k (copy_kvs zeroed from n) ≡ count k (take n from)
  count-copy_zeroed k nz = rw (copy_zeroed, count-append, count-replicate _ k nz) (omega arith)

  -- Where the copied part does not fill the array, a slot is empty.
  pub count_empty-copy_zeroed : n < kvs_per_entry → count 0 (copy_kvs zeroed from n) ≢ 0
  count_empty-copy_zeroed lt =
      let e : kvs_per_entry - n ≡ suc (kvs_per_entry - suc n) = omega arith in
      rw (copy_zeroed, count-append, e) (omega arith)
