-- ===== src/Clht/Status.antt =====
-- What `ht_status` decides after a put, and what it leaves of the table.
use native.Mathlib.Nat.{pow-suc}
use epli.Prelude.{
  ℕ, zero, suc, ◌-◌, ◌*◌, ◌/◌, ◌^◌, ◌≤◌, ◌<◌, ◌≡◌, ◌⊎◌, refl, arith, some, Bool, true, false, leb,
  length, ltb, ◌&&◌, ◌||◌, Bool-cases, inl, inr,
}
use epli.Clht.{Bucket, Hashtable, clht_hash, chain_of, with_chain, entries_per_bucket}
use epli.Clht.Table.{IsTable}
use epli.Clht.Victim.{eliminate}
use epli.Clht.Resize.{
  table_size, expands_max, growth, decide_status, Decision, shrink, grow, keep, max_bucket_size,
  finish_resize, ht_status_put,
}
use epli.Clht.Resized.{IsSized, Keeps, ht_resize-Keeps, with_chain-Keeps}
use epli.Clht.Smear.{growth-power, exponent-lt}
use epli.Clht.Growth.{growth-bounds}
use epli.Clht.Submap.{eliminate-SubOf}
use epli.Clht.Eliminated.{is_eliminated, in_coldest, eliminate-lookup, grown_keeps}

Decision-cases : (d : Decision) → (d ≡ shrink) ⊎ ((d ≡ grow) ⊎ (d ≡ keep))
Decision-cases shrink = inl refl
Decision-cases grow = inr (inl refl)
Decision-cases keep = inr (inr refl)

decide_shrink :
    (inc : Bool) (size n e : ℕ)
    → decide_status inc size n e ≡ shrink
    → (0 < size) × (100 * size < 5 * (n * entries_per_bucket))
unfolding decide_status
decide_shrink inc size n e h =
    elim (Bool-cases (ltb 0 size && ltb (100 * size) (5 * (n * entries_per_bucket)))) [
      | inl q ↦ ground arith
      | inr q ↦
          elim (Bool-cases (ltb (50 * (n * entries_per_bucket)) (100 * size) || ltb 12 e || inc)) [
            | inl r ↦ let h' : grow ≡ shrink = rw (q, r) at h in cc
            | inr r ↦ let h' : keep ≡ shrink = rw (q, r) at h in cc
          ]
    ]

decide_grow :
    (inc : Bool) (size n e : ℕ) → decide_status inc size n e ≡ grow → 0 < size → 15 * n ≤ 100 * size
unfolding decide_status
decide_grow inc size n e h pos =
    elim (Bool-cases (ltb (100 * size) (5 * (n * entries_per_bucket)))) [
      | inr q ↦ ground arith
      | inl q ↦
          let some_size : ltb 0 size ≡ true = ground arith in
          let h' : shrink ≡ grow = rw (some_size, q) at h in cc
    ]

-- The shrunk table has a power of two of buckets again.
shrunk-IsSized :
    (size n : ℕ) → IsSized n → 0 < size → 100 * size < 15 * n → (0 < n / 8) × IsSized (n / 8)
shrunk-IsSized size n ((w, e), few) pos small =
    let some_bits : 2 < w = exponent-lt 2 w (omega arith) in
    let v = w - 3 in
    let back : suc (suc (suc v)) ≡ w = omega arith in
    let n_eq : n ≡ 2 ^ suc (suc (suc v)) = rw back e in
    let eighth : n / 8 ≡ 2 ^ v =
      omega (arith, n_eq, pow-suc 2 v, pow-suc 2 (suc v), pow-suc 2 (suc (suc v))) in
    (omega arith, ((v, eighth), omega arith))

times-power : (u w a b : ℕ) → a ≡ 2 ^ u → b ≡ 2 ^ w → (t : ℕ) × (a * b ≡ 2 ^ t)
times-power zero w a b p q = let one : a ≡ 1 = omega arith in (w, rw one (omega arith))
times-power (suc u) w a b p q =
    let (t, h) = times-power u w (2 ^ u) b refl q in
    let double : a * b ≡ 2 * (2 ^ u * b) = rw (p, pow-suc 2 u) (grind arith) in
    (suc t, omega (arith, double, h, pow-suc 2 t))

grown-IsSized :
    (size n : ℕ)
    → IsSized n
    → 0 < n
    → size < 2 ^ 20
    → 15 * n ≤ 100 * size
    → IsSized (growth size n * n)
grown-IsSized size n ((w, e), few) pos small full =
    let (u, g) = growth-power size n (omega arith) in
    let bound = (growth-bounds size n 0 pos few small (omega arith)).2 in
    (times-power u w (growth size n) n g e, omega (arith, bound))

-- More keys may be gone.
Keeps-gone :
    (old new : Hashtable) (g g' : ℕ → Bool)
    → ((j : ℕ) → g j ≡ true → g' j ≡ true)
    → Keeps g old new
    → Keeps g' old new
Keeps-gone old new g g' le k = record {
  table = k.table;
  reads = λ j nj. elim (k.reads j nj) [ inl (h, z) ↦ inl (le j h, z) | inr h ↦ inr h ];
}

-- After a put the table is resized, or the coldest bucket of the chain is emptied, or neither.
pub ht_status_put-Keeps :
    (fuel : ℕ) (raw : Hashtable → Bucket) (ht : Hashtable) (k lt : ℕ)
    → ((t : Hashtable) → length (raw t).slots ≡ entries_per_bucket)
    → IsTable ht
    → IsSized ht.num_buckets
    → 0 < table_size ht.table
    → (new : Hashtable) × (ht_status_put fuel raw (clht_hash ht k) lt ht ≡ some new)
      × Keeps (is_eliminated ht (clht_hash ht k) lt) ht new
      × IsSized new.num_buckets
unfolding ht_status_put finish_resize is_eliminated
ht_status_put-Keeps fuel raw ht k lt full v sized pos =
    let size = table_size ht.table in
    let n = ht.num_buckets in
    elim (Decision-cases (decide_status true size n (expands_max ht.table))) [
      | inl e ↦
          let small = (decide_shrink true size n (expands_max ht.table) e).1 in
          let (room, sized') = shrunk-IsSized size n sized pos (omega (arith, small)) in
          let (new, made, keeps, same) =
            ht_resize-Keeps raw false 33 lt (n / 8) ht full v refl room (omega (arith, sized'.1))
              (omega (arith, small, sized.1)) (λ x le. omega (arith, small, room)) in
          (
            new,
            rw (e, made, ht_status_put),
            Keeps-gone ht new _ _ (λ j h. rw (e, is_eliminated) h) keeps,
            rw same sized',
          )
      | inr (inl e) ↦ elim (Bool-cases (leb max_bucket_size size)) [
        | inl q ↦ (
          with_chain ht (clht_hash ht k) (eliminate (chain_of ht (clht_hash ht k))),
          rw (e, q, ht_status_put),
          Keeps-gone ht _ _ _ (λ j h. rw (e, q, is_eliminated) h)
              (with_chain-Keeps ht v k _ (eliminate-SubOf (chain_of ht (clht_hash ht k)))
                (in_coldest (chain_of ht (clht_hash ht k)))
                (λ j nj h. eliminate-lookup j (chain_of ht (clht_hash ht k)) nj h)),
          sized,
        )
        | inr q ↦
            let by = growth size n in
            let small : size < 2 ^ 20 = ground arith in
            let sized' =
              grown-IsSized size n sized v.some_buckets small
                (decide_grow true size n (expands_max ht.table) e pos) in
            let room = λ (x : ℕ) (le : 3 * x ≤ size).
              (growth-bounds size n x v.some_buckets sized.1 small le).0 in
            let (new, made, keeps, same) =
              ht_resize-Keeps raw true by 0 (by * n) ht full v (omega (arith, sized'.1))
                (omega (arith, room 0 (omega arith))) (omega (arith, sized'.1)) (omega arith)
                room in
            (
              new,
              rw (e, q, made, ht_status_put),
              Keeps-gone ht new _ _ (λ j h. absurd (cc (h, grown_keeps 0 j ht.table))) keeps,
              rw same sized',
            )
      ]
      | inr (inr e) ↦
          (ht, rw (e, ht_status_put), record { table = v; reads = λ j nj. inr refl }, sized)
    ]
