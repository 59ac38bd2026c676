-- ===== src/Clht/Grow.antt =====
-- A resize that grows the table keeps what it holds.
use epli.Prelude.{
  ℕ, zero, suc, ◌+◌, ◌*◌, ◌-◌, ◌%◌, ◌^◌, ◌≤◌, ◌<◌, ◌≡◌, ◌≢◌, refl, arith, List, [], ◌∷◌, ◌++◌, none,
  some, Bool, true, false, ◌==◌, if◌then◌else◌, get_or, length, replicate, or_else, Bool-cases,
  Option-cases, inl, inr, ap, ◌∙◌, sym, ==→eq, leb, length-replicate,
}
use epli.Entry.{Kv}
use epli.Entry.Slots.{lookup, count, lookup-append, count-append, lookup-eq-none}
use epli.Clht.{
  Bucket, Hashtable, entries_per_bucket, put_bin, clht_hash, hashtable_create, zero_bucket,
}
use epli.Clht.Chain.{flat}
use epli.Clht.Table.{IsTable, Sets, ht_lookup, put_bin-Sets}
use epli.Clht.Resize.{copy_slots, bucket_cpy, copy_table, ht_resize, table_size}
use epli.Clht.Packed.{Packed, fresh-Packed, fresh-size}

-- The slots of all the chains.
abbrev pub flats : List (List Bucket) → List Kv
flats [] = []
flats (c ∷ cs) = flat c ++ flats cs

pub copy_slots-append :
    (raw : Hashtable → Bucket) (s r : List Kv) (ht : Hashtable)
    → copy_slots raw (s ++ r) ht ≡ copy_slots raw r (copy_slots raw s ht)
unfolding copy_slots
copy_slots-append raw [] r ht = refl
copy_slots-append raw ((k, v) ∷ s) r ht = copy_slots-append raw s r _

bucket_cpy-flat :
    (raw : Hashtable → Bucket) (lt : ℕ) (c : List Bucket) (ht : Hashtable)
    → bucket_cpy raw true lt c ht ≡ copy_slots raw (flat c) ht
unfolding bucket_cpy
bucket_cpy-flat raw lt [] ht = unfold copy_slots in refl
bucket_cpy-flat raw lt (b ∷ c) ht =
    bucket_cpy-flat raw lt c _ ∙ sym (copy_slots-append raw b.slots (flat c) ht)

copy_table-flats :
    (raw : Hashtable → Bucket) (lt : ℕ) (cs : List (List Bucket)) (ht : Hashtable)
    → copy_table raw true lt cs ht ≡ copy_slots raw (flats cs) ht
unfolding copy_table
copy_table-flats raw lt [] ht = unfold copy_slots in refl
copy_table-flats raw lt (c ∷ cs) ht =
    copy_table-flats raw lt cs _
    ∙ ap (copy_slots raw (flats cs)) (bucket_cpy-flat raw lt c ht)
    ∙ sym (copy_slots-append raw (flat c) (flats cs) ht)

-- The table with the slots added.
pub record Adds (s : List Kv) (ht r : Hashtable) : Type 0 where
  pub table : IsTable r
  pub reads : (j : ℕ) → j ≢ 0 → ht_lookup r j ≡ or_else (ht_lookup ht j) (lookup s j)

module _ (k w : ℕ) (s : List Kv) (ht p : Hashtable) (e : (k == 0) ≡ false)
    (few : (j : ℕ) → j ≢ 0 → count j ((k, w) ∷ s) ≤ 1)
    (apart : (j : ℕ) → j ≢ 0 → ht_lookup ht j ≢ none → lookup ((k, w) ∷ s) j ≡ none)
    (put : Sets ht k (some w) p) where
  still_apart : (j : ℕ) → j ≢ 0 → ht_lookup p j ≢ none → lookup s j ≡ none
  still_apart j nj h = elim (Bool-cases (j == k)) [
    | inl q ↦ lookup-eq-none s j (ground (arith, few j nj))
    | inr q ↦
        let same : ht_lookup p j ≡ ht_lookup ht j = put.reads j nj ∙ rw q in
        let gone = apart j nj (λ n. h (same ∙ n)) in ground arith
  ]

  added_reads :
      (j : ℕ)
      → j ≢ 0
      → ht_lookup ht k ≡ none
      → or_else (ht_lookup p j) (lookup s j) ≡ or_else (ht_lookup ht j) (lookup ((k, w) ∷ s) j)
  added_reads j nj absent = elim (Bool-cases (j == k)) [
    | inl q ↦
        rw (put.reads j nj, q)
          (let here : ht_lookup ht j ≡ none = ap (ht_lookup ht) (==→eq j k q) ∙ absent in
            rw here (ground arith))
    | inr q ↦ rw (put.reads j nj, q) (ground arith)
  ]

pub copy_slots-Adds :
    (raw : Hashtable → Bucket) (s : List Kv) (ht : Hashtable)
    → ((t : Hashtable) → length (raw t).slots ≡ entries_per_bucket)
    → IsTable ht
    → ((j : ℕ) → j ≢ 0 → count j s ≤ 1)
    → ((j : ℕ) → j ≢ 0 → ht_lookup ht j ≢ none → lookup s j ≡ none)
    → Adds s ht (copy_slots raw s ht)
unfolding copy_slots
copy_slots-Adds raw [] ht full v few apart = record { table = v; reads = λ j nj. ground arith }
copy_slots-Adds raw ((k, w) ∷ s) ht full v few apart = elim (Bool-cases (k == 0)) [
  | inl e ↦
      let a =
        copy_slots-Adds raw s ht full v (λ j nj. ground (arith, few j nj))
          (λ j nj h. ground (arith, apart j nj h)) in
      rw e (record { table = a.table; reads = λ j nj. ground (arith, a.reads j nj) })
  | inr e ↦
      let nk : k ≢ 0 = ground arith in
      let absent : ht_lookup ht k ≡ none = elim (Option-cases (ht_lookup ht k)) [
        | inl n ↦ n
        | inr (x, m) ↦ absurd (ground (arith, apart k nk, m))
      ] in
      let p = put_bin-Sets ht v k (raw ht) w (full ht) nk absent in
      let a =
        copy_slots-Adds raw s (put_bin (raw ht) ht (clht_hash ht k) k w).0 full p.table
          (λ j nj. ground (arith, few j nj)) (still_apart k w s ht _ e few apart p) in
      rw e (record {
        table = a.table;
        reads = λ j nj. a.reads j nj ∙ added_reads k w s ht _ e few apart p j nj absent;
      })
]

flats-none :
    (cs : List (List Bucket)) (j : ℕ)
    → ((n : ℕ) → count j (flat (get_or cs n [])) ≡ 0)
    → count j (flats cs) ≡ 0
flats-none [] j none_there = refl
flats-none (c ∷ cs) j none_there = omega (
  arith,
  count-append (flat c) (flats cs) j,
  none_there zero,
  flats-none cs j (λ n. none_there (suc n)),
)

-- All the slots under a key are in its own chain.
pub flats-own :
    (cs : List (List Bucket)) (i j : ℕ)
    → ((n : ℕ) → n ≢ i → count j (flat (get_or cs n [])) ≡ 0)
    → (lookup (flats cs) j ≡ lookup (flat (get_or cs i [])) j)
      × (count j (flats cs) ≡ count j (flat (get_or cs i [])))
flats-own [] i j other = (refl, refl)
flats-own (c ∷ cs) zero j other =
    let rest = flats-none cs j (λ n. other (suc n) (omega arith)) in
    rw
      (
        lookup-append (flat c) (flats cs) j,
        count-append (flat c) (flats cs) j,
        rest,
        lookup-eq-none (flats cs) j rest,
      )
      (ground arith, omega arith)
flats-own (c ∷ cs) (suc i) j other =
    let here = other zero (omega arith) in
    let own = flats-own cs i j (λ n ne. other (suc n) (omega arith)) in
    rw
      (
        lookup-append (flat c) (flats cs) j,
        count-append (flat c) (flats cs) j,
        here,
        lookup-eq-none (flat c) j here,
      )
      (own.0, omega (arith, own.1))

fresh-count :
    (n i j : ℕ) → j ≢ 0 → count j (flat (get_or (replicate n (zero_bucket ∷ [])) i [])) ≡ 0
fresh-count zero i j nj = refl
fresh-count (suc n) zero j nj = ground arith
fresh-count (suc n) (suc i) j nj = fresh-count n i j nj

-- A new table with buckets is empty.
pub create-Empty :
    (n : ℕ)
    → 0 < n
    → (r : Hashtable) × (hashtable_create n ≡ some r)
      × ((m : ℕ) → IsTable (record r { version = m }))
      × ((m j : ℕ) → j ≢ 0 → ht_lookup (record r { version = m }) j ≡ none)
      × ((m : ℕ) → Packed (record r { version = m }))
      × (table_size r.table ≡ 0)
      × (r.num_buckets ≡ n)
      × (n < 2 ^ 32 → r.num_expands_threshold ≡ n)
unfolding hashtable_create ht_lookup
create-Empty n pos =
    let some_buckets : (n == 0) ≡ false = ground arith in
    (
      record {
        num_buckets = n;
        table = replicate n (zero_bucket ∷ []);
        hash = n - 1;
        version = 0;
        num_expands = 0;
        num_expands_threshold = if n % 2 ^ 32 == 0 then 1 else n % 2 ^ 32;
      },
      rw some_buckets,
      λ m. record {
        buckets = length-replicate n (zero_bucket ∷ []);
        some_buckets = pos;
        mask = refl;
        placed = λ j i nj. (omega (arith, fresh-count n i j nj), λ ne. fresh-count n i j nj);
      },
      λ m j nj. lookup-eq-none _ j (fresh-count n _ j nj),
      λ m. fresh-Packed n m _ pos,
      fresh-size n,
      refl,
      λ lt. ground arith,
    )

-- A resize that grows the table, where `by` times the number of buckets is a positive 64-bit number,
-- succeeds, and the new table is well-formed and holds what the old one held.
pub ht_resize-lookup :
    (raw : Hashtable → Bucket) (by lt : ℕ) (old : Hashtable)
    → ((t : Hashtable) → length (raw t).slots ≡ entries_per_bucket)
    → IsTable old
    → 0 < by * old.num_buckets % 2 ^ 64
    → (new : Hashtable) × (again : Bool) × (ht_resize raw true by lt old ≡ some (new, again))
      × IsTable new
      × ((j : ℕ) → j ≢ 0 → ht_lookup new j ≡ ht_lookup old j)
unfolding ht_resize
ht_resize-lookup raw by lt old full v pos =
    let (r, made, table, empty, packed, none_yet, same, threshold) =
      create-Empty (by * old.num_buckets % 2 ^ 64) pos in
    let m = (old.version + 1) % 2 ^ 64 in
    let start = record r { version = m } in
    let own = λ (j : ℕ) (nj : j ≢ 0).
      flats-own old.table (clht_hash old j) j (λ n ne. (v.placed j n nj).1 ne) in
    let a =
      copy_slots-Adds raw (flats old.table) start full (table m)
        (λ j nj. rw (own j nj).1 (v.placed j (clht_hash old j) nj).0)
        (λ j nj h. absurd (h (empty m j nj))) in
    let copied = copy_table-flats raw lt old.table start in
    let new = copy_table raw true lt old.table start in
    (
      new,
      leb new.num_expands_threshold new.num_expands,
      rw (made, ht_resize),
      rw copied a.table,
      λ j nj. rw (copied, a.reads j nj, empty m j nj) (unfold ht_lookup in (own j nj).0),
    )
