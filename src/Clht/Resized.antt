-- ===== src/Clht/Resized.antt =====
-- What a resize keeps, and what a replaced chain keeps.
use epli.Prelude.{
  ℕ, ◌+◌, ◌*◌, ◌/◌, ◌%◌, ◌^◌, ◌≤◌, ◌<◌, ◌≡◌, ◌≢◌, ◌⊎◌, refl, arith, List, none, some, Bool, true,
  false, ◌&&◌, ◌==◌, leb, if◌then◌else◌, length, length-set, ==→eq, Bool-cases, inl, inr, ◌∙◌, sym,
}
use epli.Entry.Slots.{lookup, count}
use epli.Clht.{Bucket, Hashtable, clht_hash, chain_of, with_chain, entries_per_bucket}
use epli.Clht.Chain.{flat}
use epli.Clht.Table.{IsTable, ht_lookup, chain-with, hash-with}
use epli.Clht.Resize.{copy_slots, copy_table, table_size, ht_resize}
use epli.Clht.Grow.{flats, flats-own, copy_slots-Adds, create-Empty}
use epli.Clht.Packed.{Packed, copy_slots-Puts, expands-le}
use epli.Clht.Eliminated.{any_left_out, kept-reads}
use epli.Clht.Submap.{SubOf, kept, kept-SubOf, kept-size, copy_table-kept}

-- A well-formed table in which each valid key has the value of the old table, or is gone and was meant to go.
pub record Keeps (gone : ℕ → Bool) (old new : Hashtable) : Type 0 where
  pub table : IsTable new
  pub reads :
      (j : ℕ)
      → j ≢ 0
      → ((gone j ≡ true) × (ht_lookup new j ≡ none)) ⊎ (ht_lookup new j ≡ ht_lookup old j)

-- The pairs of `old` are copied into an empty table with more buckets than they can add.
copy_table-Keeps :
    (raw : Hashtable → Bucket) (increase : Bool) (lt : ℕ) (old start : Hashtable)
    → ((t : Hashtable) → length (raw t).slots ≡ entries_per_bucket)
    → IsTable old
    → IsTable start
    → ((j : ℕ) → j ≢ 0 → ht_lookup start j ≡ none)
    → Packed start
    → table_size start.table ≡ 0
    → table_size old.table < 2 ^ 32
    → ((e : ℕ) → 3 * e ≤ table_size old.table → e < start.num_expands_threshold)
    → let new = copy_table raw increase lt old.table start in
      (leb new.num_expands_threshold new.num_expands ≡ false)
      × Keeps (any_left_out increase lt old.table) old new
      × (new.num_buckets ≡ start.num_buckets)
copy_table-Keeps raw inc lt old start full v table empty packed none_yet few room =
    let sub = kept-SubOf inc lt old.table in
    let size = kept-size inc lt old.table in
    let s = kept inc lt old.table in
    let own = λ (j : ℕ) (nj : j ≢ 0).
      flats-own old.table (clht_hash old j) j (λ i ne. (v.placed j i nj).1 ne) in
    let one : (j : ℕ) → j ≢ 0 → count j (flats old.table) ≤ 1 =
      λ j nj. omega (arith, (own j nj).1, (v.placed j (clht_hash old j) nj).0) in
    let a =
      copy_slots-Adds raw s start full table (λ j nj. omega (arith, sub.fewer j nj, one j nj))
        (λ j nj h. absurd (h (empty j nj))) in
    let p = copy_slots-Puts raw s start full packed (omega (arith, none_yet, size)) in
    let added = expands-le (copy_slots raw s start) p.packed in
    rw (copy_table-kept raw inc lt old.table start) (
      ground (
        arith,
        p.same_threshold,
        room (copy_slots raw s start).num_expands (omega (arith, added, p.size, none_yet, size)),
      ),
      record {
        table = a.table;
        reads = λ j nj.
            let same : ht_lookup old j ≡ lookup (flats old.table) j =
              unfold ht_lookup in sym (own j nj).0 in
            rw (a.reads j nj, empty j nj, same) (kept-reads inc lt j old.table nj (one j nj));
      },
      p.same_buckets,
    )

-- A resize to a number of buckets above the number that the pairs can add does not ask for another one.
pub ht_resize-Keeps :
    (raw : Hashtable → Bucket) (increase : Bool) (by lt n : ℕ) (old : Hashtable)
    → ((t : Hashtable) → length (raw t).slots ≡ entries_per_bucket)
    → IsTable old
    → (if increase then by * old.num_buckets % 2 ^ 64 else old.num_buckets / 8) ≡ n
    → 0 < n
    → n < 2 ^ 32
    → table_size old.table < 2 ^ 32
    → ((e : ℕ) → 3 * e ≤ table_size old.table → e < n)
    → (new : Hashtable) × (ht_resize raw increase by lt old ≡ some (new, false))
      × Keeps (any_left_out increase lt old.table) old new
      × (new.num_buckets ≡ n)
unfolding ht_resize
ht_resize-Keeps raw inc by lt n old full v same_n pos wide few room =
    let (r, made, table, empty, packed, none_yet, buckets, threshold) = create-Empty n pos in
    let m = (old.version + 1) % 2 ^ 64 in
    let (again, keeps, sized) =
      copy_table-Keeps raw inc lt old (record r { version = m }) full v (table m) (empty m)
        (packed m) none_yet few (λ e le. rw (threshold wide) (room e le)) in
    (
      copy_table raw inc lt old.table (record r { version = m }),
      rw (same_n, made, ht_resize, again) refl,
      keeps,
      sized ∙ buckets,
    )

pub with_chain-Keeps :
    (ht : Hashtable) (v : IsTable ht) (k : ℕ) (c : List Bucket)
    → SubOf (flat c) (flat (chain_of ht (clht_hash ht k)))
    → (g : ℕ → Bool)
    → ((j : ℕ)
        → j ≢ 0
        → g j ≡ false
        → lookup (flat c) j ≡ lookup (flat (chain_of ht (clht_hash ht k))) j)
    → Keeps (λ j. (clht_hash ht j == clht_hash ht k) && g j) ht (with_chain ht (clht_hash ht k) c)
unfolding ht_lookup
with_chain-Keeps ht v k c sub g stays =
    let bin = clht_hash ht k in
    let old_chain = flat (chain_of ht bin) in
    let replaced : (j : ℕ)
        → j ≢ 0
        → count j old_chain ≤ 1
        → ((g j ≡ true) × (lookup (flat c) j ≡ none)) ⊎ (lookup (flat c) j ≡ lookup old_chain j) =
      λ j nj u. elim (Bool-cases (g j)) [
        | inr h ↦ inr (stays j nj h)
        | inl h ↦ elim (sub.reads j nj u) [ inl z ↦ inl (h, z) | inr z ↦ inr z ]
      ] in
    record {
      table = record {
        buckets = length-set ht.table bin c ∙ v.buckets;
        some_buckets = v.some_buckets;
        mask = v.mask;
        placed = λ j i nj.
            rw (chain-with ht v k c i, hash-with ht v k c j)
              (elim (Bool-cases (i == bin)) [
                | inr e ↦ rw e (v.placed j i nj)
                | inl e ↦
                    let at = ==→eq i bin e in
                    let old = v.placed j bin nj in
                    rw e (
                      omega (arith, sub.fewer j nj, old.0),
                      λ ne. omega (arith, sub.fewer j nj, old.1 (λ q. ne (at ∙ q))),
                    )
              ]);
      };
      reads = λ j nj.
          rw (hash-with ht v k c j, chain-with ht v k c (clht_hash ht j))
            (elim (Bool-cases (clht_hash ht j == bin)) [
              | inl e ↦
                  let at = ==→eq (clht_hash ht j) bin e in
                  rw e (rw at (replaced j nj (v.placed j bin nj).0))
              | inr e ↦ rw e (inr refl)
            ]);
    }

-- The number of buckets of a table in use.
abbrev pub IsSized : ℕ → Type 0
IsSized n = ((w : ℕ) × (n ≡ 2 ^ w)) × (n < 2 ^ 30)
