-- ===== src/Entry/Methods.antt =====
-- What each method does to an entry with distinct keys.
use epli.Prelude.{
  ℕ, ◌≤◌, ◌≡◌, ◌≢◌, refl, arith, Option, none, some, ◌⊎◌, inl, inr, ◌==◌, if◌then◌else◌, length,
  Option-cases, ◌∙◌,
}
use epli.Entry.{
  Entry, ok, fail, overflow, kvs_per_entry, find_key, set_key, set_val, get, maybe_put, update,
  remove,
}
use epli.Entry.Slots.{
  lookup, count, count-eq-zero, find_key-none, lookup-put, count-put, lookup-set_val, count-set_val,
  lookup_find, lookup-clear, count-clear-le, length-set_val, length-set_key,
}

-- All the slots are there, and a valid key stands in at most one.
pub record IsValid (e : Entry) : Type 0 where
  pub slots : length e.kvs ≡ kvs_per_entry
  pub unique : (k : ℕ) → k ≢ 0 → count k e.kvs ≤ 1

-- `r` is `e` with `o` at the key `k`; the successor stays.
pub record Writes (e : Entry) (k : ℕ) (o : Option ℕ) (r : Entry) : Type 0 where
  pub valid : IsValid r
  pub next : r.next ≡ e.next
  pub reads : (j : ℕ) → j ≢ 0 → lookup r.kvs j ≡ (if j == k then o else lookup e.kvs j)

-- `Get` finds the first pair under the key; without one it fails and leaves the result alone.
pub get-lookup :
    (e : Entry) (k v : ℕ)
    → get e k v ≡ elim (lookup e.kvs k) [ none ↦ (fail, v) | some w ↦ (ok, w) ]
unfolding get
get-lookup e k v = ground (arith, lookup_find e.kvs k)

module _ (e : Entry) (valid : IsValid e) (k v : ℕ) (nz : k ≢ 0) where
  -- `MaybePut` of a valid key that is not in a valid entry either answers STATUS_OVERFLOW and changes
  -- nothing, and then no slot is empty, or answers STATUS_OK, adds the pair and keeps the rest.
  pub maybe_put-Writes :
      lookup e.kvs k ≡ none
      → ((maybe_put e k v ≡ (e, overflow)) × (count 0 e.kvs ≡ 0))
        ⊎ ((r : Entry) × (maybe_put e k v ≡ (r, ok)) × Writes e k (some v) r)
  unfolding maybe_put
  maybe_put-Writes absent = elim (Option-cases (find_key e.kvs 0)) [
    | inl h ↦ inl (rw (h, maybe_put), count-eq-zero e.kvs 0 (find_key-none e.kvs 0 h))
    | inr (i, h) ↦ inr (
      record e { kvs = set_key (set_val e.kvs i v) i k },
      rw (h, maybe_put),
      record {
        valid = record {
          slots = length-set_key _ i k ∙ length-set_val e.kvs i v ∙ valid.slots;
          unique = λ j nj.
              ground
                (arith, count-put j k v e.kvs i h nj, valid.unique j nj, count-eq-zero e.kvs k);
        };
        next = refl;
        reads = λ j nj. lookup-put j k v e.kvs i h nz nj absent;
      },
    )
  ]

  -- `Update` of a key that is there gives it the value and keeps the rest.
  pub update-Writes :
      (w : ℕ)
      → lookup e.kvs k ≡ some w
      → (r : Entry) × (update e k v ≡ (r, ok)) × Writes e k (some v) r
  unfolding update
  update-Writes w present = elim (Option-cases (find_key e.kvs k)) [
    | inl h ↦ absurd (ground (arith, find_key-none e.kvs k h))
    | inr (i, h) ↦ (
      record e { kvs = set_val e.kvs i v },
      rw (h, update),
      record {
        valid = record {
          slots = length-set_val e.kvs i v ∙ valid.slots;
          unique = λ j nj. ground (arith, count-set_val j k v e.kvs i, valid.unique j nj);
        };
        next = refl;
        reads = λ j nj. lookup-set_val j k v e.kvs i h;
      },
    )
  ]

  -- `Remove` of a key that is there takes it out and keeps the rest.
  pub remove-Writes :
      (w : ℕ) → lookup e.kvs k ≡ some w → (r : Entry) × (remove e k ≡ (r, ok)) × Writes e k none r
  unfolding remove
  remove-Writes w present = elim (Option-cases (find_key e.kvs k)) [
    | inl h ↦ absurd (ground (arith, find_key-none e.kvs k h))
    | inr (i, h) ↦ (
      record e { kvs = set_key e.kvs i 0 },
      rw (h, remove),
      record {
        valid = record {
          slots = length-set_key e.kvs i 0 ∙ valid.slots;
          unique = λ j nj. ground (arith, count-clear-le j k e.kvs i nj, valid.unique j nj);
        };
        next = refl;
        reads = λ j nj. lookup-clear j k e.kvs i h nj (valid.unique k nz);
      },
    )
  ]

-- `Update` and `Remove` of a key that is not there fail and change nothing.
pub update_absent : (e : Entry) (k v : ℕ) → lookup e.kvs k ≡ none → update e k v ≡ (e, fail)
unfolding update
update_absent e k v h = ground (arith, lookup_find e.kvs k)

pub remove_absent : (e : Entry) (k : ℕ) → lookup e.kvs k ≡ none → remove e k ≡ (e, fail)
unfolding remove
remove_absent e k h = ground (arith, lookup_find e.kvs k)
