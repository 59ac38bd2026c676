-- ===== src/Clht/Table.antt =====
-- The table as a map, and what get, put, update and remove do to it.
use epli.Prelude.{
  ℕ, ◌+◌, ◌-◌, ◌%◌, ◌^◌, ◌≤◌, ◌<◌, ◌≡◌, ◌≢◌, refl, arith, List, [], Option, none, some, true, false,
  ◌==◌, if◌then◌else◌, length, length-set, get_or-set, Option-cases, Bool-cases, ==→eq, inl, inr,
  ap, ◌∙◌, sym, bit_and-le_right,
}
use epli.Entry.Slots.{lookup, count, count-eq-zero}
use epli.Clht.{
  Bucket, Hashtable, chain_of, with_chain, clht_hash, clht_get, clht_update, clht_remove, put_bin,
  get_chain, update_chain, remove_chain, put_chain, entries_per_bucket,
}
use epli.Clht.Chain.{
  flat, is_some, or_zero, get_chain-lookup, bucket_exists-lookup, lookup-update_chain,
  lookup-remove_chain, lookup-put_chain, count-put_chain, count-update_chain, count-remove_chain-le,
}

-- There is a chain for each value of the hash; a valid key stands once at most, in its own chain.
pub record IsTable (ht : Hashtable) : Type 0 where
  pub buckets : length ht.table ≡ ht.num_buckets
  pub some_buckets : 0 < ht.num_buckets
  pub mask : ht.hash ≡ ht.num_buckets - 1
  pub placed :
      (j i : ℕ)
      → j ≢ 0
      → (count j (flat (chain_of ht i)) ≤ 1)
        × (i ≢ clht_hash ht j → count j (flat (chain_of ht i)) ≡ 0)

-- The value under a key.
unfoldable pub ht_lookup : Hashtable → ℕ → Option ℕ
ht_lookup ht j = lookup (flat (chain_of ht (clht_hash ht j))) j

-- `r` is `ht` with `o` under the key `k` and the rest unchanged.
pub record Sets (ht : Hashtable) (k : ℕ) (o : Option ℕ) (r : Hashtable) : Type 0 where
  pub table : IsTable r
  pub same_hash : r.hash ≡ ht.hash
  pub reads : (j : ℕ) → j ≢ 0 → ht_lookup r j ≡ (if j == k then o else ht_lookup ht j)

pub Sets-buckets :
    {ht : Hashtable} {k : ℕ} {o : Option ℕ} {r : Hashtable}
    → IsTable ht
    → Sets ht k o r
    → r.num_buckets ≡ ht.num_buckets
Sets-buckets v s =
    omega (arith, s.same_hash, s.table.mask, v.mask, s.table.some_buckets, v.some_buckets)

module _ (ht : Hashtable) (v : IsTable ht) (k : ℕ) where
  pub hash-lt : (j : ℕ) → clht_hash ht j < length ht.table
  unfolding clht_hash
  hash-lt j = omega (arith, v.buckets, v.some_buckets, v.mask, bit_and-le_right j ht.hash)

  abbrev bin : ℕ
  bin = clht_hash ht k

  pub chain-with :
      (c : List Bucket) (i : ℕ)
      → chain_of (with_chain ht bin c) i ≡ (if i == bin then c else chain_of ht i)
  chain-with c i = get_or-set ht.table bin i c [] (hash-lt k)

  pub hash-with : (c : List Bucket) (j : ℕ) → clht_hash (with_chain ht bin c) j ≡ clht_hash ht j
  unfolding clht_hash
  hash-with c j = refl

  -- The chain of the key is replaced.
  pub with_chain-Sets :
      (c : List Bucket) (o : Option ℕ)
      → ((j : ℕ)
          → j ≢ 0
          → lookup (flat c) j ≡ (if j == k then o else lookup (flat (chain_of ht bin)) j))
      → ((j : ℕ)
          → j ≢ 0
          → (count j (flat c) ≤ 1) × (j ≢ k → count j (flat c) ≤ count j (flat (chain_of ht bin))))
      → Sets ht k o (with_chain ht bin c)
  unfolding ht_lookup
  with_chain-Sets c o reads few = record {
    table = record {
      buckets = length-set ht.table bin c ∙ v.buckets;
      some_buckets = v.some_buckets;
      mask = v.mask;
      placed = λ j i nj.
          rw (chain-with c i, hash-with c j)
            (elim (Bool-cases (i == bin)) [
              | inr e ↦ rw e (v.placed j i nj)
              | inl e ↦
                  let at = ==→eq i bin e in
                  rw e (
                    (few j nj).0,
                    λ ne. omega (
                      arith,
                      (few j nj).1 (λ q. ne (at ∙ ap (clht_hash ht) (sym q))),
                      (v.placed j bin nj).1 (λ q. ne (at ∙ q)),
                    ),
                  )
            ]);
    };
    same_hash = refl;
    reads = λ j nj.
        rw (hash-with c j, chain-with c (clht_hash ht j))
          (elim (Bool-cases (clht_hash ht j == bin)) [
            | inl e ↦ rw e (rw (==→eq (clht_hash ht j) bin e) (reads j nj))
            | inr e ↦ elim (Bool-cases (j == k)) [
              | inl q ↦ absurd (ground (arith, ap (clht_hash ht) (==→eq j k q)))
              | inr q ↦ rw (e, q)
            ]
          ]);
  }

-- The number of expansions is no part of the map.
Sets-expands :
    {ht : Hashtable} {k : ℕ} {o : Option ℕ} {r : Hashtable}
    → Sets ht k o r
    → (n : ℕ) → Sets ht k o (record r { num_expands = n })
unfolding ht_lookup clht_hash
Sets-expands s n = record {
  table = record {
    buckets = s.table.buckets;
    some_buckets = s.table.some_buckets;
    mask = s.table.mask;
    placed = s.table.placed;
  };
  same_hash = s.same_hash;
  reads = s.reads;
}

module _ (ht : Hashtable) (v : IsTable ht) (k : ℕ) where
  own : (j : ℕ) → j ≢ 0 → count j (flat (chain_of ht (clht_hash ht k))) ≤ 1
  own j nj = (v.placed j (clht_hash ht k) nj).0

  pub clht_get-Sets :
      (lt : ℕ)
      → k ≢ 0
      → ((clht_get ht k lt).1 ≡ or_zero (ht_lookup ht k))
        × Sets ht k (ht_lookup ht k) (clht_get ht k lt).0
  unfolding clht_get ht_lookup
  clht_get-Sets lt nk =
      let c = chain_of ht (clht_hash ht k) in
      let g = get_chain-lookup c k lt in
      (
        g.1,
        with_chain-Sets ht v k (get_chain c k lt).0 (lookup (flat c) k)
            (λ j nj. rw g.0 (ground (arith, ap (lookup (flat c)) {x = j} {y = k})))
            (λ j nj. rw g.0 (own j nj, λ ne. omega arith)),
      )

  pub clht_update-Sets :
      (val w : ℕ)
      → k ≢ 0
      → ht_lookup ht k ≡ some w
      → ((clht_update ht k val).1 ≡ true) × Sets ht k (some val) (clht_update ht k val).0
  unfolding clht_update ht_lookup
  clht_update-Sets val w nk here =
      let c = chain_of ht (clht_hash ht k) in
      let done : (update_chain c k val).1 ≡ true =
        (lookup-update_chain k k val c).1 ∙ ap is_some here in
      (
        done,
        with_chain-Sets ht v k (update_chain c k val).0 (some val)
            (λ j nj. (lookup-update_chain k j val c).0 ∙ rw done)
            (λ j nj. rw (count-update_chain k j val c) (own j nj, λ ne. omega arith)),
      )

  -- In a well-formed table, `clht_update` of a valid key that is not there returns false and keeps what
  -- the table holds.
  pub clht_update-none :
      (val : ℕ)
      → k ≢ 0
      → ht_lookup ht k ≡ none
      → ((clht_update ht k val).1 ≡ false) × Sets ht k none (clht_update ht k val).0
  unfolding clht_update ht_lookup
  clht_update-none val nk absent =
      let c = chain_of ht (clht_hash ht k) in
      let done : (update_chain c k val).1 ≡ false =
        (lookup-update_chain k k val c).1 ∙ ap is_some absent in
      (
        done,
        with_chain-Sets ht v k (update_chain c k val).0 none
            (λ j nj. (lookup-update_chain k j val c).0 ∙ rw done)
            (λ j nj. rw (count-update_chain k j val c) (own j nj, λ ne. omega arith)),
      )

  pub clht_remove-Sets :
      k ≢ 0
      → ((clht_remove ht k).1 ≡ or_zero (ht_lookup ht k)) × Sets ht k none (clht_remove ht k).0
  unfolding clht_remove ht_lookup
  clht_remove-Sets nk =
      let c = chain_of ht (clht_hash ht k) in
      let l = λ (j : ℕ) (nj : j ≢ 0). lookup-remove_chain k j c nj (own k nk) in
      let s =
        with_chain-Sets ht v k (remove_chain c k).0 none (λ j nj. (l j nj).0)
          (λ j nj. (
            omega (arith, count-remove_chain-le k j c nj, own j nj),
            λ ne. count-remove_chain-le k j c nj,
          )) in
      elim (Option-cases (lookup (flat c) k)) [
        | inr (w, e) ↦ rw (bucket_exists-lookup c k, e) ((l k nk).1 ∙ ap or_zero e, s)
        | inl e ↦
            rw (bucket_exists-lookup c k, e)
              (
                refl,
                record {
                  table = v;
                  same_hash = refl;
                  reads = λ j nj. ground (arith, e, ap (ht_lookup ht) {x = j} {y = k});
                },
              )
      ]

  -- In a well-formed table, the write of `clht_put` and `clht_put_seq` at the bucket of a valid key that
  -- is not there adds the pair and keeps the other keys, whatever fresh memory of three slots a new
  -- bucket gets.
  pub put_bin-Sets :
      (raw : Bucket) (val : ℕ)
      → length raw.slots ≡ entries_per_bucket
      → k ≢ 0
      → ht_lookup ht k ≡ none
      → Sets ht k (some val) (put_bin raw ht (clht_hash ht k) k val).0
  unfolding put_bin ht_lookup
  put_bin-Sets raw val full nk absent =
      let c = chain_of ht (clht_hash ht k) in
      let p = put_chain raw c k val in
      let s =
        with_chain-Sets ht v k p.0 (some val)
          (λ j nj. lookup-put_chain k j raw val c full nk nj absent)
          (λ j nj. rw (count-put_chain k j raw val c full nj) (
            ground (
              arith,
              own j nj,
              count-eq-zero (flat c) k absent,
              ap (λ (x : ℕ). count x (flat c)) {x = j} {y = k},
            ))) in
      elim (Bool-cases p.1) [
        | inl e ↦ rw e (Sets-expands s ((ht.num_expands + 1) % 2 ^ 32))
        | inr e ↦ rw e s
      ]

  -- In a well-formed table, for a valid key, `clht_get` returns the value under the key, or 0, and keeps
  -- what the table holds; `clht_update` returns whether the key is there, and sets its value if it is;
  -- `clht_remove` returns the value, or 0, and takes the key out. The other keys are kept.
  pub calls-Sets :
      (lt val : ℕ)
      → k ≢ 0
      → (((clht_get ht k lt).1 ≡ or_zero (ht_lookup ht k))
          × Sets ht k (ht_lookup ht k) (clht_get ht k lt).0)
        × ((((clht_update ht k val).1 ≡ is_some (ht_lookup ht k))
              × Sets ht k
                  (if is_some (ht_lookup ht k) then some val else none)
                  (clht_update ht k val).0)
            × (((clht_remove ht k).1 ≡ or_zero (ht_lookup ht k))
                × Sets ht k none (clht_remove ht k).0))
  calls-Sets lt val nk = (clht_get-Sets lt nk, (updated, clht_remove-Sets nk))
    where
      updated :
          ((clht_update ht k val).1 ≡ is_some (ht_lookup ht k))
          × Sets ht k (if is_some (ht_lookup ht k) then some val else none) (clht_update ht k val).0
      updated = elim (Option-cases (ht_lookup ht k)) [
        | inl e ↦ rw e (clht_update-none val nk e)
        | inr (w, e) ↦ rw e (clht_update-Sets val w nk e)
      ]
