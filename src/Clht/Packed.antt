-- ===== src/Clht/Packed.antt =====
-- How many buckets a table adds while pairs are put into it: a new bucket needs a full chain.
use epli.Prelude.{
  ℕ, zero, suc, ◌+◌, ◌-◌, ◌*◌, ◌^◌, ◌≤◌, ◌<◌, ◌≡◌, ◌≢◌, refl, arith, List, [], ◌∷◌, ◌==◌, get_or,
  set, length, replicate, length-set, length-replicate, Bool-cases, inl, inr, ◌∙◌, sym,
  bit_and-le_right,
}
use epli.Entry.{Kv}
use epli.Clht.{
  Bucket, Hashtable, entries_per_bucket, put_chain, put_bin, chain_of, clht_hash, zero_bucket,
}
use epli.Clht.Tight.{Tight, put_chain-size, put_chain-Tight, zero_chain-Tight}
use epli.Clht.Resize.{kv_count, chain_size, table_size, copy_slots}

pub AllTight : List (List Bucket) → Type 0
AllTight [] = Unit
AllTight (c ∷ cs) = Tight c × AllTight cs

-- The buckets behind the first ones.
unfoldable pub excess : List (List Bucket) → ℕ
excess [] = 0
excess (c ∷ cs) = length c - 1 + excess cs

excess-le : (cs : List (List Bucket)) → AllTight cs → 3 * excess cs ≤ table_size cs
unfolding AllTight excess table_size
excess-le [] t = omega arith
excess-le (c ∷ cs) t = omega (arith, excess-le cs t.1, t.0.tight)

get_or-Tight :
    (cs : List (List Bucket)) (i : ℕ) → AllTight cs → i < length cs → Tight (get_or cs i [])
unfolding AllTight
get_or-Tight [] i t lt = absurd (omega arith)
get_or-Tight (c ∷ cs) zero t lt = t.0
get_or-Tight (c ∷ cs) (suc i) t lt = get_or-Tight cs i t.1 (omega arith)

set-AllTight :
    (cs : List (List Bucket)) (i : ℕ) (d : List Bucket)
    → AllTight cs
    → Tight d
    → AllTight (set cs i d)
unfolding AllTight
set-AllTight [] i d t u = tt
set-AllTight (c ∷ cs) zero d t u = (u, t.1)
set-AllTight (c ∷ cs) (suc i) d t u = (t.0, set-AllTight cs i d t.1 u)

table_size-set :
    (cs : List (List Bucket)) (i : ℕ) (d : List Bucket)
    → i < length cs
    → table_size (set cs i d) + chain_size (get_or cs i []) ≡ table_size cs + chain_size d
unfolding table_size
table_size-set [] i d lt = absurd (omega arith)
table_size-set (c ∷ cs) zero d lt = omega arith
table_size-set (c ∷ cs) (suc i) d lt = omega (arith, table_size-set cs i d (omega arith))

excess-set :
    (cs : List (List Bucket)) (i : ℕ) (d : List Bucket)
    → i < length cs
    → excess (set cs i d) + (length (get_or cs i []) - 1) ≡ excess cs + (length d - 1)
unfolding excess
excess-set [] i d lt = absurd (omega arith)
excess-set (c ∷ cs) zero d lt = omega arith
excess-set (c ∷ cs) (suc i) d lt = omega (arith, excess-set cs i d (omega arith))

pub record Packed (ht : Hashtable) : Type 0 where
  pub buckets : length ht.table ≡ ht.num_buckets
  pub some_buckets : 0 < ht.num_buckets
  pub mask : ht.hash ≡ ht.num_buckets - 1
  pub chains : AllTight ht.table
  pub expands : ht.num_expands ≡ excess ht.table

-- A pair more.
pub record Puts (n : ℕ) (ht r : Hashtable) : Type 0 where
  pub packed : Packed r
  pub size : table_size r.table ≡ table_size ht.table + n
  pub same_buckets : r.num_buckets ≡ ht.num_buckets
  pub same_threshold : r.num_expands_threshold ≡ ht.num_expands_threshold

put_bin-Puts :
    (raw : Bucket) (ht : Hashtable) (bin k v : ℕ)
    → length raw.slots ≡ entries_per_bucket
    → k ≢ 0
    → Packed ht
    → bin < length ht.table
    → table_size ht.table < 2 ^ 32 - 1
    → Puts 1 ht (put_bin raw ht bin k v).0
unfolding put_bin
put_bin-Puts raw ht bin k v full nk p inside small =
    let c = chain_of ht bin in
    let r = put_chain raw c k v in
    let t = get_or-Tight ht.table bin p.chains inside in
    let t' = put_chain-Tight raw c k v full nk t in
    let (w, size, added, same) = put_chain-size raw c k v full nk t.whole in
    let sized = table_size-set ht.table bin r.0 inside in
    let more = excess-set ht.table bin r.0 inside in
    let few = excess-le ht.table p.chains in
    let all = set-AllTight ht.table bin r.0 p.chains t' in
    let len = length-set ht.table bin r.0 ∙ p.buckets in
    elim (Bool-cases r.1) [
      | inl e ↦ rw e (record {
        packed = record {
          buckets = len;
          some_buckets = p.some_buckets;
          mask = p.mask;
          chains = all;
          expands = omega (arith, p.expands, more, few, (added e).0, t.some_bucket);
        };
        size = omega (arith, sized, size);
        same_buckets = refl;
        same_threshold = refl;
      })
      | inr e ↦ rw e (record {
        packed = record {
          buckets = len;
          some_buckets = p.some_buckets;
          mask = p.mask;
          chains = all;
          expands = omega (arith, p.expands, more, same e);
        };
        size = omega (arith, sized, size);
        same_buckets = refl;
        same_threshold = refl;
      })
    ]

pub copy_slots-Puts :
    (raw : Hashtable → Bucket) (s : List Kv) (ht : Hashtable)
    → ((t : Hashtable) → length (raw t).slots ≡ entries_per_bucket)
    → Packed ht
    → table_size ht.table + kv_count s < 2 ^ 32
    → Puts (kv_count s) ht (copy_slots raw s ht)
unfolding copy_slots clht_hash
copy_slots-Puts raw [] ht full p small = record {
  packed = p;
  size = omega arith;
  same_buckets = refl;
  same_threshold = refl;
}
copy_slots-Puts raw ((k, v) ∷ s) ht full p small = elim (Bool-cases (k == 0)) [
  | inl e ↦ let a = copy_slots-Puts raw s ht full p (ground arith) in rw e a
  | inr e ↦
      let inside : clht_hash ht k < length ht.table =
        omega (arith, p.buckets, p.some_buckets, p.mask, bit_and-le_right k ht.hash) in
      let q =
        put_bin-Puts (raw ht) ht (clht_hash ht k) k v (full ht) (ground arith) p inside
          (ground arith) in
      let a =
        copy_slots-Puts raw s (put_bin (raw ht) ht (clht_hash ht k) k v).0 full q.packed
          (ground (arith, q.size)) in
      rw e (record {
        packed = a.packed;
        size = omega (arith, a.size, q.size);
        same_buckets = a.same_buckets ∙ q.same_buckets;
        same_threshold = a.same_threshold ∙ q.same_threshold;
      })
]

pub expands-le : (ht : Hashtable) → Packed ht → 3 * ht.num_expands ≤ table_size ht.table
expands-le ht p = omega (arith, p.expands, excess-le ht.table p.chains)

fresh-AllTight : (n : ℕ) → AllTight (replicate n (zero_bucket ∷ []))
unfolding AllTight
fresh-AllTight zero = tt
fresh-AllTight (suc n) = (zero_chain-Tight, fresh-AllTight n)

fresh-excess : (n : ℕ) → excess (replicate n (zero_bucket ∷ [])) ≡ 0
unfolding excess
fresh-excess zero = refl
fresh-excess (suc n) = omega (arith, fresh-excess n)

pub fresh-size : (n : ℕ) → table_size (replicate n (zero_bucket ∷ [])) ≡ 0
unfolding table_size
fresh-size zero = refl
fresh-size (suc n) = omega (arith, fresh-size n)

-- A new table.
pub fresh-Packed :
    (n m t : ℕ)
    → 0 < n
    → Packed (record {
      num_buckets = n;
      table = replicate n (zero_bucket ∷ []);
      hash = n - 1;
      version = m;
      num_expands = 0;
      num_expands_threshold = t;
    })
fresh-Packed n m t pos = record {
  buckets = length-replicate n (zero_bucket ∷ []);
  some_buckets = pos;
  mask = refl;
  chains = fresh-AllTight n;
  expands = sym (fresh-excess n);
}
