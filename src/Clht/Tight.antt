-- ===== src/Clht/Tight.antt =====
-- A chain whose buckets are full but one, and what a put does to it.
use epli.Prelude.{
  ℕ, zero, suc, ◌+◌, ◌*◌, ◌≤◌, ◌<◌, ◌≡◌, ◌≢◌, refl, arith, List, [], ◌∷◌, none, some, true, false,
  length, Option-cases, Bool-cases, inl, inr, ◌∙◌, ap,
}
use epli.Entry.{Kv, find_key, set_key, set_val}
use epli.Entry.Slots.{length-set_key, length-set_val}
use epli.Clht.{Bucket, entries_per_bucket, empty_keys, bucket_create, put_chain, zero_bucket}
use epli.Clht.Resize.{kv_count, chain_size}

length-empty_keys : (s : List Kv) → length (empty_keys s) ≡ length s
length-empty_keys [] = refl
length-empty_keys ((k, v) ∷ s) = ap suc (length-empty_keys s)

kv_count-empty_keys : (s : List Kv) → kv_count (empty_keys s) ≡ 0
kv_count-empty_keys [] = refl
kv_count-empty_keys ((k, v) ∷ s) = kv_count-empty_keys s

kv_count-full : (s : List Kv) → find_key s 0 ≡ none → kv_count s ≡ length s
unfolding find_key
kv_count-full [] h = refl
kv_count-full ((k, v) ∷ s) h = ground (arith, kv_count-full s)

kv_count-put :
    (s : List Kv) (i k v : ℕ)
    → k ≢ 0
    → find_key s 0 ≡ some i
    → kv_count (set_key (set_val s i v) i k) ≡ kv_count s + 1
unfolding find_key set_key set_val
kv_count-put [] i k v nk h = cc
kv_count-put ((j, w) ∷ s) zero k v nk h = ground arith
kv_count-put ((j, w) ∷ s) (suc i) k v nk h = ground (arith, kv_count-put s i k v)

kv_count-first :
    (s : List Kv) (k v : ℕ)
    → k ≢ 0
    → 0 < length s
    → kv_count (set_key (set_val (empty_keys s) 0 v) 0 k) ≡ 1
unfolding set_key set_val
kv_count-first [] k v nk pos = absurd (omega arith)
kv_count-first ((j, w) ∷ s) k v nk pos = ground (arith, kv_count-empty_keys s)

-- Each bucket has its slots.
pub Whole : List Bucket → Type 0
Whole [] = Unit
Whole (b ∷ c) = (length b.slots ≡ entries_per_bucket) × Whole c

-- What a put does to the size of a chain.
pub put_chain-size :
    (raw : Bucket) (c : List Bucket) (k v : ℕ)
    → length raw.slots ≡ entries_per_bucket
    → k ≢ 0
    → Whole c
    → let r = put_chain raw c k v in
      Whole r.0
      × (chain_size r.0 ≡ chain_size c + 1)
      × (r.1 ≡ true → (length r.0 ≡ length c + 1) × (chain_size c ≡ 3 * length c))
      × (r.1 ≡ false → length r.0 ≡ length c)
unfolding put_chain bucket_create Whole
put_chain-size raw [] k v full nk w = (
  (length-set_key _ 0 k ∙ (length-set_val _ 0 v ∙ (length-empty_keys raw.slots ∙ full)), tt),
  rw (kv_count-first raw.slots k v nk (omega arith)) refl,
  λ q. (refl, refl),
  λ q. cc,
)
put_chain-size raw (b ∷ c) k v full nk w = elim (Option-cases (find_key b.slots 0)) [
  | inl n ↦
      let (ih0, ih1, ih2, ih3) = put_chain-size raw c k v full nk w.1 in
      rw (n, put_chain, Whole)
        (
          (w.0, ih0),
          omega (arith, ih1),
          λ q. (omega (arith, (ih2 q).0), omega (arith, (ih2 q).1, kv_count-full b.slots n, w.0)),
          λ q. ap suc (ih3 q),
        )
  | inr (i, e) ↦
      rw (e, put_chain, Whole)
        (
          (length-set_key _ i k ∙ (length-set_val b.slots i v ∙ w.0), w.1),
          omega (arith, kv_count-put b.slots i k v nk e),
          λ q. cc,
          λ q. refl,
        )
]

-- All buckets of a chain but one are full.
pub record Tight (c : List Bucket) : Type 0 where
  pub whole : Whole c
  pub some_bucket : 0 < length c
  pub tight : 3 * length c ≤ chain_size c + 3

pub put_chain-Tight :
    (raw : Bucket) (c : List Bucket) (k v : ℕ)
    → length raw.slots ≡ entries_per_bucket
    → k ≢ 0
    → Tight c
    → Tight (put_chain raw c k v).0
put_chain-Tight raw c k v full nk t =
    let (w, size, added, same) = put_chain-size raw c k v full nk t.whole in
    elim (Bool-cases (put_chain raw c k v).1) [
      | inl e ↦ record {
        whole = w;
        some_bucket = omega (arith, (added e).0);
        tight = omega (arith, (added e).0, (added e).1, size);
      }
      | inr e ↦ record {
        whole = w;
        some_bucket = omega (arith, same e, t.some_bucket);
        tight = omega (arith, same e, size, t.tight);
      }
    ]

pub zero_chain-Tight : Tight (zero_bucket ∷ [])
unfolding Whole
zero_chain-Tight = record { whole = (refl, tt); some_bucket = omega arith; tight = omega arith }
