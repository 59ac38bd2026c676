-- ===== src/Bitmap/Agree.antt =====
-- When the bitmap and the fingerprints beside an entry describe it, and what `Get` and `PutAtPos` do then.
use epli.Prelude.{
  ℕ, zero, suc, ◌+◌, ◌/◌, ◌%◌, ◌≤◌, ◌<◌, ◌≡◌, ◌≢◌, refl, arith, List, [], ◌∷◌, none, some, true,
  ◌∙◌, sym, ap, ◌==◌, if◌then◌else◌, get_or, length, length-set, get_or-set, Bool-cases, ==→eq, inl,
  inr,
}
use epli.Entry.{Kv, Entry, set_key, set_val}
use epli.Entry.At.{key_at}
use epli.Entry.Slots.{lookup, count, count-eq-zero, length-set_key, length-set_val}
use epli.Entry.Methods.{IsValid, Writes}
use epli.Bitmap.{MetaData, hashcode1b, set_bitmap, set_fgpt}
use epli.Bitmap.Bits.{bit, bit-set_bitmap}
use epli.Bitmap.Tree.{put_at_pos, candidates, search_mask, find_by_mask}

-- Each valid key has its fingerprint and its bit.
abbrev pub Describes : (fgpt : List ℕ) → (bitmap : ℕ) → List Kv → Type 0
Describes fs b s =
    (j : ℕ)
    → j < length s
    → key_at s j ≢ 0
    → (get_or fs j 0 ≡ hashcode1b (key_at s j)) × (bit j b ≡ 1)

search_mask-lookup :
    (k : ℕ) (fs : List ℕ) (b : ℕ) (s : List Kv)
    → k ≢ 0
    → length s ≤ length fs
    → Describes fs b s
    → search_mask (candidates (hashcode1b k) fs b) s k ≡ lookup s k
unfolding search_mask candidates bit
search_mask-lookup k [] b [] nz len d = refl
search_mask-lookup k [] b (x ∷ s) nz len d = absurd (omega arith)
search_mask-lookup k (f ∷ fs) b [] nz len d = refl
search_mask-lookup k (f ∷ fs) b ((j, w) ∷ s) nz len d =
    let first = d zero (omega arith) in
    let rest =
      search_mask-lookup k fs (b / 2) s nz (omega arith) (λ i lt ne. d (suc i) (omega arith) ne) in
    elim (Bool-cases (j == k)) [
      | inl e ↦
          let q : j ≡ k = ==→eq j k e in
          let h = first (λ z. nz (sym q ∙ z)) in
          let same : (f == hashcode1b k) ≡ true = ground (arith, ap hashcode1b q, h.0) in
          let set_bit : (b % 2 == 1) ≡ true = ground (arith, h.1) in rw (same, set_bit, e)
      | inr e ↦ ground (arith, rest)
    ]

pub record Agrees (m : MetaData) (e : Entry) : Type 0 where
  pub long : length m.fgpt ≡ length e.kvs
  pub describes : Describes m.fgpt m.bitmap e.kvs

-- Where the bitmap and the fingerprints describe the entry, the search by fingerprints finds for a valid
-- key what the search through all the slots finds.
pub find_by_mask-lookup :
    (m : MetaData) (e : Entry) (k : ℕ) → Agrees m e → k ≢ 0 → find_by_mask m e k ≡ lookup e.kvs k
unfolding find_by_mask
find_by_mask-lookup m e k a nz =
    search_mask-lookup k m.fgpt m.bitmap e.kvs nz (omega (arith, a.long)) a.describes

pub key_at-put :
    (s : List Kv) (i j k v : ℕ)
    → i < length s
    → key_at (set_key (set_val s i v) i k) j ≡ (if j == i then k else key_at s j)
unfolding set_key set_val
key_at-put [] i j k v lt = absurd (omega arith)
key_at-put ((a, w) ∷ s) zero zero k v lt = refl
key_at-put ((a, w) ∷ s) zero (suc j) k v lt = ground arith
key_at-put ((a, w) ∷ s) (suc i) zero k v lt = ground arith
key_at-put ((a, w) ∷ s) (suc i) (suc j) k v lt = ground (arith, key_at-put s i j k v)

module _ (j k v : ℕ) (nj : j ≢ 0) (nk : k ≢ 0) where
  lookup-put_at :
      (s : List Kv) (i : ℕ)
      → i < length s
      → key_at s i ≡ 0
      → lookup s k ≡ none
      → lookup (set_key (set_val s i v) i k) j ≡ (if j == k then some v else lookup s j)
  unfolding set_key set_val
  lookup-put_at [] i lt h e = absurd (omega arith)
  lookup-put_at ((a, w) ∷ s) zero lt h e = ground arith
  lookup-put_at ((a, w) ∷ s) (suc i) lt h e = ground (arith, lookup-put_at s i)

  count-put_at :
      (s : List Kv) (i : ℕ)
      → i < length s
      → key_at s i ≡ 0
      → count j (set_key (set_val s i v) i k) ≡ (if j == k then count j s + 1 else count j s)
  unfolding set_key set_val
  count-put_at [] i lt h = absurd (omega arith)
  count-put_at ((a, w) ∷ s) zero lt h = ground arith
  count-put_at ((a, w) ∷ s) (suc i) lt h = ground (arith, count-put_at s i)

-- `PutAtPos` at an empty slot, with its bit and its fingerprint.
pub put_at_pos-Writes :
    (e : Entry) (k v i : ℕ)
    → IsValid e
    → i < length e.kvs
    → key_at e.kvs i ≡ 0
    → k ≢ 0
    → lookup e.kvs k ≡ none
    → Writes e k (some v) (put_at_pos e k v i)
unfolding put_at_pos
put_at_pos-Writes e k v i valid lt h nk absent = record {
  valid = record {
    slots = length-set_key _ i k ∙ (length-set_val e.kvs i v ∙ valid.slots);
    unique = λ j nj. ground (
      arith,
      count-put_at j k v nj nk e.kvs i lt h,
      valid.unique j nj,
      count-eq-zero e.kvs k absent,
    );
  };
  next = refl;
  reads = λ j nj. lookup-put_at j k v nj nk e.kvs i lt h absent;
}

pub put_at_pos-Agrees :
    (m : MetaData) (e : Entry) (k v i : ℕ)
    → Agrees m e
    → i < length e.kvs
    → length e.kvs ≤ 16
    → Agrees
        (record m { bitmap = set_bitmap m.bitmap i; fgpt = set_fgpt m.fgpt i (hashcode1b k) })
        (put_at_pos e k v i)
unfolding put_at_pos
put_at_pos-Agrees m e k v i a lt few =
    let len = length-set_key (set_val e.kvs i v) i k ∙ length-set_val e.kvs i v in
    record {
      long = length-set m.fgpt i (hashcode1b k) ∙ (a.long ∙ sym len);
      describes = λ j l ne.
          let at = key_at-put e.kvs i j k v lt in
          let g = get_or-set m.fgpt i j (hashcode1b k) 0 (omega (arith, a.long)) in
          let b = bit-set_bitmap m.bitmap i j (omega (arith, len)) in
          elim (Bool-cases (j == i)) [
            | inl q ↦ rw (at, g, b, q) (refl, refl)
            | inr q ↦
                let old = rw q at at in
                rw (at, g, b, q) (a.describes j (omega (arith, len)) (λ z. ne (old ∙ z)))
          ];
    }
