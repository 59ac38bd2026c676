-- ===== src/Clht/Time.antt =====
-- The three-byte access times, and which bucket the passive elimination picks.
use epli.Prelude.{
  ℕ, suc, ◌+◌, ◌%◌, ◌^◌, ◌<◌, ◌≡◌, refl, arith, List, [], ◌∷◌, Option, none, some, true, false,
  get_or, length, ◌⊎◌, inl, inr, Bool-cases, ap, ◌∙◌,
}
use epli.Clht.{UInt24, Bucket, pack_uint24, unpack_uint24, zero_bucket}
use epli.Clht.Victim.{is_colder, coldest, uint32_max}

-- A time that is stored in three bytes is read back modulo 2 ^ 24.
pub unpack-pack_uint24 : (x : ℕ) → unpack_uint24 (pack_uint24 x) ≡ x % 2 ^ 24
unfolding unpack_uint24 pack_uint24
unpack-pack_uint24 x = omega arith

-- Three bytes are stored as they were read.
pub pack-unpack_uint24 :
    (x : UInt24) → x.high < 256 → x.middle < 256 → x.low < 256 → pack_uint24 (unpack_uint24 x) ≡ x
unfolding unpack_uint24 pack_uint24
pack-unpack_uint24 x h m l = ground arith

-- No bucket of the chain is colder than the given time and hits.
abbrev pub NoneColder : (time hops : ℕ) → List Bucket → Type 0
NoneColder time hops [] = Unit {0}
NoneColder time hops (d ∷ c) =
    (is_colder (unpack_uint24 d.time) d.hops time hops ≡ false) × NoneColder time hops c

-- The bucket at a position of the chain is colder than the start, and none in the chain is colder.
record Found (c : List Bucket) (time hops i : ℕ) : Type 0 where
  inside : i < length c
  colder :
      is_colder
        (unpack_uint24 (get_or c i zero_bucket).time)
        (get_or c i zero_bucket).hops
        time
        hops
      ≡ true
  least : NoneColder (unpack_uint24 (get_or c i zero_bucket).time) (get_or c i zero_bucket).hops c

-- The loop ends with such a bucket, or with the start, if no bucket is colder than that.
coldest-Found :
    (c : List Bucket) (pos : ℕ) (cur : Option ℕ) (time hops : ℕ)
    → ((coldest c pos cur time hops ≡ cur) × NoneColder time hops c)
      ⊎ ((i : ℕ) × (coldest c pos cur time hops ≡ some (pos + i)) × Found c time hops i)
unfolding coldest
coldest-Found [] pos cur time hops = inl (refl, tt)
coldest-Found (b ∷ c) pos cur time hops =
    elim (Bool-cases (is_colder (unpack_uint24 b.time) b.hops time hops)) [
      | inl e ↦ elim (coldest-Found c (suc pos) (some pos) (unpack_uint24 b.time) b.hops) [
        | inl (q, n) ↦ inr (
          0,
          rw e (q ∙ ap some (omega arith)),
          record { inside = omega arith; colder = e; least = (ground arith, n) },
        )
        | inr (i, q, f) ↦ inr (
          suc i,
          rw e (q ∙ ap some (omega arith)),
          record {
            inside = omega (arith, f.inside);
            colder = ground (arith, f.colder);
            least = (ground (arith, f.colder), f.least);
          },
        )
      ]
      | inr e ↦ elim (coldest-Found c (suc pos) cur time hops) [
        | inl (q, n) ↦ inl (rw e q, (e, n))
        | inr (i, q, f) ↦ inr (
          suc i,
          rw e (q ∙ ap some (omega arith)),
          record {
            inside = omega (arith, f.inside);
            colder = f.colder;
            least = (ground (arith, f.colder), f.least);
          },
        )
      ]
    ]

time-lt :
    (b : Bucket)
    → b.time.high < 256
    → b.time.middle < 256
    → b.time.low < 256
    → unpack_uint24 b.time < uint32_max
unfolding unpack_uint24
time-lt b h m l = omega arith

-- In a chain whose first bucket has a three-byte access time, the loop of the passive elimination
-- picks a bucket of the chain, and no bucket of the chain is colder.
pub coldest_lem :
    (b : Bucket) (c : List Bucket)
    → b.time.high < 256
    → b.time.middle < 256
    → b.time.low < 256
    → (p : ℕ) × (coldest (b ∷ c) 0 none uint32_max uint32_max ≡ some p)
      × (p < length (b ∷ c))
      × NoneColder
          (unpack_uint24 (get_or (b ∷ c) p zero_bucket).time)
          (get_or (b ∷ c) p zero_bucket).hops
          (b ∷ c)
coldest_lem b c h m l = elim (coldest-Found (b ∷ c) 0 none uint32_max uint32_max) [
  | inl (q, n) ↦ absurd (ground (arith, n.0, time-lt b h m l))
  | inr (p, q, f) ↦ (p, q ∙ ap some (omega arith), f.inside, f.least)
]
