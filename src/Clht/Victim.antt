-- ===== src/Clht/Victim.antt =====
-- The passive elimination: which bucket of a chain the loop of `ht_status` picks.
use epli.Prelude.{
  ℕ, zero, suc, ◌-◌, ◌^◌, List, [], ◌∷◌, Option, none, some, Bool, ltb, ◌&&◌, ◌||◌, ◌==◌,
  if◌then◌else◌,
}
use epli.Clht.{Bucket, unpack_uint24, empty_keys}

-- The test that makes a bucket the coldest so far: an older access, or as old a one and fewer hits.
abbrev pub is_colder : (time hops cur_time cur_hops : ℕ) → Bool
is_colder time hops cur_time cur_hops =
    ltb time cur_time || ((time == cur_time) && ltb hops cur_hops)

-- The loop over the chain: the position of the bucket `cur_bucket` at the end.
unfoldable pub coldest :
    List Bucket → (pos : ℕ) → (cur : Option ℕ) → (cur_time cur_hops : ℕ) → Option ℕ
coldest [] pos cur cur_time cur_hops = cur
coldest (b ∷ c) pos cur cur_time cur_hops =
    let take_it = coldest c (suc pos) (some pos) (unpack_uint24 b.time) b.hops in
    let leave_it = coldest c (suc pos) cur cur_time cur_hops in
    if is_colder (unpack_uint24 b.time) b.hops cur_time cur_hops then take_it else leave_it

-- `UINT32_MAX`
abbrev pub uint32_max : ℕ
uint32_max = 2 ^ 32 - 1

-- The keys of the bucket at a position are set to 0.
unfoldable pub clear_bucket : List Bucket → (pos : ℕ) → List Bucket
clear_bucket [] pos = []
clear_bucket (b ∷ c) zero = record b { slots = empty_keys b.slots } ∷ c
clear_bucket (b ∷ c) (suc pos) = b ∷ clear_bucket c pos

-- The elimination in one chain.
unfoldable pub eliminate : List Bucket → List Bucket
eliminate c = elim (coldest c 0 none uint32_max uint32_max) [
  | none ↦ c
  | some pos ↦ clear_bucket c pos
]
