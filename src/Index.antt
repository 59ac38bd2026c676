-- ===== src/Index.antt =====
-- The in-memory index that the tree calls: `alex::Alex<key_type, Entry *>` of include/alex, a copy
-- of another project's library. It is a parameter of the model: the operations that the tree calls
-- with the behaviour that their comments state, told by the sorted list of the stored pairs.
use epli.Prelude.{ℕ, suc, ◌≤◌, ◌≡◌, List, [], ◌∷◌, Bool, false, ltb, leb, ◌==◌, ◌||◌, if◌then◌else◌}

-- Keys with addresses of entries.
abbrev pub Pairs : Type 0
Pairs = List (ℕ × ℕ)

abbrev pub has_key : ℕ → Pairs → Bool
has_key k [] = false
has_key k ((j, a) ∷ c) = (j == k) || has_key k c

abbrev pub erase_key : ℕ → Pairs → Pairs
erase_key k [] = []
erase_key k ((j, a) ∷ c) = if j == k then erase_key k c else (j, a) ∷ erase_key k c

abbrev pub insert_key : (key addr : ℕ) → Pairs → Pairs
insert_key k b [] = (k, b) ∷ []
insert_key k b ((j, a) ∷ c) = if ltb k j then (k, b) ∷ (j, a) ∷ c else (j, a) ∷ insert_key k b c

-- The address at the last key that is not greater than `k`, or `d` where all are greater.
abbrev pub floor_addr : (d : ℕ) → Pairs → (k : ℕ) → ℕ
floor_addr d [] k = d
floor_addr d ((j, a) ∷ c) k = if leb j k then floor_addr a c k else d

-- The keys grow strictly, from `lo` on.
abbrev pub IsSorted : (lo : ℕ) → Pairs → Type 0
IsSorted lo [] = Unit {0}
IsSorted lo ((j, a) ∷ c) = (lo ≤ j) × IsSorted (suc j) c

-- `pairs` is the content, which no operation of the program reads. A lookup below all the keys
-- answers with the first pair; on an empty index it reads an unused slot, of which nothing is said.
-- A bulk load does nothing unless the index is empty.
pub record Index : Type 1 where
  pub Carrier : Type 0
  pub empty : Carrier
  pub insert : Carrier → (key addr : ℕ) → Carrier
  pub erase : Carrier → (key : ℕ) → Carrier
  pub bulk_load : Carrier → Pairs → Carrier
  pub get_payload_last_no_greater_than : Carrier → (key : ℕ) → ℕ
  pub pairs : Carrier → Pairs
  pub pairs-empty : pairs empty ≡ []
  pub pairs-insert :
      (i : Carrier) (k b : ℕ)
      → has_key k (pairs i) ≡ false
      → pairs (insert i k b) ≡ insert_key k b (pairs i)
  pub pairs-erase : (i : Carrier) (k : ℕ) → pairs (erase i k) ≡ erase_key k (pairs i)
  pub pairs-bulk_load :
      (i : Carrier) (c : Pairs) → pairs i ≡ [] → IsSorted 0 c → pairs (bulk_load i c) ≡ c
  pub floor :
      (i : Carrier) (j a : ℕ) (c : Pairs) (k : ℕ)
      → pairs i ≡ (j, a) ∷ c
      → get_payload_last_no_greater_than i k ≡ floor_addr a c k
