-- ===== src/Tree/State.antt =====
-- The invariant of the tree, and what the tree holds: the map that its data list stands for.
use epli.Prelude.{
  ℕ, zero, suc, ◌+◌, ◌%◌, ◌≤◌, ◌≡◌, ◌≢◌, arith, [], ◌∷◌, Option, none, ◌∙◌, ◌==◌, leb, ltb,
  if◌then◌else◌, or_else, length, Bool-cases, inl, inr,
}
use epli.Entry.{Entry}
use epli.Entry.Slots.{lookup}
use epli.Index.{Index, Pairs, floor_addr, insert_key}
use epli.Tree.{Tree, locate, locate_insert}
use epli.Tree.Chain.{NotAmong, IsChain, view, view-floor}

-- The entries from an address on, followed by `next`, are searched for a key.
unfoldable pub scan_list : (fuel : ℕ) → (ℕ → Entry) → (entry key : ℕ) → Option ℕ
scan_list zero h a k = none
scan_list (suc fuel) h a k =
    if a == 0 then none else or_else (lookup (h a).kvs k) (scan_list fuel h (h a).next k)

-- The addresses lie below the frontier of the allocator, at multiples of the size of an entry.
abbrev pub IsPlaced : (frontier a : ℕ) → Type 0
IsPlaced f a = (a + 256 ≤ f) × (a % 256 ≡ 0) × (a ≢ 0)

abbrev pub ArePlaced : (frontier : ℕ) → Pairs → Type 0
ArePlaced f [] = Unit {0}
ArePlaced f ((k, a) ∷ c) = IsPlaced f a × ArePlaced f c

pub ArePlaced-mono : (f g : ℕ) (c : Pairs) → f ≤ g → ArePlaced f c → ArePlaced g c
ArePlaced-mono f g [] le h = tt
ArePlaced-mono f g ((k, a) ∷ c) le h = ((omega arith, h.0.1, h.0.2), ArePlaced-mono f g c le h.1)

pub ArePlaced-insert_key :
    (f m n : ℕ) (c : Pairs) → IsPlaced f n → ArePlaced f c → ArePlaced f (insert_key m n c)
ArePlaced-insert_key f m n [] p h = (p, tt)
ArePlaced-insert_key f m n ((k, a) ∷ c) p h = elim (Bool-cases (ltb m k)) [
  | inl e ↦ rw e (p, h)
  | inr e ↦ rw e (h.0, ArePlaced-insert_key f m n c p h.1)
]

pub NotAmong_of_placed : (f n : ℕ) (c : Pairs) → f ≤ n → ArePlaced f c → NotAmong n c
NotAmong_of_placed f n [] le h = tt
NotAmong_of_placed f n ((k, a) ∷ c) le h = (omega arith, NotAmong_of_placed f n c le h.1)

pub floor_ne_zero : (f a : ℕ) (c : Pairs) (k : ℕ) → a ≢ 0 → ArePlaced f c → floor_addr a c k ≢ 0
floor_ne_zero f a [] k n h = n
floor_ne_zero f a ((j, b) ∷ c) k n h = elim (Bool-cases (leb j k)) [
  | inl e ↦ rw e (floor_ne_zero f b c k h.0.2 h.1)
  | inr e ↦ rw e n
]

pub scan_list-view :
    (h : ℕ → Entry) (lo a : ℕ) (c : Pairs) (k : ℕ)
    → IsChain h lo a c
    → a ≢ 0
    → scan_list (suc (length c)) h a k ≡ view h a c k
unfolding scan_list
scan_list-view h lo a [] k g nz = ground arith
scan_list-view h lo a ((j, b) ∷ c) k g nz =
    rw (g.2, scan_list-view h j b c k g.7 g.6) (ground arith)

module _ (ix : Index) where
  open ix use {Carrier}

  -- The chain of entries is the one that the index stores; `lo` is the smallest index key.
  pub record IsTree (t : Tree Carrier) (lo : ℕ) : Type 0 where
    pub later : Pairs
    pub stored : ix.pairs t.index ≡ (lo, t.head) ∷ later
    pub chain : IsChain t.heap lo t.head later
    pub placed_head : IsPlaced t.nvm.current_addr t.head
    pub placed : ArePlaced t.nvm.current_addr later
    pub aligned : t.nvm.current_addr % 256 ≡ 0

  -- What the tree holds under a key, read from the data list alone.
  unfoldable pub contents : Tree Carrier → ℕ → Option ℕ
  contents t k = scan_list (length (ix.pairs t.index)) t.heap t.head k

  module _ {t : Tree Carrier} {lo : ℕ} (v : IsTree t lo) (k : ℕ) where
    pub contents-view : contents t k ≡ view t.heap t.head v.later k
    unfolding contents
    contents-view = rw v.stored (scan_list-view t.heap lo t.head v.later k v.chain v.placed_head.2)

    pub locate-floor : locate ix t k ≡ floor_addr t.head v.later k
    unfolding locate
    locate-floor = ix.floor t.index lo t.head v.later k v.stored

    pub locate_insert-floor : locate_insert ix t k ≡ floor_addr t.head v.later k
    unfolding locate_insert
    locate_insert-floor =
        rw locate-floor (
          ground
            (arith, floor_ne_zero t.nvm.current_addr t.head v.later k v.placed_head.2 v.placed))

    pub contents-lookup : k ≢ 0 → contents t k ≡ lookup (t.heap (floor_addr t.head v.later k)).kvs k
    contents-lookup nz = contents-view ∙ view-floor t.heap lo t.head v.later k v.chain nz
