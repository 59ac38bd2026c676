-- ===== src/Tree/Free.antt =====
-- The destructor of `DataList`: src/datalist.h.
use epli.Prelude.{
  ℕ, zero, suc, ◌+◌, ◌*◌, ◌^◌, ◌≤◌, ◌<◌, ◌≡◌, ◌≢◌, refl, arith, [], ◌∷◌, Option, none, some, ◌==◌,
  if◌then◌else◌, length, ap, false,
}
use epli.Entry.{Entry}
use epli.Nvm.{Alloc, free}
use epli.Index.{Index, Pairs}
use epli.Tree.{Tree, entry_size}
use epli.Tree.Chain.{IsChain}
use epli.Tree.State.{IsTree}

-- The loop of `~DataList`; the successor of an entry is read before the entry is freed. `none` means that the
-- fuel ran out.
unfoldable pub free_list : (fuel : ℕ) → (ℕ → Entry) → (cur : ℕ) → Alloc → Option Alloc
free_list zero h cur nvm = none
free_list (suc fuel) h cur nvm =
    let rest = free_list fuel h (h cur).next (free cur entry_size nvm) in
    if cur == 0 then some nvm else rest

-- The bytes in use are `n` less: fewer used ones or more freed ones.
abbrev Less : (n : ℕ) → Alloc → Alloc → Type 0
Less n a b =
    (b.used + n + a.freed ≡ a.used + b.freed)
    × (b.used ≤ a.used)
    × (a.freed ≤ b.freed)
    × (b.freed ≤ a.freed + n)

free-Less :
    (p : ℕ) (a : Alloc)
    → p ≢ 0
    → entry_size ≤ a.used
    → a.used < 2 ^ 64
    → a.freed + entry_size < 2 ^ 64
    → Less entry_size a (free p entry_size a)
unfolding free
free-Less p a nz le small room = ground arith

free_end : (n : ℕ) (h : ℕ → Entry) (nvm : Alloc) → 0 < n → free_list n h 0 nvm ≡ some nvm
unfolding free_list
free_end zero h nvm lt = absurd (omega arith)
free_end (suc n) h nvm lt = refl

free_list-chain :
    (n : ℕ) (h : ℕ → Entry) (lo a : ℕ) (c : Pairs) (nvm : Alloc)
    → suc (length c) < n
    → IsChain h lo a c
    → a ≢ 0
    → entry_size * suc (length c) ≤ nvm.used
    → nvm.used < 2 ^ 64
    → nvm.freed + entry_size * suc (length c) < 2 ^ 64
    → (r : Alloc) × (free_list n h a nvm ≡ some r) × Less (entry_size * suc (length c)) nvm r
unfolding free_list
free_list-chain zero h lo a c nvm lt g nz le small room = absurd (omega arith)
free_list-chain (suc n) h lo a [] nvm lt g nz le small room =
    let more : (a == 0) ≡ false = ground arith in
    (
      free a entry_size nvm,
      rw (more, g.2) (free_end n h (free a entry_size nvm) (omega arith)),
      free-Less a nvm nz (omega arith) small (omega arith),
    )
free_list-chain (suc n) h lo a ((k, b) ∷ c) nvm lt g nz le small room =
    let more : (a == 0) ≡ false = ground arith in
    let (sum, used, low, high) = free-Less a nvm nz (omega arith) small (omega arith) in
    let (r, ran, (sum', used', low', high')) =
      free_list-chain n h k b c (free a entry_size nvm) (omega arith) g.7 g.6
        (omega (arith, sum, low)) (omega (arith, used)) (omega (arith, high)) in
    (
      r,
      rw (more, g.2) ran,
      (
        omega (arith, sum, sum'),
        omega (arith, used, used'),
        omega (arith, low, low'),
        omega (arith, high, high'),
      ),
    )

module _ (ix : Index) where
  open ix use {Carrier}

  -- The destructor of a tree that satisfies the invariant ends, with a round for each entry and one more. It gives
  -- back the 256 bytes of each entry once: the bytes that are used and not freed become less by that many, where the
  -- used bytes suffice and the counter of freed bytes does not wrap around.
  pub free_list_lem :
      {t : Tree Carrier} {lo : ℕ} (v : IsTree ix t lo)
      → let n = length (ix.pairs t.index) in
        entry_size * n ≤ t.nvm.used
        → t.nvm.used < 2 ^ 64
        → t.nvm.freed + entry_size * n < 2 ^ 64
        → (r : Alloc) × (free_list (suc n) t.heap t.head t.nvm ≡ some r)
          × (r.used + entry_size * n + t.nvm.freed ≡ t.nvm.used + r.freed)
  free_list_lem {t} {lo} v le small room =
      let n = length (ix.pairs t.index) in
      let len : n ≡ suc (length v.later) = ap length v.stored in
      let (r, ran, (sum, used, low, high)) =
        free_list-chain (suc n) t.heap lo t.head v.later t.nvm (omega (arith, len)) v.chain
          v.placed_head.2 (omega (arith, len)) small (omega (arith, len)) in
      (r, ran, omega (arith, sum, len))
