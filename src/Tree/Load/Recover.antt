-- ===== src/Tree/Load/Recover.antt =====
-- `Recover`: the index that is read from the list of entries.
use epli.Prelude.{
  ℕ, zero, suc, ◌+◌, ◌/◌, ◌≤◌, ◌<◌, ◌≡◌, ◌≢◌, refl, arith, [], ◌∷◌, Option, none, some, ap, ◌∙◌,
  sym, length, false, ◌==◌,
}
use epli.Entry
use epli.Entry.{kvs_per_entry, Entry, ok, fail}
use epli.Index.{Index, Pairs, IsSorted}
use epli.Tree.{Tree, get, locate}
use epli.Tree.Chain.{IsChain}
use epli.Tree.State.{IsTree, contents, locate-floor}
use epli.Tree.Load.{recover, recover_loop}

-- `min_key` of each entry is its key in the index.
abbrev pub HasMinKeys : (ℕ → Entry) → (lo a : ℕ) → Pairs → Type 0
HasMinKeys h lo a [] = (h a).min_key ≡ lo
HasMinKeys h lo a ((k, b) ∷ c) = ((h a).min_key ≡ lo) × HasMinKeys h k b c

chain-IsSorted :
    (h : ℕ → Entry) (lo a m : ℕ) (c : Pairs) → IsChain h lo a c → m ≤ lo → IsSorted m ((lo, a) ∷ c)
chain-IsSorted h lo a m [] g le = (le, tt)
chain-IsSorted h lo a m ((k, b) ∷ c) g le =
    (le, chain-IsSorted h k b (suc lo) c g.7 (omega (arith, g.3)))

recover_step :
    (n : ℕ) (h : ℕ → Entry) (a b : ℕ) (c : Pairs)
    → a ≢ 0
    → (h a).next ≡ b
    → recover_loop n h b ≡ some c
    → recover_loop (suc n) h a ≡ some (((h a).min_key, a) ∷ c)
unfolding recover_loop
recover_step n h a b c nz next rest =
    let more : (a == 0) ≡ false = ground arith in rw (more, next, rest)

recover_end : (n : ℕ) (h : ℕ → Entry) → recover_loop n h 0 ≡ some []
unfolding recover_loop
recover_end zero h = refl
recover_end (suc n) h = refl

recover_loop-chain :
    (n : ℕ) (h : ℕ → Entry) (lo a : ℕ) (c : Pairs)
    → length c < n
    → IsChain h lo a c
    → a ≢ 0
    → HasMinKeys h lo a c
    → recover_loop n h a ≡ some ((lo, a) ∷ c)
recover_loop-chain zero h lo a c lt g nz m = absurd (omega arith)
recover_loop-chain (suc n) h lo a [] lt g nz m =
    recover_step n h a 0 [] nz g.2 (recover_end n h) ∙ ap (λ (k : ℕ). some ((k, a) ∷ [])) m
recover_loop-chain (suc n) h lo a ((k, b) ∷ c) lt g nz m =
    recover_step n h a b ((k, b) ∷ c) nz g.2
      (recover_loop-chain n h k b c (omega arith) g.7 g.6 m.1)
    ∙ ap (λ (j : ℕ). some ((j, a) ∷ (k, b) ∷ c)) m.0

same_entry : {h g : ℕ → Entry} {a b : ℕ} → h ≡ g → a ≡ b → h a ≡ g b
same_entry {h} {g} {a} {b} e q = ap (λ (f : ℕ → Entry). f a) e ∙ ap g q

module _ (ix : Index) where
  open ix use {Carrier}

  module _ {t : Tree Carrier} {lo : ℕ} (v : IsTree ix t lo)
      (keys : HasMinKeys t.heap lo t.head v.later) where
    -- Let `min_key` of each entry of a tree that satisfies the invariant be its key in the index, and let
    -- the array of `Recover` have room for the entries: behind the head there are at most `load_size / 14`.
    -- From the memory and the head of this tree and an empty index, `Recover(load_size)` ends without a
    -- fault, the index has its old pairs, and the list of entries and each `Get` answer as before.
    pub recover-contents :
        (load_size : ℕ) (s : Tree Carrier)
        → s.heap ≡ t.heap
        → s.head ≡ t.head
        → ix.pairs s.index ≡ []
        → length v.later ≤ load_size / kvs_per_entry
        → (t' : Tree Carrier) × (recover ix load_size s ≡ some t')
          × (ix.pairs t'.index ≡ ix.pairs t.index)
          × ((k : ℕ) → contents ix t' k ≡ contents ix t k)
          × ((k val : ℕ) → get ix t' k val ≡ get ix t k val)
    unfolding recover contents get locate
    recover-contents load_size s hp hd none_yet lt =
        let loaded = ix.bulk_load s.index ((lo, t.head) ∷ v.later) in
        let sorted = chain-IsSorted t.heap lo t.head 0 v.later v.chain (omega arith) in
        let pairs = ix.pairs-bulk_load s.index ((lo, t.head) ∷ v.later) none_yet sorted in
        let run =
          recover_loop-chain (load_size / kvs_per_entry + 1) t.heap lo t.head v.later
            (omega (arith, lt)) v.chain v.placed_head.2 keys in
        let read : recover_loop (load_size / kvs_per_entry + 1) s.heap s.head
            ≡ some ((lo, t.head) ∷ v.later) =
          rw (hp, hd) run in
        let same = pairs ∙ sym v.stored in
        let at = λ (k : ℕ). ix.floor loaded lo t.head v.later k pairs ∙ sym (locate-floor ix v k) in
        (
          record s { index = loaded },
          ap
              (λ (o : Option Pairs). elim o [
                | none ↦ none
                | some c ↦ some (record s { index = ix.bulk_load s.index c })
              ])
              read,
          same,
          λ k. rw (same, hp, hd),
          λ k val.
              let entry : s.heap (locate ix (record s { index = loaded }) k)
                  ≡ t.heap (locate ix t k) =
                same_entry hp (at k) in
              ap (λ (e : Entry). let r = Entry.get e k val in elim r.0 [ ok ↦ r | _ ↦ (fail, 0) ])
                entry,
        )
