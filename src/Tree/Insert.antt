-- ===== src/Tree/Insert.antt =====
-- `splitEntry` keeps what the tree holds, and `Insert` adds a key; two rounds are enough.
use epli.Prelude.{
  ℕ, suc, ◌+◌, ◌%◌, ◌≤◌, ◌<◌, ◌≡◌, ◌≢◌, refl, arith, [], ◌∷◌, none, some, ◌∙◌, sym, subst, false,
  ltb, store, store_same, store_other, Bool-cases, inl, inr, ◌⊎◌,
}
use epli.Entry.{Entry, ok, overflow, maybe_put}
use epli.Entry.Slots.{count}
use epli.Entry.Methods.{Writes, maybe_put-Writes}
use epli.Index.{Index, Pairs, floor_addr, insert_key, has_key}
use epli.Nvm.{alloc_aligned}
use epli.Nvm.Bump.{alloc_aligned-IsAligned, alloc_aligned-Precedes}
use epli.Tree.{Tree, locate_insert, insert, split_entry, split_heap, pivot_key, entry_size}
use epli.Tree.Chain.{IsChain, floor-IsValid, floor-NotAmong}
use epli.Tree.Cut.{Keeps, cut-Keeps}
use epli.Tree.Split.{halves-Cuts, split_heap-eq, left_half, right_half, halves_roomy}
use epli.Tree.State.{
  IsPlaced, ArePlaced-mono, ArePlaced-insert_key, NotAmong_of_placed, IsTree, contents,
  contents-view, locate_insert-floor, contents-lookup,
}
use epli.Tree.Methods.{Updates, written-Updates}

keys_above :
    (h : ℕ → Entry) (lo a m : ℕ) (c : Pairs) → IsChain h lo a c → m ≤ lo → has_key m c ≡ false
keys_above h lo a m [] g le = refl
keys_above h lo a m ((k, b) ∷ c) g le = ground (arith, g.3, keys_above h k b m c g.7)

inserted_fresh :
    (h : ℕ → Entry) (lo a m n : ℕ) (c : Pairs)
    → IsChain h lo a (insert_key m n c)
    → (lo < m) × (has_key m c ≡ false)
inserted_fresh h lo a m n [] g = (g.3, refl)
inserted_fresh h lo a m n ((k, b) ∷ c) g = elim (Bool-cases (ltb m k)) [
  | inl e ↦ let g' = rw e at g in (g'.3, ground (arith, keys_above h k b m c g'.7.7))
  | inr e ↦
      let g' = rw e at g in
      let r = inserted_fresh h k b m n c g'.7 in
      (omega (arith, g'.3, r.0), ground (arith, r.0, r.1))
]

behind :
    (lo a m n : ℕ) (c : Pairs)
    → lo < m
    → has_key m c ≡ false
    → (has_key m ((lo, a) ∷ c) ≡ false)
      × (insert_key m n ((lo, a) ∷ c) ≡ (lo, a) ∷ insert_key m n c)
behind lo a m n c lt h = (ground arith, ground arith)

floor-insert_key :
    (a m n : ℕ) (c : Pairs) (k : ℕ)
    → (floor_addr a (insert_key m n c) k ≡ n)
      ⊎ (floor_addr a (insert_key m n c) k ≡ floor_addr a c k)
floor-insert_key a m n [] k = ground arith
floor-insert_key a m n ((j, b) ∷ c) k = ground (arith, floor-insert_key b m n c k)

module _ (ix : Index) where
  open ix use {Carrier}

  module _ {t : Tree Carrier} {lo : ℕ} (v : IsTree ix t lo) (k : ℕ) where
    abbrev pub target : ℕ
    target = floor_addr t.head v.later k

    abbrev pub fresh : ℕ
    fresh = (alloc_aligned entry_size 256 t.nvm).0

    abbrev pivot : ℕ
    pivot = pivot_key (t.heap target)

    pub fresh_facts :
        (t.nvm.current_addr ≤ fresh)
        × (fresh % 256 ≡ 0)
        × ((alloc_aligned entry_size 256 t.nvm).1.current_addr ≡ fresh + 256)
        × ((alloc_aligned entry_size 256 t.nvm).1.current_addr % 256 ≡ 0)
    fresh_facts =
        let al = alloc_aligned-IsAligned 256 256 t.nvm (omega arith) in
        let pr = alloc_aligned-Precedes 256 256 256 t.nvm (omega arith) v.aligned refl in
        (al.1, al.0, pr.1, pr.2)

    module _ (full : count 0 (t.heap target).kvs ≡ 0) where
      split-Keeps :
          Keeps t.heap lo t.head v.later
            (split_heap t.heap target fresh)
            (insert_key pivot fresh v.later)
      split-Keeps =
          let ok_entry = floor-IsValid t.heap lo t.head v.later k v.chain in
          let cuts = halves-Cuts (t.heap target) ok_entry full fresh in
          let f = fresh_facts in
          let nh : fresh ≢ t.head = omega (arith, f.0, v.placed_head.0) in
          let nn : fresh ≢ 0 = omega (arith, f.0, v.placed_head.0) in
          let nc = NotAmong_of_placed t.nvm.current_addr fresh v.later f.0 v.placed in
          let keep =
            cut-Keeps t.heap fresh pivot (left_half (t.heap target) fresh)
              (right_half (t.heap target)) nn lo t.head v.later k v.chain nh nc cuts in
          rw
            (split_heap-eq t.heap target fresh (floor-NotAmong t.heap fresh t.head v.later k nh nc))
            keep

      -- The split keeps the invariant.
      split-IsTree : IsTree ix (split_entry ix t target) lo
      unfolding split_entry
      split-IsTree =
          let kp = split-Keeps in
          let f = fresh_facts in
          let new =
            inserted_fresh (split_heap t.heap target fresh) lo t.head pivot fresh v.later kp.0 in
          let at : IsPlaced (alloc_aligned entry_size 256 t.nvm).1.current_addr fresh =
            (omega (arith, f.2), f.1, omega (arith, f.0, v.placed_head.0)) in
          let away = behind lo t.head pivot fresh v.later new.0 new.1 in
          record {
            later = insert_key pivot fresh v.later;
            stored =
                ix.pairs-insert t.index pivot fresh (rw v.stored away.0) ∙ (rw v.stored away.1);
            chain = kp.0;
            placed_head =
                (omega (arith, f.2, f.0, v.placed_head.0), v.placed_head.1, v.placed_head.2);
            placed =
                ArePlaced-insert_key _ pivot fresh v.later at
                  (ArePlaced-mono t.nvm.current_addr _ v.later (omega (arith, f.2, f.0)) v.placed);
            aligned = f.3;
          }

      -- In a tree that satisfies the invariant, the split of the entry that takes a key `k`, if that
      -- entry has no empty slot, keeps what the tree holds under each valid key.
      pub split-contents :
          (j : ℕ) → j ≢ 0 → contents ix (split_entry ix t target) j ≡ contents ix t j
      unfolding split_entry split-IsTree
      split-contents j nj =
          rw (contents-view ix split-IsTree j, contents-view ix v j) (split-Keeps.1 j nj)

      -- The entry that takes the key after the split has an empty slot.
      split_roomy :
          count 0
            ((split_entry ix t target).heap (locate_insert ix (split_entry ix t target) k)).kvs
          ≢ 0
      unfolding split_entry split-IsTree
      split_roomy =
          let f = fresh_facts in
          let ht = t.heap target in
          let rooms = halves_roomy ht fresh (floor-IsValid t.heap lo t.head v.later k v.chain) in
          let nh : fresh ≢ t.head = omega (arith, f.0, v.placed_head.0) in
          let nc = NotAmong_of_placed t.nvm.current_addr fresh v.later f.0 v.placed in
          let ne = floor-NotAmong t.heap fresh t.head v.later k nh nc in
          let h1 = store t.heap fresh (right_half ht) in
          rw (locate_insert-floor ix split-IsTree k, split_heap-eq t.heap target fresh ne)
            (elim (floor-insert_key t.head pivot fresh v.later k) [
              | inl e ↦
                  rw
                    (
                      e,
                      store_other h1 target fresh (left_half ht fresh) ne,
                      store_same t.heap fresh (right_half ht),
                    )
                    rooms.1
              | inr e ↦ rw (e, store_same h1 target (left_half ht fresh)) rooms.0
            ])

module _ (ix : Index) where
  open ix use {Carrier}

  insert_ok :
      (f : ℕ) (t : Tree Carrier) (k val a : ℕ) (x : Entry)
      → locate_insert ix t k ≡ a
      → maybe_put (t.heap a) k val ≡ (x, ok)
      → insert ix (suc f) t k val ≡ some (record t { heap = store t.heap a x }, ok)
  unfolding insert
  insert_ok f t k val a x e =
      subst
        (λ b.
          maybe_put (t.heap b) k val ≡ (x, ok)
          → insert ix (suc f) t k val ≡ some (record t { heap = store t.heap b x }, ok))
        e (λ run. rw (run, insert) (rw run))

  insert_again :
      (f : ℕ) (t : Tree Carrier) (k val a : ℕ) (x : Entry)
      → locate_insert ix t k ≡ a
      → maybe_put (t.heap a) k val ≡ (x, overflow)
      → insert ix (suc f) t k val ≡ insert ix f (split_entry ix t a) k val
  unfolding insert
  insert_again f t k val a x e =
      subst
        (λ b.
          maybe_put (t.heap b) k val ≡ (x, overflow)
          → insert ix (suc f) t k val ≡ insert ix f (split_entry ix t b) k val)
        e (λ run. rw (run, insert))

  -- A round of `Insert` whose entry has an empty slot.
  insert_round :
      (f : ℕ) {t : Tree Carrier} {lo : ℕ} (v : IsTree ix t lo) (k val : ℕ)
      → k ≢ 0
      → lo ≤ k
      → (x : Entry) → maybe_put (t.heap (floor_addr t.head v.later k)) k val ≡ (x, ok)
      → Writes (t.heap (floor_addr t.head v.later k)) k (some val) x
      → (t' : Tree Carrier) × (insert ix (suc f) t k val ≡ some (t', ok))
        × Updates ix t lo k (some val) t'
  insert_round f {t} {lo} v k val nz le x run wr = (
    record t { heap = store t.heap (floor_addr t.head v.later k) x },
    insert_ok f t k val _ x (locate_insert-floor ix v k) run,
    written-Updates ix v k nz (some val) x le wr,
  )

  -- A round of `Insert` that splits the entry, and the next one.
  insert_split :
      (f : ℕ) {t : Tree Carrier} {lo : ℕ} (v : IsTree ix t lo) (k val : ℕ)
      → k ≢ 0
      → lo ≤ k
      → contents ix t k ≡ none
      → maybe_put (t.heap (floor_addr t.head v.later k)) k val
        ≡ (t.heap (floor_addr t.head v.later k), overflow)
      → count 0 (t.heap (floor_addr t.head v.later k)).kvs ≡ 0
      → (t' : Tree Carrier) × (insert ix (suc (suc f)) t k val ≡ some (t', ok))
        × Updates ix t lo k (some val) t'
  insert_split f {t} {lo} v k val nz le absent run full =
      let a = floor_addr t.head v.later k in
      let t₁ = split_entry ix t a in
      let v₁ = split-IsTree ix v k full in
      let same = split-contents ix v k full in
      let absent₁ = same k nz ∙ absent in
      let at₁ = sym (contents-lookup ix v₁ k nz) ∙ absent₁ in
      let room = rw (locate_insert-floor ix v₁ k) at (split_roomy ix v k full) in
      let good₁ = floor-IsValid t₁.heap lo t₁.head v₁.later k v₁.chain in
      elim (maybe_put-Writes (t₁.heap (floor_addr t₁.head v₁.later k)) good₁ k val nz at₁) [
        | inl (run₁, full₁) ↦ absurd (room full₁)
        | inr (x, run₁, wr) ↦
            let (t', went, up) = insert_round f v₁ k val nz le x run₁ wr in
            (
              t',
              insert_again (suc f) t k val a _ (locate_insert-floor ix v k) run ∙ went,
              record { tree = up.tree; reads = λ j nj. rw (← same j nj) (up.reads j nj) },
            )
      ]

  -- In a tree that satisfies the invariant, `Insert` of a valid key that it does not hold, not below
  -- the smallest index key, ends within two rounds, so with at most one split, answers STATUS_OK, adds the
  -- pair, and keeps the other keys and the invariant.
  pub insert-Updates :
      (f : ℕ) {t : Tree Carrier} {lo : ℕ} (v : IsTree ix t lo) (k val : ℕ)
      → k ≢ 0
      → lo ≤ k
      → contents ix t k ≡ none
      → (t' : Tree Carrier) × (insert ix (suc (suc f)) t k val ≡ some (t', ok))
        × Updates ix t lo k (some val) t'
  insert-Updates f {t} {lo} v k val nz le absent =
      let a = floor_addr t.head v.later k in
      let good = floor-IsValid t.heap lo t.head v.later k v.chain in
      let at = sym (contents-lookup ix v k nz) ∙ absent in
      elim (maybe_put-Writes (t.heap a) good k val nz at) [
        | inr (x, run, wr) ↦ insert_round (suc f) v k val nz le x run wr
        | inl (run, full) ↦ insert_split f v k val nz le absent run full
      ]
