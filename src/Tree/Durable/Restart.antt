-- ===== src/Tree/Durable/Restart.antt =====
-- `Recover` after the machine has stopped in the middle of a method.
use epli.Prelude.{
  ℕ, ◌/◌, ◌≤◌, ◌≡◌, ◌≢◌, refl, sym, ap, subst, List, [], ◌∷◌, some, ◌⊎◌, inl, inr, ◌==◌,
  if◌then◌else◌, true, store, Bool-cases, ==→eq, ◌∙◌, length,
}
use epli.Entry.{Entry, kvs_per_entry}
use epli.Entry.Durable.{Block, Instr, Method, stores, Steps, clean, fits}
use epli.Index.{Index, Pairs}
use epli.Tree.{Tree, locate}
use epli.Tree.State.{IsTree, contents}
use epli.Tree.Load.{recover}
use epli.Tree.Load.Recover.{HasMinKeys, recover-contents}
use epli.Tree.Durable.{method_key, leaves, Applies, stored_entry, survivor, method-Survives}

stored_min_key :
    (h : ℕ → Entry) (a : ℕ) (b : Block) (c : ℕ)
    → (store h a (stored_entry (h a) b) c).min_key ≡ (h c).min_key
unfolding store
stored_min_key h a b c = elim (Bool-cases (c == a)) [
  | inl e ↦ rw e (ap (λ x. (h x).min_key) (sym (==→eq c a e)))
  | inr e ↦ rw e refl
]

kept_HasMinKeys :
    (h h' : ℕ → Entry)
    → ((c : ℕ) → (h' c).min_key ≡ (h c).min_key)
    → (c : Pairs) (lo a : ℕ) → HasMinKeys h lo a c
    → HasMinKeys h' lo a c
kept_HasMinKeys h h' e [] lo a m = e a ∙ m
kept_HasMinKeys h h' e ((k, b) ∷ c) lo a m = (e a ∙ m.0, kept_HasMinKeys h h' e c k b m.1)

module _ (ix : Index) where
  open ix use {Carrier}

  module _ {t : Tree Carrier} {lo : ℕ} (v : IsTree ix t lo)
      (keys : HasMinKeys t.heap lo t.head v.later) (o : Method) (nk : method_key o ≢ 0)
      (le : lo ≤ method_key o) where
    -- In a tree that satisfies the invariant and whose entries have their index keys in `min_key`, a method
    -- is called for a valid key that is not below the smallest one of the index, `Insert` for an absent
    -- key whose entry has an empty slot, `Update` and `Remove` for a key that is there, all that it
    -- stores stands in the cache line that it flushes, and the memory has the entry. The machine stops
    -- between its first store and its return. From what the memory has, the head and an empty index,
    -- `Recover(load_size)`, whose array has room for the entries (behind the head there are at most
    -- `load_size / 14`), ends without a fault, and the tree holds under each valid key what it held
    -- before the call, or, all of it, what the method makes of it.
    pub recover-Survives :
        (a : ℕ) (q : List Instr) (b : Block)
        → locate ix t (method_key o) ≡ a
        → Applies o (t.heap a)
        → fits o (t.heap a).kvs ≡ true
        → Steps (stores o (t.heap a).kvs) (clean (t.heap a).kvs) q b
        → (load_size : ℕ) (s : Tree Carrier) → s.heap ≡ (survivor ix t a b).heap
        → s.head ≡ t.head
        → ix.pairs s.index ≡ []
        → length v.later ≤ load_size / kvs_per_entry
        → (u : Tree Carrier) × (recover ix load_size s ≡ some u)
          × (((j : ℕ) → j ≢ 0 → contents ix u j ≡ contents ix t j)
              ⊎ ((j : ℕ)
                  → j ≢ 0
                  → contents ix u j ≡ (if j == method_key o then leaves o else contents ix t j)))
    recover-Survives a q b at ap_o f st load_size s hp hd none_yet lt =
        let sur = method-Survives ix v o nk le a q b at ap_o f st in
        let w = sur.tree in
        let same : v.later ≡ w.later = cc (v.stored, w.stored) in
        let keys' =
          kept_HasMinKeys t.heap (survivor ix t a b).heap (stored_min_key t.heap a b) v.later lo
            t.head keys in
        let (u, run, pairs, reads, gets) =
          recover-contents ix w (subst (HasMinKeys (survivor ix t a b).heap lo t.head) same keys')
            load_size s hp hd none_yet
            (subst (λ c. length c ≤ load_size / kvs_per_entry) same lt) in
        (
          u,
          run,
          elim sur.whole [
            | inl h ↦ inl (λ j nj. reads j ∙ h j nj)
            | inr h ↦ inr (λ j nj. reads j ∙ h j nj)
          ],
        )
