-- ===== src/Tree/Durable.antt =====
-- `Insert` without a split, `Update` and `Remove` of src/epltree.h when the machine may stop in the middle of
-- the method of the entry: what the list of entries in the memory holds then.
pub mod Restart
use epli.Prelude.{
  ℕ, ◌≤◌, ◌≡◌, ◌≢◌, refl, sym, ap, subst, arith, List, [], Option, none, some, ◌⊎◌, inl, inr, ◌==◌,
  if◌then◌else◌, true, store, Bool-cases, ==→eq, ◌∙◌, Option-cases, length,
}
use epli.Entry.{Entry, Kv, maybe_put}
use epli.Entry
use epli.Entry.Slots.{lookup, count}
use epli.Entry.Methods.{IsValid, Writes, maybe_put-Writes, update-Writes, remove-Writes}
use epli.Entry.Durable.{
  Block, Instr, Method, put, update, remove, run_method, stores, Steps, clean, fits,
}
use epli.Entry.Durable.Crash.{Alike, Crashes, Steps-Crashes}
use epli.Index.{Index, floor_addr}
use epli.Tree.{Tree, locate}
use epli.Tree.Chain.{floor-IsValid}
use epli.Tree.State.{IsTree, contents, locate-floor, contents-lookup}
use epli.Tree.Methods.{Updates, written-Updates}

abbrev pub method_key : Method → ℕ
method_key (put k v) = k
method_key (update k v) = k
method_key (remove k) = k

-- What is under the key afterwards.
abbrev pub leaves : Method → Option ℕ
leaves (put k v) = some v
leaves (update k v) = some v
leaves (remove k) = none

-- `MaybePut` is called for a new key and has an empty slot; the others find the key.
abbrev pub Applies : Method → Entry → Type 0
Applies (put k v) e = (lookup e.kvs k ≡ none) × (count 0 e.kvs ≢ 0)
Applies (update k v) e = lookup e.kvs k ≢ none
Applies (remove k) e = lookup e.kvs k ≢ none

run_method-Writes :
    (o : Method) (e : Entry)
    → IsValid e
    → method_key o ≢ 0
    → Applies o e
    → Writes e (method_key o) (leaves o) (run_method o e).0
unfolding run_method
run_method-Writes (put k v) e g nk (absent, room) = elim (maybe_put-Writes e g k v nk absent) [
  | inl (run, full) ↦ absurd (room full)
  | inr (r, run, w) ↦ rw run w
]
run_method-Writes (update k v) e g nk h = elim (Option-cases (lookup e.kvs k)) [
  | inl n ↦ absurd (h n)
  | inr (w, n) ↦ let (r, run, wr) = update-Writes e g k v nk w n in rw run wr
]
run_method-Writes (remove k) e g nk h = elim (Option-cases (lookup e.kvs k)) [
  | inl n ↦ absurd (h n)
  | inr (w, n) ↦ let (r, run, wr) = remove-Writes e g k 0 nk w n in rw run wr
]

-- The entry with the array that the memory has.
abbrev pub stored_entry : Entry → Block → Entry
stored_entry e b = record e { kvs = b.stored }

stored-Writes :
    (e : Entry) (b : Block) (k : ℕ) (o : Option ℕ) (r : Entry)
    → b.stored ≡ r.kvs
    → Writes e k o r
    → Writes e k o (stored_entry e b)
stored-Writes e b k o r h w = record {
  valid = record {
    slots = ap length h ∙ w.valid.slots;
    unique = λ j nj. rw h (w.valid.unique j nj);
  };
  next = refl;
  reads = λ j nj. rw h (w.reads j nj);
}

Alike-Writes :
    (e : Entry) (b : Block) (k : ℕ)
    → IsValid e
    → Alike e.kvs b.stored
    → Writes e k (lookup e.kvs k) (stored_entry e b)
Alike-Writes e b k g a = record {
  valid = record { slots = a.size ∙ g.slots; unique = λ j nj. rw (a.counts j nj) (g.unique j nj) };
  next = refl;
  reads = λ j nj. a.reads j nj ∙ (elim (Bool-cases (j == k)) [
    | inl e2 ↦ rw e2 (ap (lookup e.kvs) (==→eq j k e2))
    | inr e2 ↦ rw e2 refl
  ]);
}

module _ (ix : Index) where
  open ix use {Carrier}

  -- The tree whose entry at an address is as the memory has it.
  abbrev pub survivor : Tree Carrier → (a : ℕ) → Block → Tree Carrier
  survivor t a b = record t { heap = store t.heap a (stored_entry (t.heap a) b) }

  -- The tree holds what it held, or what the method makes of it.
  pub record Survives (t : Tree Carrier) (lo : ℕ) (o : Method) (q : List Instr) (u : Tree Carrier)
      : Type 0 where
    pub tree : IsTree ix u lo
    pub whole :
        ((j : ℕ) → j ≢ 0 → contents ix u j ≡ contents ix t j)
        ⊎ ((j : ℕ)
            → j ≢ 0
            → contents ix u j ≡ (if j == method_key o then leaves o else contents ix t j))
    pub finished :
        q ≡ []
        → (j : ℕ) → j ≢ 0
        → contents ix u j ≡ (if j == method_key o then leaves o else contents ix t j)

  module _ {t : Tree Carrier} {lo : ℕ} (v : IsTree ix t lo) (o : Method) (nk : method_key o ≢ 0)
      (le : lo ≤ method_key o) where
    abbrev home : ℕ
    home = floor_addr t.head v.later (method_key o)

    unchanged : (m : ℕ → Option ℕ) (k j : ℕ) → (if j == k then m k else m j) ≡ m j
    unchanged m k j = elim (Bool-cases (j == k)) [
      | inl e ↦ rw e (ap m (sym (==→eq j k e)))
      | inr e ↦ rw e refl
    ]

    floor-Survives :
        (q : List Instr) (b : Block)
        → Applies o (t.heap home)
        → Crashes o (t.heap home) q b
        → Survives t lo o q (survivor t home b)
    floor-Survives q b ap_o c =
        let e = t.heap home in
        let k = method_key o in
        let g = floor-IsValid t.heap lo t.head v.later k v.chain in
        let done = run_method-Writes o e g nk ap_o in
        let after = λ (h : b.stored ≡ (run_method o e).0.kvs).
          written-Updates ix v k nk (leaves o) (stored_entry e b) le
            (stored-Writes e b k (leaves o) _ h done) in
        let end = λ (n : q ≡ []). (after (ap (λ x. x.stored) (c.finished n))).reads in
        elim c.whole [
          | inl a ↦
              let up =
                written-Updates ix v k nk (lookup e.kvs k) (stored_entry e b) le
                  (Alike-Writes e b k g a) in
              record {
                tree = up.tree;
                whole = inl (λ j nj.
                    up.reads j nj
                    ∙ ap (λ x. if j == k then x else contents ix t j)
                        (sym (contents-lookup ix v k nk))
                    ∙ unchanged (contents ix t) k j);
                finished = end;
              }
          | inr h ↦ record { tree = (after h).tree; whole = inr (after h).reads; finished = end }
        ]

    -- In a tree that satisfies the invariant, a method is called for a valid key that is not below the
    -- smallest one of the index, `Insert` for an absent key whose entry has an empty slot, `Update` and
    -- `Remove` for a key that is there, all that it stores stands in the cache line that it flushes, and
    -- the memory has the entry. In each state from its first store to its return, cache lines written
    -- back at any moments, the list of entries in the memory satisfies the invariant, and holds what it
    -- held or what the method makes of it; the latter once the method has returned.
    pub method-Survives :
        (a : ℕ) (q : List Instr) (b : Block)
        → locate ix t (method_key o) ≡ a
        → Applies o (t.heap a)
        → fits o (t.heap a).kvs ≡ true
        → Steps (stores o (t.heap a).kvs) (clean (t.heap a).kvs) q b
        → Survives t lo o q (survivor t a b)
    method-Survives a q b at ap_o f st =
        let same : home ≡ a = sym (locate-floor ix v (method_key o)) ∙ at in
        subst (λ x. Survives t lo o q (survivor t x b)) same
          (floor-Survives q b (subst (λ x. Applies o (t.heap x)) (sym same) ap_o) (
            subst (λ x. Crashes o (t.heap x) q b) (sym same) (Steps-Crashes o (t.heap a) q b f st)))
