-- ===== src/Epli/Cached/Session.antt =====
-- Sequences of calls of the interface with the SW-Table in front of the tree.
use epli.Prelude.{
  ℕ, ◌≡◌, ◌≢◌, refl, List, [], ◌∷◌, ◌++◌, Option, none, some, ◌∙◌, Option-cases, inl, inr, sym, ap,
  length,
}
use epli.Index.{Index}
use epli.Clht.{Bucket, entries_per_bucket, Hashtable}
use epli.Epli.{Op, put, update, get, remove}
use epli.Epli.Spec.{Map, spec_apply, spec_run, IsAllowed}
use epli.Epli.Cached
use epli.Epli.Cached.{Cached}
use epli.Epli.Cached.Coherent.{IsCoherent, tree_get}
use epli.Epli.Cached.Sampled.{get-IsCoherent}
use epli.Epli.Cached.Writes.{update-IsCoherent, remove-IsCoherent, insert-IsCoherent}
use epli.Epli.Refines.{Represents, apply-Refines}
use epli.Epli
use epli.Tree.Insert.{insert-Updates}

-- As for the default build, and an update is of a key that is there.
unfoldable pub IsServed : (lo : ℕ) → Map → Op → Type 0
unfolding IsAllowed
IsServed lo m (put k v) = IsAllowed lo m (put k v)
IsServed lo m (update k v) = (k ≢ 0) × (m k ≢ none)
IsServed lo m (get k) = k ≢ 0
IsServed lo m (remove k) = k ≢ 0

unfoldable pub AreServed : (lo : ℕ) → Map → List Op → Type 0
AreServed lo m [] = Unit {0}
AreServed lo m (op ∷ ops) = IsServed lo m op × AreServed lo (spec_apply op m).0 ops

same_tree :
    {A : Type 0} (a b : A) (x y : List ℕ)
    → ◌≡◌ {A = Option (A × List ℕ)} (some (a, x)) (some (b, y))
    → a ≡ b
same_tree {A} a b x y h = ap (λ (o : Option (A × List ℕ)). elim o [ none ↦ a | some r ↦ r.0 ]) h

-- One call. `fuel` is for a resize of the table, which needs none of it; an insertion gets two rounds.
module _ (ix : Index) (fuel : ℕ) (raw : Hashtable → Bucket) where
  open ix use {Carrier}

  unfoldable pub apply : Op → Cached Carrier → Option (Cached Carrier × List ℕ)
  apply (put k v) c = elim (Cached.put ix 2 c k v) [ none ↦ none | some c' ↦ some (c', []) ]
  apply (update k v) c = some (Cached.update ix c k v, [])
  apply (get k) c = elim (Cached.get ix fuel raw c k) [
    | none ↦ none
    | some (c', v) ↦ some (c', v ∷ [])
  ]
  apply (remove k) c = some (Cached.remove ix c k, [])

  unfoldable pub run : List Op → Cached Carrier → Option (Cached Carrier × List ℕ)
  run [] c = some (c, [])
  run (op ∷ ops) c = elim (apply op c) [
    | none ↦ none
    | some (c', out) ↦ elim (run ops c') [
      | none ↦ none
      | some (c'', outs) ↦ some (c'', out ++ outs)
    ]
  ]

  -- Both builds step to the same tree and deliver the same.
  pub Steps : Op → Cached Carrier → (lo : ℕ) → Map → Type 0
  Steps op c lo m =
      (c' : Cached Carrier) × (apply op c ≡ some (c', (spec_apply op m).1))
      × (Epli.apply ix op c.tree ≡ some (c'.tree, (spec_apply op m).1))
      × IsCoherent ix c' lo
      × Represents ix c'.tree lo (spec_apply op m).0

  module _ (full : (t : Hashtable) → length (raw t).slots ≡ entries_per_bucket) where
    apply-Steps :
        (op : Op) {c : Cached Carrier} {lo : ℕ} {m : Map}
        → IsCoherent ix c lo
        → Represents ix c.tree lo m
        → IsServed lo m op
        → Steps op c lo m
    unfolding Steps apply IsServed IsAllowed Epli.apply spec_apply Cached.put Cached.update
        Cached.remove
    apply-Steps (put k v) {c} {lo} {m} i r (nz, le, new) =
        let (t, ran, u) = insert-Updates ix 0 r.tree k v nz le (r.reads k nz ∙ new) in
        let (t', ran', r') = apply-Refines ix (put k v) r (nz, le, new) in
        let same : t ≡ t' = same_tree t t' [] [] (sym (rw (ran, Epli.apply) refl) ∙ ran') in
        (
          record c { tree = t },
          rw (ran, apply, Cached.put) refl,
          rw (ran, Epli.apply) refl,
          insert-IsCoherent ix i k v t (r.reads k nz ∙ new) u,
          rw same r',
        )
    apply-Steps (update k v) {c} {lo} {m} i r (nz, here) = elim (Option-cases (m k)) [
      | inl e ↦ absurd (here e)
      | inr (w, e) ↦
          let (t', ran, r') = apply-Refines ix (update k v) r nz in
          (
            Cached.update ix c k v,
            refl,
            refl,
            update-IsCoherent ix i k w v nz (r.reads k nz ∙ e),
            rw (same_tree _ t' _ _ ran) r',
          )
    ]
    apply-Steps (get k) {c} {lo} {m} i r nz =
        let (c', got, i', same) = get-IsCoherent ix i fuel raw k full nz in
        (
          c',
          rw (got, r.reads k nz, apply) refl,
          rw (same, tree_get ix i k nz, r.reads k nz) refl,
          i',
          rw same r,
        )
    apply-Steps (remove k) {c} {lo} {m} i r nz =
        let (t', ran, r') = apply-Refines ix (remove k) r nz in
        (
          Cached.remove ix c k,
          refl,
          refl,
          remove-IsCoherent ix i k nz,
          rw (same_tree _ t' _ _ ran) r',
        )

  -- From a state where the table and the tree agree and the tree represents a map, a sequence of calls runs to its
  -- end both with the table and in the default build: they deliver the same, which is what the map says, and leave
  -- the same tree; the table and the tree agree at the end. The keys are valid, puts are of absent keys not below the
  -- smallest index key, and updates are of keys that are there. Fresh buckets have three slots.
  pub cached_run-Refines :
      (ops : List Op) {c : Cached Carrier} {lo : ℕ} {m : Map}
      → ((t : Hashtable) → length (raw t).slots ≡ entries_per_bucket)
      → IsCoherent ix c lo
      → Represents ix c.tree lo m
      → AreServed lo m ops
      → (c' : Cached Carrier) × (run ops c ≡ some (c', (spec_run ops m).1))
        × (Epli.run ix ops c.tree ≡ some (c'.tree, (spec_run ops m).1))
        × IsCoherent ix c' lo
        × Represents ix c'.tree lo (spec_run ops m).0
  unfolding run spec_run AreServed Steps Epli.run
  cached_run-Refines [] {c} full i r a = (c, refl, refl, i, r)
  cached_run-Refines (op ∷ ops) {c} full i r (a, more_served) =
      let (c', one, plain, i', r') = apply-Steps full op i r a in
      let (c'', more, more_plain, i'', r'') = cached_run-Refines ops full i' r' more_served in
      (
        c'',
        rw (one, run) (rw (more, run)),
        rw (plain, Epli.run) (rw (more_plain, Epli.run)),
        i'',
        r'',
      )
