-- ===== src/Epli/Refines.antt =====
-- The tree refines the map: sequences of calls deliver what the map says.
use epli.Prelude.{
  ℕ, ◌≡◌, ◌≢◌, refl, arith, List, [], ◌∷◌, none, some, ◌==◌, ◌∙◌, ap, Option-cases, inl, inr,
  Bool-cases, ==→eq,
}
use epli.Index.{Index}
use epli.Tree.{Tree}
use epli.Tree.State.{IsTree, contents}
use epli.Tree.Methods.{get-contents, update-Updates, remove-Updates, update-none, remove-none}
use epli.Tree.Insert.{insert-Updates}
use epli.Epli.{Op, put, update, get, remove, apply, run}
use epli.Epli.Spec.{Map, assign, spec_apply, spec_run, IsAllowed, AreAllowed}

-- An absent key may be taken out.
assign_absent : (m : Map) (k j : ℕ) → m k ≡ none → m j ≡ assign m k none j
assign_absent m k j e = elim (Bool-cases (j == k)) [
  | inl q ↦ rw q (ap m (==→eq j k q) ∙ e)
  | inr q ↦ rw q
]

module _ (ix : Index) where
  open ix use {Carrier}

  -- The tree satisfies the invariant and holds what the map says.
  pub record Represents (t : Tree Carrier) (lo : ℕ) (m : Map) : Type 0 where
    pub tree : IsTree ix t lo
    pub reads : (j : ℕ) → j ≢ 0 → contents ix t j ≡ m j

  pub apply-Refines :
      (op : Op) {t : Tree Carrier} {lo : ℕ} {m : Map}
      → Represents t lo m
      → IsAllowed lo m op
      → (t' : Tree Carrier) × (apply ix op t ≡ some (t', (spec_apply op m).1))
        × Represents t' lo (spec_apply op m).0
  unfolding apply spec_apply IsAllowed
  apply-Refines (put k v) {t} {lo} {m} r (nz, le, new) =
      let (t', ran, u) = insert-Updates ix 0 r.tree k v nz le (r.reads k nz ∙ new) in
      (
        t',
        rw (ran, apply),
        record { tree = u.tree; reads = λ j nj. u.reads j nj ∙ rw (r.reads j nj) },
      )
  apply-Refines (update k v) {t} {lo} {m} r nz = elim (Option-cases (m k)) [
    | inl e ↦ (
      t,
      rw (update-none ix r.tree k nz v (r.reads k nz ∙ e), apply),
      record { tree = r.tree; reads = λ j nj. r.reads j nj ∙ rw e (assign_absent m k j e) },
    )
    | inr (w, e) ↦
        let (t', ran, u) = update-Updates ix r.tree k nz v w (r.reads k nz ∙ e) in
        (
          t',
          rw (ran, apply),
          record { tree = u.tree; reads = λ j nj. u.reads j nj ∙ rw (r.reads j nj, e) },
        )
  ]
  apply-Refines (get k) {t} {lo} {m} r nz =
      (t, rw (get-contents ix r.tree k nz 0, apply) (rw (r.reads k nz) (ground arith)), r)
  apply-Refines (remove k) {t} {lo} {m} r nz = elim (Option-cases (m k)) [
    | inl e ↦ (
      t,
      rw (remove-none ix r.tree k nz (r.reads k nz ∙ e), apply),
      record { tree = r.tree; reads = λ j nj. r.reads j nj ∙ assign_absent m k j e },
    )
    | inr (w, e) ↦
        let (t', ran, u) = remove-Updates ix r.tree k nz w (r.reads k nz ∙ e) in
        (
          t',
          rw (ran, apply),
          record { tree = u.tree; reads = λ j nj. u.reads j nj ∙ rw (r.reads j nj) },
        )
  ]

  -- From a tree that represents a map, a sequence of calls that are allowed, with valid keys and
  -- with puts of absent keys not below the smallest index key only, runs to its end, each `Get`
  -- delivers what the map says at that point, and the tree represents the map at the end.
  pub run-Refines :
      (ops : List Op) {t : Tree Carrier} {lo : ℕ} {m : Map}
      → Represents t lo m
      → AreAllowed lo m ops
      → (t' : Tree Carrier) × (run ix ops t ≡ some (t', (spec_run ops m).1))
        × Represents t' lo (spec_run ops m).0
  unfolding run spec_run AreAllowed
  run-Refines [] {t} r a = (t, refl, r)
  run-Refines (op ∷ ops) {t} r (a, more_allowed) =
      let (t', one, r') = apply-Refines op r a in
      let (t'', more, r'') = run-Refines ops r' more_allowed in
      (t'', rw (one, run) (rw (more, run)), r'')
