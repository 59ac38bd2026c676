-- ===== src/Epli/Cached/Writes.antt =====
-- Updates and removals through the table, which both the table and the tree see.
use epli.Prelude.{
  ℕ, ◌≤◌, ◌≡◌, ◌≢◌, inl, inr, Option, none, some, ◌==◌, Bool-cases, Option-cases, ◌∙◌, sym, ap,
  ==→eq,
}
use epli.Index.{Index}
use epli.Clht.{Hashtable, clht_update, clht_remove}
use epli.Clht.Table.{
  Sets, Sets-buckets, ht_lookup, clht_update-Sets, clht_update-none, clht_remove-Sets,
}
use epli.Tree.{Tree}
use epli.Tree.State.{IsTree, contents}
use epli.Tree.Methods.{Updates, update-Updates, remove-Updates, remove-none}
use epli.Tree.Insert.{insert-Updates}
use epli.SwTable
use epli.Epli.Cached.{Cached, put, update, remove}
use epli.Epli.Cached.Coherent.{IsCoherent}

module _ (ix : Index) where
  open ix use {Carrier}

  -- Both sides are written at one key, with values that agree.
  written-IsCoherent :
      {c : Cached Carrier} {lo : ℕ} (v : IsCoherent ix c lo) (k : ℕ) (o p : Option ℕ)
      (ht : Hashtable) (t : Tree Carrier)
      → Sets c.table.hashtable k o ht
      → Updates ix c.tree lo k p t
      → ((w : ℕ) → o ≡ some w → p ≡ some w)
      → IsCoherent ix (record c { table = record c.table { hashtable = ht }; tree = t }) lo
  written-IsCoherent {c} v k o p ht t s u agrees = record {
    tree = u.tree;
    table = s.table;
    sized = rw (Sets-buckets v.table s) v.sized;
    agree = λ j w nj h. elim (Bool-cases (j == k)) [
      | inl e ↦ inr (u.reads j nj ∙ rw e (agrees w (sym (s.reads j nj ∙ rw e) ∙ h)))
      | inr e ↦ elim (v.agree j w nj (sym (s.reads j nj ∙ rw e) ∙ h)) [
        | inl z ↦ inl z
        | inr q ↦ inr (u.reads j nj ∙ rw e q)
      ]
    ];
  }

  -- Where the table and the tree agree and the tree holds a valid key, they agree after an `Update` of the
  -- key.
  pub update-IsCoherent :
      {c : Cached Carrier} {lo : ℕ} (v : IsCoherent ix c lo) (k w val : ℕ)
      → k ≢ 0
      → contents ix c.tree k ≡ some w
      → IsCoherent ix (update ix c k val) lo
  unfolding update SwTable.update
  update-IsCoherent {c} v k w val nz here =
      let ht = c.table.hashtable in
      let (t, ran, u) = update-Updates ix v.tree k nz val w here in
      rw (ran) (elim (Option-cases (ht_lookup ht k)) [
        | inl e ↦
            written-IsCoherent v k none (some val) (clht_update ht k val).0 t
              (clht_update-none ht v.table k val nz e).1 u (λ x q. cc q)
        | inr (x, e) ↦
            written-IsCoherent v k (some val) (some val) (clht_update ht k val).0 t
              (clht_update-Sets ht v.table k val x nz e).1 u (λ y q. q)
      ])

  -- A removal of an absent key, as a write.
  absent-Updates :
      {t : Tree Carrier} {lo : ℕ} (v : IsTree ix t lo) (k : ℕ)
      → contents ix t k ≡ none
      → Updates ix t lo k none t
  absent-Updates {t} v k e = record {
    tree = v;
    reads = λ j nj. elim (Bool-cases (j == k)) [
      | inl q ↦ rw q (ap (contents ix t) (==→eq j k q) ∙ e)
      | inr q ↦ rw q
    ];
  }

  -- Where the table and the tree agree, they agree after a `Remove` of a valid key.
  pub remove-IsCoherent :
      {c : Cached Carrier} {lo : ℕ} (v : IsCoherent ix c lo) (k : ℕ)
      → k ≢ 0
      → IsCoherent ix (remove ix c k) lo
  unfolding remove SwTable.remove
  remove-IsCoherent {c} v k nz =
      let ht = c.table.hashtable in
      let s = (clht_remove-Sets ht v.table k nz).1 in
      elim (Option-cases (contents ix c.tree k)) [
        | inl e ↦ rw (remove-none ix v.tree k nz e) (
            written-IsCoherent v k none none (clht_remove ht k).0 c.tree s
              (absent-Updates v.tree k e) (λ x q. q))
        | inr (w, e) ↦
            let (t, ran, u) = remove-Updates ix v.tree k nz w e in
            rw (ran) (written-IsCoherent v k none none (clht_remove ht k).0 t s u (λ x q. q))
      ]

  -- The tree takes an absent key.
  pub insert-IsCoherent :
      {c : Cached Carrier} {lo : ℕ} (v : IsCoherent ix c lo) (k val : ℕ) (t : Tree Carrier)
      → contents ix c.tree k ≡ none
      → Updates ix c.tree lo k (some val) t
      → IsCoherent ix (record c { tree = t }) lo
  insert-IsCoherent {c} v k val t absent u = record {
    tree = u.tree;
    table = v.table;
    sized = v.sized;
    agree = λ j w nj h. elim (v.agree j w nj h) [
      | inl z ↦ inl z
      | inr q ↦ elim (Bool-cases (j == k)) [
        | inl e ↦ absurd (cc (q, absent, ==→eq j k e))
        | inr e ↦ inr (u.reads j nj ∙ rw e q)
      ]
    ];
  }

  -- Where the table and the tree agree and the tree does not hold a valid key, not below the smallest
  -- index key, a `Put` of the key ends within two rounds, and they agree after it.
  pub put-IsCoherent :
      {c : Cached Carrier} {lo : ℕ} (v : IsCoherent ix c lo) (k val : ℕ)
      → k ≢ 0
      → lo ≤ k
      → contents ix c.tree k ≡ none
      → (c' : Cached Carrier) × (put ix 2 c k val ≡ some c') × IsCoherent ix c' lo
  unfolding put
  put-IsCoherent {c} v k val nz le absent =
      let (t, ran, u) = insert-Updates ix 0 v.tree k val nz le absent in
      (record c { tree = t }, rw (ran, put), insert-IsCoherent v k val t absent u)
