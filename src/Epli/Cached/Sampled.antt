-- ===== src/Epli/Cached/Sampled.antt =====
-- Reads that put the pair that they found in the tree into the table.
use epli.Prelude.{
  ℕ, ◌%◌, ◌≡◌, ◌≢◌, ◌⊎◌, inl, inr, refl, arith, Bool, true, false, Option, none, some, ◌==◌,
  Bool-cases, Option-cases, ap, ◌∙◌, sym, ==→eq, length, if◌then◌else◌, or_else,
}
use epli.Index.{Index}
use epli.Clht.{Bucket, entries_per_bucket, Hashtable}
use epli.Clht.Chain.{or_zero}
use epli.Clht.Put.{clht_put_lem}
use epli.Clht.Table.{ht_lookup}
use epli.Tree
use epli.Tree.State.{contents}
use epli.SwTable
use epli.SwTable.{SwTable}
use epli.Epli.Cached.{Cached, count_get, get, miss, sample_m}
use epli.Epli.Cached.Coherent.{IsCoherent, tree_get, touched, counted, get-Coherent, get_answered}

chosen : {A : Type 0} (b : Bool) (x y : A) → b ≡ true → (if b then x else y) ≡ x
chosen true x y h = refl
chosen false x y h = cc

module _ (ix : Index) where
  open ix use {Carrier}

  -- What the tree delivers may stand in the table.
  put_agrees :
      {c : Cached Carrier} {lo : ℕ} (v : IsCoherent ix c lo) (k j w : ℕ)
      → j ≢ 0
      → or_else
          (ht_lookup c.table.hashtable j)
          (if j == k then some (or_zero (contents ix c.tree k)) else none)
        ≡ some w
      → (w ≡ 0) ⊎ (contents ix c.tree j ≡ some w)
  put_agrees {c} v k j w nj h = elim (Option-cases (ht_lookup c.table.hashtable j)) [
    | inr (x, e) ↦
        v.agree j w nj (e ∙ (let same : ◌≡◌ {A = Option ℕ} (some x) (some w) = rw e at h in same))
    | inl e ↦ elim (Bool-cases (j == k)) [
      | inr q ↦ let clash : ◌≡◌ {A = Option ℕ} none (some w) = rw (e, q) at h in cc
      | inl q ↦
          let at = ==→eq j k q in
          let same : some (or_zero (contents ix c.tree k)) ≡ some w = rw (e, q) at h in
          elim (Option-cases (contents ix c.tree k)) [
            | inl n ↦ inl (sym (ap or_zero same) ∙ ap or_zero n)
            | inr (x, n) ↦ inr (
                ap (contents ix c.tree) at
                ∙ n
                ∙ ap (λ (y : ℕ). some y) (sym (ap or_zero n) ∙ ap or_zero same))
          ]
    ]
  ]

  pub put_table :
      {c : Cached Carrier} {lo : ℕ} (v : IsCoherent ix c lo) (fuel : ℕ) (raw : Hashtable → Bucket)
      (k : ℕ)
      → ((t : Hashtable) → length (raw t).slots ≡ entries_per_bucket)
      → k ≢ 0
      → (s : SwTable) × (SwTable.put fuel raw c.table k (or_zero (contents ix c.tree k)) ≡ some s)
        × IsCoherent ix (record c { table = s }) lo
  unfolding SwTable.put
  put_table {c} v fuel raw k full nk =
      let val = or_zero (contents ix c.tree k) in
      let (new, made, table, sized, reads) =
        clht_put_lem fuel raw c.table.hashtable k val c.table.lt full v.table v.sized nk in
      (
        record c.table { hashtable = new },
        rw (made, SwTable.put) refl,
        record {
          tree = v.tree;
          table = table;
          sized = sized;
          agree = λ j w nj h. elim (reads j nj) [
            | inl (_, n) ↦ let clash : ◌≡◌ {A = Option ℕ} none (some w) = sym n ∙ h in cc
            | inr e ↦ put_agrees v k j w nj (sym e ∙ h)
          ];
        },
      )

  pub get_sampled :
      (c : Cached Carrier) (fuel : ℕ) (raw : Hashtable → Bucket) (k val : ℕ) (s : SwTable)
      → c.table_on ≡ true
      → ((SwTable.get c.table k).1 == 0) ≡ true
      → (c.tot_get % sample_m == 0) ≡ true
      → (Tree.get ix c.tree k 0).1 ≡ val
      → SwTable.put fuel raw (SwTable.get c.table k).0 k val ≡ some s
      → get ix fuel raw c k ≡ some (count_get (record c { table = s }), val)
  unfolding get miss
  get_sampled c fuel raw k val s on e rare there made =
      chosen c.table_on _ _ on
      ∙ chosen ((SwTable.get c.table k).1 == 0) _ _ e
      ∙ chosen (c.tot_get % sample_m == 0) _ _ rare
      ∙ rw (there, made) (ap (λ (v : ℕ). some (count_get (record c { table = s }), v)) there)

  -- Where the table and the tree agree, every `Get` of a valid key ends and delivers what the tree holds, or 0,
  -- whether the table is open or closed, whether it has the key or not, and also where the read puts its pair into
  -- the table, which may resize the table and eliminate pairs from it. The tree stays, and the table and the tree
  -- still agree. Fresh buckets have three slots.
  pub get-IsCoherent :
      {c : Cached Carrier} {lo : ℕ} (v : IsCoherent ix c lo) (fuel : ℕ) (raw : Hashtable → Bucket)
      (k : ℕ)
      → ((t : Hashtable) → length (raw t).slots ≡ entries_per_bucket)
      → k ≢ 0
      → (c' : Cached Carrier) × (get ix fuel raw c k ≡ some (c', or_zero (contents ix c.tree k)))
        × IsCoherent ix c' lo
        × (c'.tree ≡ c.tree)
  get-IsCoherent {c} v fuel raw k full nk = elim (Bool-cases (c.tot_get % sample_m == 0)) [
    | inr often ↦ get-Coherent ix v fuel raw k nk (ground arith)
    | inl rare ↦ elim (Bool-cases c.table_on) [
      | inr off ↦ get_answered ix v fuel raw k nk (inl off)
      | inl on ↦ elim (Bool-cases ((SwTable.get c.table k).1 == 0)) [
        | inr e ↦ get_answered ix v fuel raw k nk (inr (on, e))
        | inl e ↦
            let (value, v') = touched ix v k nk in
            let (s, made, v'') = put_table v' fuel raw k full nk in
            (
              count_get (record c { table = s }),
              get_sampled c fuel raw k _ s on e rare (tree_get ix v k nk) made,
              counted ix v'' c.hit_cnt,
              unfold count_get in refl,
            )
      ]
    ]
  ]
