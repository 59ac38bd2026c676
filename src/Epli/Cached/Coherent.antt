-- ===== src/Epli/Cached/Coherent.antt =====
-- Whether the table in front of the tree says what the tree says.
use epli.Prelude.{
  ℕ, ◌+◌, ◌%◌, ◌^◌, ◌≡◌, ◌≢◌, ◌⊎◌, inl, inr, refl, arith, true, false, none, some, ◌==◌, Bool-cases,
  Option-cases, ap, ◌∙◌, sym, ==→eq,
}
use epli.Index.{Index}
use epli.Clht.{Bucket, clht_get, clht_update, Hashtable}
use epli.Clht.Chain.{or_zero}
use epli.Clht.Resized.{IsSized}
use epli.Clht.Table.{IsTable, Sets-buckets, ht_lookup, clht_get-Sets, clht_update-Sets}
use epli.Tree
use epli.Tree.State.{IsTree, contents}
use epli.Tree.Methods.{get-contents, update-none}
use epli.SwTable
use epli.SwTable.{SwTable}
use epli.Epli.Cached.{Cached, count_get, get, update, miss, sample_m}

module _ (ix : Index) where
  open ix use {Carrier}

  -- A value in the table other than 0 is the one that the tree holds; the number of buckets is a power
  -- of two.
  pub record IsCoherent (c : Cached Carrier) (lo : ℕ) : Type 0 where
    pub tree : IsTree ix c.tree lo
    pub table : IsTable c.table.hashtable
    pub sized : IsSized c.table.hashtable.num_buckets
    pub agree :
        (j w : ℕ)
        → j ≢ 0
        → ht_lookup c.table.hashtable j ≡ some w
        → (w ≡ 0) ⊎ (contents ix c.tree j ≡ some w)

  pub tree_get :
      {c : Cached Carrier} {lo : ℕ} (v : IsCoherent c lo) (k : ℕ)
      → k ≢ 0
      → (Tree.get ix c.tree k 0).1 ≡ or_zero (contents ix c.tree k)
  tree_get {c} v k nz = rw (get-contents ix v.tree k nz 0) (ground arith)

  -- A read of the table changes no value in it.
  pub touched :
      {c : Cached Carrier} {lo : ℕ} (v : IsCoherent c lo) (k : ℕ)
      → k ≢ 0
      → ((SwTable.get c.table k).1 ≡ or_zero (ht_lookup c.table.hashtable k))
        × IsCoherent (record c { table = (SwTable.get c.table k).0 }) lo
  unfolding SwTable.get
  touched {c} v k nz =
      let ht = c.table.hashtable in
      let (value, sets) = clht_get-Sets ht v.table k ((c.table.lt + 1) % 2 ^ 32) nz in
      let r = (clht_get ht k ((c.table.lt + 1) % 2 ^ 32)).0 in
      let same : (j : ℕ) → j ≢ 0 → ht_lookup r j ≡ ht_lookup ht j = λ j nj.
        sets.reads j nj ∙ elim (Bool-cases (j == k)) [
          | inl e ↦ rw e (ap (ht_lookup ht) (sym (==→eq j k e)))
          | inr e ↦ rw e
        ] in
      (
        value,
        record {
          tree = v.tree;
          table = sets.table;
          sized = rw (Sets-buckets v.table sets) v.sized;
          agree = λ j w nj h. v.agree j w nj (sym (same j nj) ∙ h);
        },
      )

  pub counted :
      {c : Cached Carrier} {lo : ℕ}
      → IsCoherent c lo
      → (n : ℕ) → IsCoherent (count_get (record c { hit_cnt = n })) lo
  unfolding count_get
  counted v n = record { tree = v.tree; table = v.table; sized = v.sized; agree = v.agree }

  -- What a hit delivers is in the tree.
  pub hit :
      {c : Cached Carrier} {lo : ℕ} (v : IsCoherent c lo) (k : ℕ)
      → k ≢ 0
      → or_zero (ht_lookup c.table.hashtable k) ≢ 0
      → or_zero (ht_lookup c.table.hashtable k) ≡ or_zero (contents ix c.tree k)
  hit {c} v k nz h = elim (Option-cases (ht_lookup c.table.hashtable k)) [
    | inl e ↦ absurd (h (ap or_zero e))
    | inr (w, e) ↦ elim (v.agree k w nz e) [
      | inl z ↦ absurd (h (ap or_zero e ∙ z))
      | inr t ↦ ap or_zero e ∙ sym (ap or_zero t)
    ]
  ]

  -- A read delivers what the tree holds, or 0, keeps the tree, and the table and the tree still agree.
  abbrev pub Delivers : (fuel : ℕ) → (Hashtable → Bucket) → Cached Carrier → (lo key : ℕ) → Type 0
  Delivers fuel raw c lo k =
      (c' : Cached Carrier) × (get ix fuel raw c k ≡ some (c', or_zero (contents ix c.tree k)))
      × IsCoherent c' lo
      × (c'.tree ≡ c.tree)

  -- The table is closed, or it has the key.
  pub get_answered :
      {c : Cached Carrier} {lo : ℕ} (v : IsCoherent c lo) (fuel : ℕ) (raw : Hashtable → Bucket)
      (k : ℕ)
      → k ≢ 0
      → (c.table_on ≡ false) ⊎ ((c.table_on ≡ true) × (((SwTable.get c.table k).1 == 0) ≡ false))
      → Delivers fuel raw c lo k
  unfolding get
  get_answered {c} v fuel raw k nz (inl off) = (c, rw (off, tree_get v k nz, get), v, refl)
  get_answered {c} v fuel raw k nz (inr (on, e)) =
      let (value, v') = touched v k nz in
      let c' = record c { table = (SwTable.get c.table k).0 } in
      (
        count_get (record c' { hit_cnt = c.hit_cnt + 1 }),
        rw (← hit v k nz (ground (arith, value)), ← value, on, e, get),
        counted v' (c.hit_cnt + 1),
        unfold count_get in refl,
      )

  -- `Get` of a valid key that is not one of the reads in twenty that may put their pair into the table.
  pub get-Coherent :
      {c : Cached Carrier} {lo : ℕ} (v : IsCoherent c lo) (fuel : ℕ) (raw : Hashtable → Bucket)
      (k : ℕ)
      → k ≢ 0
      → c.tot_get % sample_m ≢ 0
      → Delivers fuel raw c lo k
  unfolding get miss
  get-Coherent {c} v fuel raw k nz often =
      let (value, v') = touched v k nz in
      let c' = record c { table = (SwTable.get c.table k).0 } in
      let rare : (c.tot_get % sample_m == 0) ≡ false = ground arith in
      elim (Bool-cases c.table_on) [
        | inr off ↦ get_answered v fuel raw k nz (inl off)
        | inl on ↦ elim (Bool-cases ((SwTable.get c.table k).1 == 0)) [
          | inl e ↦ (
            count_get c',
            rw (on, e, rare, tree_get v k nz, get, miss),
            counted v' c.hit_cnt,
            unfold count_get in refl,
          )
          | inr e ↦ get_answered v fuel raw k nz (inr (on, e))
        ]
      ]

  -- Where the table has a key that the tree does not hold, `Update` with a value other than 0 puts the value into the
  -- table alone: the next `Get` through the open table delivers it, and the tree still does not hold the key.
  pub update_stale :
      {c : Cached Carrier} {lo : ℕ} (v : IsCoherent c lo) (fuel : ℕ) (raw : Hashtable → Bucket)
      (k w val : ℕ)
      → k ≢ 0
      → val ≢ 0
      → c.table_on ≡ true
      → ht_lookup c.table.hashtable k ≡ some w
      → contents ix c.tree k ≡ none
      → (c' : Cached Carrier) × (get ix fuel raw (update ix c k val) k ≡ some (c', val))
        × (contents ix c'.tree k ≡ none)
  unfolding get update SwTable.get SwTable.update
  update_stale {c} v fuel raw k w val nz nv on here absent =
      let ht = c.table.hashtable in
      let u = (clht_update ht k val).0 in
      let now = (c.table.lt + 1) % 2 ^ 32 in
      let (done, sets) = clht_update-Sets ht v.table k val w nz here in
      let (value, kept) = clht_get-Sets u sets.table k now nz in
      let self : (k == k) ≡ true = ground arith in
      let found : ht_lookup u k ≡ some val = sets.reads k nz ∙ rw self in
      let got : (clht_get u k now).1 ≡ val = value ∙ ap or_zero found in
      let other : (val == 0) ≡ false = ground arith in
      let stays = update-none ix v.tree k nz val absent in
      (
        count_get (record c {
          tree = (Tree.update ix c.tree k val).0;
          table = record { hashtable = (clht_get u k now).0; lt = now };
          hit_cnt = c.hit_cnt + 1;
        }),
        rw (on, got, other),
        unfold count_get in rw stays absent,
      )
