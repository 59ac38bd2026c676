-- ===== src/Epli/Cached/Close.antt =====
-- When the SW-Table is closed: SWTABLE_AUTO_CLOSE of src/epli.h.
use epli.Prelude.{
  ℕ, ◌+◌, ◌*◌, ◌%◌, ◌^◌, ◌≤◌, ◌<◌, ◌≡◌, ◌≢◌, refl, arith, List, [], ◌∷◌, Option, none, some, true,
  false, ltb, ◌==◌, ◌&&◌, ◌∙◌, sym, ap, Bool-cases, Option-cases, inl, inr, length, replicate,
}
use epli.Index.{Index}
use epli.Clht.{Bucket, entries_per_bucket, Hashtable}
use epli.Clht.Chain.{or_zero}
use epli.Clht.Table.{ht_lookup}
use epli.SwTable
use epli.SwTable.{SwTable}
use epli.Tree
use epli.Tree.State.{contents}
use epli.Epli.{Op}
use epli.Epli
use epli.Epli.Cached.{Cached, count_get, get, miss, sample_m}
use epli.Epli.Cached.Coherent.{IsCoherent, tree_get, touched, counted}
use epli.Epli.Cached.Sampled.{get_sampled, put_table}
use epli.Epli.Cached.Session.{apply, run}

abbrev pub reads : List ℕ → List Op
reads [] = []
reads (k ∷ ks) = Epli.get k ∷ reads ks

module _ (ix : Index) where
  open ix use {Carrier}

  -- The tree holds none of these valid keys.
  unfoldable pub AreAbsent : Tree.Tree Carrier → List ℕ → Type 0
  AreAbsent t [] = Unit {0}
  AreAbsent t (k ∷ ks) = (k ≢ 0) × (contents ix t k ≡ none) × AreAbsent t ks

  module _ (fuel : ℕ) (raw : Hashtable → Bucket)
      (full : (t : Hashtable) → length (raw t).slots ≡ entries_per_bucket) where
    missed :
        {c : Cached Carrier} {lo : ℕ} (v : IsCoherent ix c lo) (k : ℕ)
        → k ≢ 0
        → contents ix c.tree k ≡ none
        → (SwTable.get c.table k).1 ≡ 0
    missed {c} v k nk absent =
        (touched ix v k nk).0 ∙ elim (Option-cases (ht_lookup c.table.hashtable k)) [
          | inl e ↦ ap or_zero e
          | inr (w, e) ↦ elim (v.agree k w nk e) [
            | inl z ↦ ap or_zero e ∙ z
            | inr q ↦ let clash : ◌≡◌ {A = Option ℕ} none (some w) = sym absent ∙ q in cc
          ]
        ]

    get_unsampled :
        (c : Cached Carrier) (k val : ℕ)
        → c.table_on ≡ true
        → ((SwTable.get c.table k).1 == 0) ≡ true
        → (c.tot_get % sample_m == 0) ≡ false
        → (Tree.get ix c.tree k 0).1 ≡ val
        → get ix fuel raw c k
          ≡ some (count_get (record c { table = (SwTable.get c.table k).0 }), val)
    unfolding get miss
    get_unsampled c k val on e often there = rw (on, e, often, there, get, miss) refl

    -- A read of an absent key through the open table.
    get_absent :
        {c : Cached Carrier} {lo : ℕ} (v : IsCoherent ix c lo) (k : ℕ)
        → k ≢ 0
        → contents ix c.tree k ≡ none
        → c.table_on ≡ true
        → (s : SwTable) × (get ix fuel raw c k ≡ some (count_get (record c { table = s }), 0))
          × IsCoherent ix (record c { table = s }) lo
    get_absent {c} v k nk absent on =
        let there : (Tree.get ix c.tree k 0).1 ≡ 0 = tree_get ix v k nk ∙ ap or_zero absent in
        let e : ((SwTable.get c.table k).1 == 0) ≡ true = ground (arith, missed v k nk absent) in
        let v' = (touched ix v k nk).1 in
        elim (Bool-cases (c.tot_get % sample_m == 0)) [
          | inr often ↦ ((SwTable.get c.table k).0, get_unsampled c k 0 on e often there, v')
          | inl rare ↦
              let (s, made, v'') = put_table ix v' fuel raw k full nk in
              let made' = rw absent at made in
              (s, get_sampled ix c fuel raw k 0 s on e rare there made', v'')
        ]

    -- The closed table stays closed.
    closed_reads :
        (ks : List ℕ) {c : Cached Carrier} {lo : ℕ}
        → IsCoherent ix c lo
        → AreAbsent c.tree ks
        → c.table_on ≡ false
        → run ix fuel raw (reads ks) c ≡ some (c, replicate (length ks) 0)
    unfolding run apply get AreAbsent
    closed_reads [] v absent off = refl
    closed_reads (k ∷ ks) {c} v (nk, absent, more) off =
        let there : (Tree.get ix c.tree k 0).1 ≡ 0 = tree_get ix v k nk ∙ ap or_zero absent in
        let got : get ix fuel raw c k ≡ some (c, 0) = rw (off, there, get) refl in
        rw (got, apply, run) (rw (closed_reads ks v more off, run) refl)

    count_get_lem :
        (c : Cached Carrier)
        → c.tot_get + 1 < 2 ^ 64
        → ((count_get c).tree ≡ c.tree)
          × ((count_get c).hit_cnt ≡ c.hit_cnt)
          × ((count_get c).tot_get ≡ c.tot_get + 1)
    unfolding count_get
    count_get_lem c small = (refl, refl, omega arith)

    counted_on :
        (c : Cached Carrier)
        → c.tot_get + 1 < 2 ^ 64
        → 0 < c.hit_cnt
        → c.table_on ≡ true
        → (count_get c).table_on ≡ true
        → 2 * (c.tot_get + 1) ≤ 1000 * c.hit_cnt
    unfolding count_get
    counted_on c small hits on still =
        elim (Bool-cases
          (ltb 0 c.hit_cnt && ltb (1000 * c.hit_cnt) (2 * ((c.tot_get + 1) % 2 ^ 64)))) [
            | inr e ↦ ground arith
            | inl e ↦ let clash : false ≡ true = rw e at still in cc
          ]

    -- Where the table and the tree agree and the table has had hits, a sequence of reads of valid keys that the tree
    -- does not hold closes the table, if the sequence is so long that the reads would be more than 500 for each
    -- hit. All of the reads deliver 0, the tree stays and the table stays closed to the end.
    pub reads_close :
        (ks : List ℕ) {c : Cached Carrier} {lo : ℕ}
        → IsCoherent ix c lo
        → AreAbsent c.tree ks
        → 0 < length ks
        → 0 < c.hit_cnt
        → 1000 * c.hit_cnt < 2 * (c.tot_get + length ks)
        → c.tot_get + length ks < 2 ^ 64
        → (c' : Cached Carrier) × (run ix fuel raw (reads ks) c
            ≡ some (c', replicate (length ks) 0))
          × (c'.table_on ≡ false)
          × (c'.tree ≡ c.tree)
    unfolding run apply AreAbsent
    reads_close [] v absent pos hits many small = absurd (omega arith)
    reads_close (k ∷ ks) {c} v (nk, absent, more) pos hits many small =
        elim (Bool-cases c.table_on) [
          | inr off ↦ (c, closed_reads (k ∷ ks) v (nk, absent, more) off, off, refl)
          | inl on ↦
              let (s, got, v') = get_absent v k nk absent on in
              let c1 = count_get (record c { table = s }) in
              let (tree, hit, tot) = count_get_lem (record c { table = s }) (omega arith) in
              let more1 : AreAbsent c1.tree ks = rw tree more in
              let v1 : IsCoherent ix c1 _ = counted ix v' c.hit_cnt in
              elim (Bool-cases c1.table_on) [
                | inr off ↦ (
                  c1,
                  rw (got, apply, run) (rw (closed_reads ks v1 more1 off, run) refl),
                  off,
                  tree,
                )
                | inl still ↦
                    let low = counted_on (record c { table = s }) (omega arith) hits on still in
                    let (c', ran, off, same) =
                      reads_close ks v1 more1 (omega (arith, low)) (omega (arith, hit))
                        (omega (arith, hit, tot)) (omega (arith, tot)) in
                    (c', rw (got, apply, run) (rw (ran, run) refl), off, same ∙ tree)
              ]
        ]
