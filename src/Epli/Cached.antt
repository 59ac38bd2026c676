-- ===== src/Epli/Cached.antt =====
-- `EPLI` with USE_SWTABLE and SWTABLE_AUTO_CLOSE: src/epli.h, with the SW-Table in front of the tree.
-- `hit_cnt` is a double that counts hits, a natural number here, and MIN_HIT_RATE is 2 / 1000 exactly.
-- `none` is the end of the fuel in the tree or in a resize of the table.
pub mod Coherent
pub mod Writes
pub mod Sampled
pub mod Session
pub mod Close
use epli.Prelude.{
  ℕ, zero, suc, ◌+◌, ◌*◌, ◌%◌, ◌^◌, Bool, true, false, Option, none, some, ltb, ◌==◌, ◌&&◌,
  if◌then◌else◌,
}
use epli.Index.{Index}
use epli.Clht.{Bucket, Hashtable}
use epli.Tree
use epli.Tree.{Tree}
use epli.SwTable
use epli.SwTable.{SwTable}

pub record Cached (Carrier : Type 0) : Type 0 where
  pub tree : Tree Carrier
  pub table : SwTable
  pub table_on : Bool
  pub hit_cnt : ℕ
  pub tot_get : ℕ

-- SAMPLE_M
abbrev pub sample_m : ℕ
sample_m = 20

-- The end of `Get`: a tick, and the table is closed when too few of the reads are hits.
unfoldable pub count_get : {C : Type 0} → Cached C → Cached C
count_get c =
    let n = (c.tot_get + 1) % 2 ^ 64 in
    let on = if ltb 0 c.hit_cnt && ltb (1000 * c.hit_cnt) (2 * n) then false else c.table_on in
    record c { tot_get = n; table_on = on }

-- `Reset()`
unfoldable pub reset : {C : Type 0} → Cached C → Cached C
reset c = record c { table_on = true; tot_get = 0; hit_cnt = 0 }

module _ (ix : Index) where
  open ix use {Carrier}

  -- `Init(recover)` on a given tree.
  unfoldable pub init : (lt : ℕ) → Tree Carrier → Option (Cached Carrier)
  init lt t = elim (SwTable.init lt) [
    | none ↦ none
    | some s ↦ some (record { tree = t; table = s; table_on = true; hit_cnt = 0; tot_get = 0 })
  ]

  -- `Put(key, val)` does not look at the table.
  unfoldable pub put : (fuel : ℕ) → Cached Carrier → (key val : ℕ) → Option (Cached Carrier)
  put fuel c k v = elim (Tree.insert ix fuel c.tree k v) [
    | none ↦ none
    | some (t, s) ↦ some (record c { tree = t })
  ]

  -- `Update(key, val)`, the table first.
  unfoldable pub update : Cached Carrier → (key val : ℕ) → Cached Carrier
  update c k v = record c {
    table = SwTable.update c.table k v;
    tree = (Tree.update ix c.tree k v).0;
  }

  -- `Remove(key)`, the table first.
  unfoldable pub remove : Cached Carrier → (key : ℕ) → Cached Carrier
  remove c k = record c { table = (SwTable.remove c.table k).0; tree = (Tree.remove ix c.tree k).0 }

  -- A read that the table does not answer: the tree is read, and each twentieth time the pair is put
  -- into the table.
  unfoldable pub miss :
      (fuel : ℕ)
      → (raw : Hashtable → Bucket) → Cached Carrier
      → (key : ℕ) → Option (Cached Carrier × ℕ)
  miss fuel raw c k =
      let v = (Tree.get ix c.tree k 0).1 in
      if c.tot_get % sample_m == 0
      then elim (SwTable.put fuel raw c.table k v) [
        | none ↦ none
        | some s ↦ some (count_get (record c { table = s }), v)
      ]
      else some (count_get c, v)

  -- `Get(key, val)`: a table value 0 stands for a key that the table does not hold.
  unfoldable pub get :
      (fuel : ℕ)
      → (raw : Hashtable → Bucket) → Cached Carrier
      → (key : ℕ) → Option (Cached Carrier × ℕ)
  get fuel raw c k =
      let r = SwTable.get c.table k in
      let c' = record c { table = r.0 } in
      if c.table_on
      then (if r.1 == 0
          then miss fuel raw c' k
          else some (count_get (record c' { hit_cnt = c.hit_cnt + 1 }), r.1))
      else some (c, (Tree.get ix c.tree k 0).1)
