-- ===== src/Bitmap/Scan.antt =====
-- `RangeScan` and `Scan` of src/epltree.h with USE_BITMAP: the entries come by way of their `MetaData`, and the
-- bitmaps are not asked.
use epli.Prelude.{ℕ, ◌≡◌, List, [], ◌++◌, Option, none, some, ◌==◌, if◌then◌else◌, length, ap, ◌∙◌}
use epli.Entry.{Kv, Entry, sort_kvs}
use epli.Index.{Index}
use epli.Tree.{Tree, locate}
use epli.Tree.Scan
use epli.Tree.Scan.{in_range, range_middle, find_ge, scan_start, scan_middle}
use epli.Bitmap.Tree.{BitmapTree, locate_meta, entry_of}

-- `RangeScan` from the start entry to the end entry.
abbrev scan_between :
    (fuel : ℕ) → (ℕ → Entry) → (start_entry end_entry lo hi : ℕ) → Option (List Kv)
scan_between fuel h a b lo hi =
    let first = in_range lo hi (h a).kvs in
    let last = in_range lo hi (h b).kvs in
    if a == b
    then some first
    else elim (range_middle fuel h a b) [ none ↦ none | some mid ↦ some (first ++ (mid ++ last)) ]

-- `Scan` from the start entry on.
abbrev scan_from : (fuel : ℕ) → (ℕ → Entry) → (entry start_key size : ℕ) → Option (List Kv)
scan_from fuel h a start_key size =
    let tmp = sort_kvs (h a).kvs in
    let got = scan_start tmp start_key size in
    let more = scan_middle fuel h tmp (h a).next size (length got) in
    if a == 0 then some [] else elim (find_ge tmp start_key) [
      | none ↦ more
      | some i ↦
          if length got == size
          then some got
          else elim more [ none ↦ none | some rest ↦ some (got ++ rest) ]
    ]

module _ (ix : Index) where
  open ix use {Carrier}

  -- `RangeScan(start_key, end_key, results)`
  unfoldable pub range_scan :
      (fuel : ℕ) → BitmapTree Carrier → (start_key end_key : ℕ) → Option (List Kv)
  range_scan fuel t start_key end_key =
      let a = entry_of ix t (locate_meta ix t start_key) in
      let b = entry_of ix t (locate_meta ix t end_key) in
      scan_between fuel t.heap a b start_key end_key

  -- `Scan(start_key, size, results)`
  unfoldable pub scan : (fuel : ℕ) → BitmapTree Carrier → (start_key size : ℕ) → Option (List Kv)
  scan fuel t start_key size =
      let a = entry_of ix t (locate_meta ix t start_key) in scan_from fuel t.heap a start_key size

  -- The index of the default build, where the addresses of the entries stand, finds what the `MetaData` lead to.
  pub record Mirrors (t : BitmapTree Carrier) (s : Tree Carrier) : Type 0 where
    pub heap : t.heap ≡ s.heap
    pub found : (k : ℕ) → entry_of ix t (locate_meta ix t k) ≡ locate ix s k

  pub scans-Mirrors :
      (fuel : ℕ) (t : BitmapTree Carrier) (s : Tree Carrier) (start_key end_key size : ℕ)
      → Mirrors t s
      → (range_scan fuel t start_key end_key ≡ Scan.range_scan ix fuel s start_key end_key)
        × (scan fuel t start_key size ≡ Scan.scan ix fuel s start_key size)
  unfolding range_scan scan Scan.range_scan Scan.scan
  scans-Mirrors fuel t s start_key end_key size v =
      let a = locate ix s start_key in
      let b = locate ix s end_key in
      let a' = entry_of ix t (locate_meta ix t start_key) in
      let b' = entry_of ix t (locate_meta ix t end_key) in
      (
        ap (λ (h : ℕ → Entry). scan_between fuel h a' b' start_key end_key) v.heap
            ∙ ap (λ (x : ℕ). scan_between fuel s.heap x b' start_key end_key) (v.found start_key)
            ∙ ap (λ (x : ℕ). scan_between fuel s.heap a x start_key end_key) (v.found end_key),
        ap (λ (h : ℕ → Entry). scan_from fuel h a' start_key size) v.heap
            ∙ ap (λ (x : ℕ). scan_from fuel s.heap x start_key size) (v.found start_key),
      )
