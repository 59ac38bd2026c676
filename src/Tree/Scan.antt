-- ===== src/Tree/Scan.antt =====
-- `RangeScan` and `Scan` of src/epltree.h. Each returns the pairs that the call appends to `results`;
-- `none` means that the fuel ran out. `size` is a C int that is not negative.
pub mod Range
pub mod Sized
pub mod Ends
pub mod Start
pub mod Complete
use epli.Prelude.{
  ℕ, zero, suc, ◌+◌, ◌-◌, ◌≡◌, List, [], ◌∷◌, ◌++◌, Option, none, some, Bool, true, false, leb, ltb,
  ◌&&◌, not, ◌==◌, if◌then◌else◌, drop, take, length,
}
use epli.Entry.{Kv, Entry, kvs_per_entry, invalid_key, sort_kvs}
use epli.Index.{Index}
use epli.Tree.{Tree, locate}

-- The pairs whose keys lie in a closed range, in the order of the array.
unfoldable pub in_range : (lo hi : ℕ) → List Kv → List Kv
in_range lo hi [] = []
in_range lo hi ((k, v) ∷ s) =
    if leb lo k && leb k hi then (k, v) ∷ in_range lo hi s else in_range lo hi s

-- The middle loop of `RangeScan`: all the slots of each entry before `stop`.
unfoldable pub range_middle : (fuel : ℕ) → (ℕ → Entry) → (entry stop : ℕ) → Option (List Kv)
range_middle zero h a stop = none
range_middle (suc fuel) h a stop =
    let rest = range_middle fuel h (h a).next stop in
    if a == stop then some [] else elim rest [ none ↦ none | some r ↦ some ((h a).kvs ++ r) ]

-- The position of the first key that is not below `start`: the loop that sets `start_pos`.
unfoldable pub find_ge : List Kv → (start : ℕ) → Option ℕ
find_ge [] start = none
find_ge ((k, v) ∷ s) start =
    if leb start k then some 0 else elim (find_ge s start) [ none ↦ none | some i ↦ some (suc i) ]

-- What the start entry adds: the sorted pairs from `start_pos` on, `size` of them at most.
unfoldable pub scan_start : List Kv → (start size : ℕ) → List Kv
scan_start tmp start size = elim (find_ge tmp start) [ none ↦ [] | some i ↦ take size (drop i tmp) ]

-- The pairs with a valid key.
unfoldable pub valid_kvs : List Kv → List Kv
valid_kvs [] = []
valid_kvs ((k, v) ∷ s) = if k == invalid_key then valid_kvs s else (k, v) ∷ valid_kvs s

-- The last loops: valid pairs are added one by one until there are `size` of them. The flag says
-- that the function has returned.
unfoldable pub push_until : List Kv → (size cnt : ℕ) → List Kv × Bool
push_until [] size cnt = ([], false)
push_until ((k, v) ∷ s) size cnt =
    if k == invalid_key
    then push_until s size cnt
    else if cnt + 1 == size
    then ((k, v) ∷ [], true)
    else ((k, v) ∷ (push_until s size (cnt + 1)).0, (push_until s size (cnt + 1)).1)

unfoldable pub scan_end : (fuel : ℕ) → (ℕ → Entry) → (entry size cnt : ℕ) → Option (List Kv)
scan_end zero h a size cnt = none
scan_end (suc fuel) h a size cnt =
    let r = push_until (sort_kvs (h a).kvs) size cnt in
    let rest = scan_end fuel h (h a).next size (cnt + length r.0) in
    if a == 0
    then some []
    else if r.1
    then some r.0
    else elim rest [ none ↦ none | some more ↦ some (r.0 ++ more) ]

-- The middle loop of `Scan`: while a whole entry is still wanted, the valid pairs of `tmp_kvs` are
-- added, the sorted copy that was made of the start entry.
unfoldable pub scan_middle :
    (fuel : ℕ) → (ℕ → Entry) → (tmp : List Kv) → (entry size cnt : ℕ) → Option (List Kv)
scan_middle zero h tmp a size cnt = none
scan_middle (suc fuel) h tmp a size cnt =
    let add = valid_kvs tmp in
    let rest = scan_middle fuel h tmp (h a).next size (cnt + length add) in
    let last = scan_end (suc fuel) h a size cnt in
    if not (a == 0) && leb kvs_per_entry (size - cnt)
    then (if cnt + length add == size
        then some add
        else elim rest [ none ↦ none | some more ↦ some (add ++ more) ])
    else last

module _ (ix : Index) where
  open ix use {Carrier}

  -- `RangeScan(start_key, end_key, results)`
  unfoldable pub range_scan : (fuel : ℕ) → Tree Carrier → (start_key end_key : ℕ) → Option (List Kv)
  range_scan fuel t start_key end_key =
      let a = locate ix t start_key in
      let b = locate ix t end_key in
      let first = in_range start_key end_key (t.heap a).kvs in
      let last = in_range start_key end_key (t.heap b).kvs in
      if a == b then some first else elim (range_middle fuel t.heap a b) [
        | none ↦ none
        | some mid ↦ some (first ++ (mid ++ last))
      ]

  -- `Scan(start_key, size, results)`
  unfoldable pub scan : (fuel : ℕ) → Tree Carrier → (start_key size : ℕ) → Option (List Kv)
  scan fuel t start_key size =
      let a = locate ix t start_key in
      let tmp = sort_kvs (t.heap a).kvs in
      let got = scan_start tmp start_key size in
      let more = scan_middle fuel t.heap tmp (t.heap a).next size (length got) in
      if a == 0 then some [] else elim (find_ge tmp start_key) [
        | none ↦ more
        | some i ↦
            if length got == size
            then some got
            else elim more [ none ↦ none | some rest ↦ some (got ++ rest) ]
      ]
