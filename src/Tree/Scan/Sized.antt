-- ===== src/Tree/Scan/Sized.antt =====
-- How many pairs `Scan` adds, and which ones its middle loop adds.
use epli.Prelude.{
  ℕ, zero, suc, ◌+◌, ◌-◌, ◌*◌, ◌≤◌, ◌<◌, ◌≡◌, ◌≢◌, refl, arith, List, [], ◌∷◌, ◌++◌, none, some,
  true, false, leb, ◌&&◌, not, ◌==◌, drop, take, length, length-append, Bool-cases, Option-cases,
  inl, inr, ap, ◌∙◌,
}
use epli.Entry.{Kv, Entry, kvs_per_entry, sort_kvs}
use epli.Entry.Sort.{length-sort, count-sort}
use epli.Entry.Slots.{count, count-append}
use mathlib.Core.List.{append-nil}
use epli.Index.{Index}
use epli.Tree.{Tree, locate}
use epli.Tree.Scan.{find_ge, scan_start, valid_kvs, push_until, scan_end, scan_middle, scan}

length-take-le : (n : ℕ) (s : List Kv) → length (take n s) ≤ n
length-take-le zero s = omega arith
length-take-le (suc n) [] = omega arith
length-take-le (suc n) (x ∷ s) = omega (arith, length-take-le n s)

length-valid_kvs-le : (s : List Kv) → length (valid_kvs s) ≤ length s
unfolding valid_kvs
length-valid_kvs-le [] = omega arith
length-valid_kvs-le ((k, v) ∷ s) = ground (arith, length-valid_kvs-le s)

push_until_bound :
    (s : List Kv) (size cnt : ℕ)
    → cnt < size
    → (cnt + length (push_until s size cnt).0 ≤ size)
      × ((push_until s size cnt).1 ≡ false → cnt + length (push_until s size cnt).0 < size)
unfolding push_until
push_until_bound [] size cnt lt = ground arith
push_until_bound ((k, v) ∷ s) size cnt lt =
    ground (arith, push_until_bound s size cnt, push_until_bound s size (cnt + 1))

scan_end_bound :
    (fuel : ℕ) (h : ℕ → Entry) (a size cnt : ℕ) (r : List Kv)
    → cnt < size
    → scan_end fuel h a size cnt ≡ some r
    → cnt + length r ≤ size
unfolding scan_end
scan_end_bound zero h a size cnt r lt e = cc
scan_end_bound (suc fuel) h a size cnt r lt e =
    let q = push_until (sort_kvs (h a).kvs) size cnt in
    let p = push_until_bound (sort_kvs (h a).kvs) size cnt lt in
    let c = cnt + length q.0 in
    elim (Option-cases (scan_end fuel h (h a).next size c)) [
      | inl n ↦ ground (arith, n, p)
      | inr (more, m) ↦
          ground (arith, m, p, scan_end_bound fuel h (h a).next size c more, length-append q.0 more)
    ]

scan_middle_bound :
    (fuel : ℕ) (h : ℕ → Entry) (tmp : List Kv) (a size cnt : ℕ) (r : List Kv)
    → cnt < size
    → length tmp ≡ kvs_per_entry
    → scan_middle fuel h tmp a size cnt ≡ some r
    → cnt + length r ≤ size
unfolding scan_middle
scan_middle_bound zero h tmp a size cnt r lt l e = cc
scan_middle_bound (suc fuel) h tmp a size cnt r lt l e =
    let add = valid_kvs tmp in
    let c = cnt + length add in
    let few = length-valid_kvs-le tmp in
    let last = scan_end_bound (suc fuel) h a size cnt r lt in
    elim (Bool-cases (not (a == 0) && leb kvs_per_entry (size - cnt))) [
      | inr no_room ↦ last (rw no_room at e)
      | inl room ↦
          let e' = rw room at e in
          elim (Option-cases (scan_middle fuel h tmp (h a).next size c)) [
            | inl n ↦ ground (arith, n, few)
            | inr (more, m) ↦ ground (
              arith,
              m,
              few,
              scan_middle_bound fuel h tmp (h a).next size c more,
              length-append add more,
            )
          ]
    ]

length-scan_start-le : (tmp : List Kv) (start size : ℕ) → length (scan_start tmp start size) ≤ size
unfolding scan_start
length-scan_start-le tmp start size = elim (Option-cases (find_ge tmp start)) [
  | inl n ↦ rw (n, scan_start) (omega arith)
  | inr (i, e) ↦ rw (e, scan_start) (length-take-le size (drop i tmp))
]

count-valid_kvs : (s : List Kv) (j : ℕ) → j ≢ 0 → count j (valid_kvs s) ≡ count j s
unfolding valid_kvs
count-valid_kvs [] j nj = refl
count-valid_kvs ((k, v) ∷ s) j nj = ground (arith, count-valid_kvs s j nj)

take-long : (n : ℕ) (s : List Kv) → length s ≤ n → take n s ≡ s
take-long zero [] le = refl
take-long zero (x ∷ s) le = absurd (omega arith)
take-long (suc n) [] le = refl
take-long (suc n) (x ∷ s) le = ap (λ (r : List Kv). x ∷ r) (take-long n s (omega arith))

-- A round of the middle loop adds the valid pairs of `tmp`, whatever the visited entry holds.
scan_middle-adds :
    (fuel : ℕ) (h : ℕ → Entry) (tmp : List Kv) (a size cnt : ℕ) (r : List Kv)
    → a ≢ 0
    → cnt + kvs_per_entry ≤ size
    → scan_middle fuel h tmp a size cnt ≡ some r
    → (more : List Kv) × (r ≡ valid_kvs tmp ++ more)
unfolding scan_middle
scan_middle-adds zero h tmp a size cnt r nz room e = cc
scan_middle-adds (suc fuel) h tmp a size cnt r nz room e =
    let c = cnt + length (valid_kvs tmp) in
    let wanted : (not (a == 0) && leb kvs_per_entry (size - cnt)) ≡ true = ground arith in
    let e' = rw wanted at e in
    elim (Bool-cases (c == size)) [
      | inl q ↦ ([], cc (rw q at e', append-nil (valid_kvs tmp)))
      | inr q ↦ elim (Option-cases (scan_middle fuel h tmp (h a).next size c)) [
        | inl n ↦ absurd (ground (arith, n, q))
        | inr (more, m) ↦ (more, ground (arith, m, q))
      ]
    ]

scan_start-none :
    (tmp : List Kv) (start size : ℕ) → find_ge tmp start ≡ none → scan_start tmp start size ≡ []
unfolding scan_start
scan_start-none tmp start size n = rw (n, scan_start)

scan_start-all :
    (tmp : List Kv) (start size : ℕ)
    → find_ge tmp start ≡ some 0
    → length tmp ≤ size
    → scan_start tmp start size ≡ tmp
unfolding scan_start
scan_start-all tmp start size e le = rw (e, scan_start) (take-long size tmp le)

module _ (ix : Index) where
  open ix use {Carrier}

  module _ (fuel : ℕ) (t : Tree Carrier) (start size : ℕ) (r : List Kv)
      (full : length (t.heap (locate ix t start)).kvs ≡ kvs_per_entry)
      (run : scan ix fuel t start size ≡ some r) where
    abbrev entry : ℕ
    entry = locate ix t start

    abbrev tmp_kvs : List Kv
    tmp_kvs = sort_kvs (t.heap entry).kvs

    -- What `Scan` adds when it ends, where the start entry has its 14 slots.
    pub length-scan-le : 0 < size → length r ≤ size
    unfolding scan
    length-scan-le pos =
        let got = scan_start tmp_kvs start size in
        let some_got = length-scan_start-le tmp_kvs start size in
        let len = length-sort (t.heap entry).kvs ∙ full in
        let rest = scan_middle fuel t.heap tmp_kvs (t.heap entry).next size (length got) in
        let bound = scan_middle_bound fuel t.heap tmp_kvs (t.heap entry).next size (length got) in
        elim (Option-cases rest) [
          | inl n ↦ ground (arith, n, scan_start-none tmp_kvs start size)
          | inr (more, m) ↦
              ground
                (arith, m, scan_start-none tmp_kvs start size, bound more, length-append got more)
        ]

    -- Where the start entry has its 14 slots and is not the last one, its smallest key is not less than
    -- the start key, and at least 28 pairs are wanted, `Scan`, when it ends, adds each valid key at least
    -- twice for each time that the start entry holds it.
    pub scan_repeats :
        entry ≢ 0
        → (t.heap entry).next ≢ 0
        → find_ge tmp_kvs start ≡ some 0
        → 2 * kvs_per_entry ≤ size
        → (j : ℕ) → j ≢ 0
        → 2 * count j (t.heap entry).kvs ≤ count j r
    unfolding scan
    scan_repeats nz next from room j nj =
        let len = length-sort (t.heap entry).kvs ∙ full in
        let got : scan_start tmp_kvs start size ≡ tmp_kvs =
          scan_start-all tmp_kvs start size from (omega (arith, len)) in
        let rest = scan_middle fuel t.heap tmp_kvs (t.heap entry).next size (length tmp_kvs) in
        let run' = rw (from, got) at run in
        elim (Option-cases rest) [
          | inl n ↦ absurd (ground (arith, n))
          | inr (more, m) ↦
              let (end, split) =
                scan_middle-adds fuel t.heap tmp_kvs (t.heap entry).next size (length tmp_kvs) more
                  next (omega arith) m in
              let all : r ≡ tmp_kvs ++ more = ground (arith, m) in
              rw
                (
                  all,
                  split,
                  count-append tmp_kvs (valid_kvs tmp_kvs ++ end) j,
                  count-append (valid_kvs tmp_kvs) end j,
                  count-valid_kvs tmp_kvs j nj,
                  count-sort (t.heap entry).kvs j,
                )
                (omega arith)
        ]
