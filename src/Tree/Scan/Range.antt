-- ===== src/Tree/Scan/Range.antt =====
-- What `RangeScan` adds: exact inside one entry, with repetitions across entries.
use epli.Prelude.{
  ℕ, zero, suc, ◌*◌, ◌≤◌, ◌≡◌, ◌≢◌, refl, arith, List, [], ◌∷◌, ◌++◌, none, some, leb, ◌&&◌,
  if◌then◌else◌, Option-cases, inl, inr,
}
use epli.Entry.{Kv, Entry}
use epli.Entry.Slots.{lookup, count, count-append}
use epli.Index.{Index}
use epli.Tree.{Tree, locate}
use epli.Tree.State.{IsTree, contents, locate-floor, contents-lookup}
use epli.Tree.Scan.{in_range, range_middle, range_scan}

pub lookup-in_range :
    (lo hi j : ℕ) (s : List Kv)
    → lookup (in_range lo hi s) j ≡ (if leb lo j && leb j hi then lookup s j else none)
unfolding in_range
lookup-in_range lo hi j [] = ground arith
lookup-in_range lo hi j ((k, v) ∷ s) = ground (arith, lookup-in_range lo hi j s)

count-in_range :
    (lo hi j : ℕ) (s : List Kv) → lo ≤ j → j ≤ hi → count j (in_range lo hi s) ≡ count j s
unfolding in_range
count-in_range lo hi j [] a b = refl
count-in_range lo hi j ((k, v) ∷ s) a b = ground (arith, count-in_range lo hi j s a b)

pub range_middle-first :
    (fuel : ℕ) (h : ℕ → Entry) (a stop : ℕ) (r : List Kv)
    → a ≢ stop
    → range_middle fuel h a stop ≡ some r
    → (more : List Kv) × (r ≡ (h a).kvs ++ more)
unfolding range_middle
range_middle-first zero h a stop r ne e = cc
range_middle-first (suc fuel) h a stop r ne e =
    elim (Option-cases (range_middle fuel h (h a).next stop)) [
      | inl n ↦ absurd (ground (arith, n))
      | inr (more, m) ↦ (more, ground (arith, m))
    ]

module _ (ix : Index) where
  open ix use {Carrier}

  module _ {t : Tree Carrier} {lo : ℕ} (v : IsTree ix t lo) (fuel start end : ℕ) where
    -- In a tree that satisfies the invariant, where the index names one entry for both ends of the
    -- range, `RangeScan` ends, and for a valid key that the index names the same entry for, its result
    -- has the value that the tree holds if the key is in the range, and does not have the key if not.
    pub range_scan-lookup :
        (j : ℕ)
        → j ≢ 0
        → locate ix t start ≡ locate ix t end
        → locate ix t j ≡ locate ix t start
        → (r : List Kv) × (range_scan ix fuel t start end ≡ some r)
          × (lookup r j ≡ (if leb start j && leb j end then contents ix t j else none))
    unfolding range_scan
    range_scan-lookup j nj same here =
        let a = locate ix t start in
        (
          in_range start end (t.heap a).kvs,
          ground arith,
          rw (
            lookup-in_range start end j (t.heap a).kvs,
            contents-lookup ix v j nj,
            ← locate-floor ix v j,
            here,
          ),
        )

  module _ (t : Tree Carrier) (fuel start end : ℕ) where
    -- Where the index names two entries for the ends of the range, `RangeScan`, when it ends, adds each
    -- key of the range at least twice for each time that the start entry holds it.
    pub range_scan_repeats :
        (j : ℕ) (r : List Kv)
        → locate ix t start ≢ locate ix t end
        → start ≤ j
        → j ≤ end
        → range_scan ix fuel t start end ≡ some r
        → 2 * count j (t.heap (locate ix t start)).kvs ≤ count j r
    unfolding range_scan
    range_scan_repeats j r ne ge le run =
        let a = locate ix t start in
        let b = locate ix t end in
        let first = in_range start end (t.heap a).kvs in
        let last = in_range start end (t.heap b).kvs in
        elim (Option-cases (range_middle fuel t.heap a b)) [
          | inl n ↦ absurd (ground (arith, n))
          | inr (mid, m) ↦
              let (more, split) = range_middle-first fuel t.heap a b mid ne m in
              let all : r ≡ first ++ (mid ++ last) = ground (arith, m) in
              rw
                (
                  all,
                  count-append first (mid ++ last) j,
                  count-append mid last j,
                  split,
                  count-append (t.heap a).kvs more j,
                  count-in_range start end j (t.heap a).kvs ge le,
                )
                (omega arith)
        ]
