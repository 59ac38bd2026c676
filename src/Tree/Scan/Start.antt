-- ===== src/Tree/Scan/Start.antt =====
-- What `Scan` of src/epltree.h delivers when the start entry has all the pairs that are wanted.
use epli.Prelude.{
  ℕ, zero, suc, ◌+◌, ◌≤◌, ◌<◌, ◌≡◌, ◌≢◌, refl, arith, List, [], ◌∷◌, none, some, true, false, leb,
  ltb, length-take, length-drop, length, take, drop, Bool-cases, inl, inr, ◌∙◌, sym, ◌==◌,
  Option-cases, ap,
}
use epli.Entry.{Kv, Entry, sort_kvs}
use epli.Entry.Slots.{lookup}
use epli.Entry.Sort.{lookup-sort}
use epli.Entry.Ordered.{
  Ordered, take-Ordered, sort-Ordered, lookup-Ordered, lookup-take, take_least,
}
use epli.Index.{Index, Pairs, floor_addr}
use epli.Tree.{Tree, locate}
use epli.Tree.Chain.{IsChain, floor-NotAmong}
use epli.Tree.Cut.{floor_same}
use epli.Tree.State.{IsTree, contents, locate-floor, contents-lookup, floor_ne_zero}
use epli.Tree.Scan.{scan, scan_start, find_ge}

find_ge-Ordered :
    (lo start i : ℕ) (s : List Kv)
    → Ordered lo s
    → find_ge s start ≡ some i
    → Ordered start (drop i s) × ((j : ℕ) → start ≤ j → lookup (drop i s) j ≡ lookup s j)
unfolding find_ge
find_ge-Ordered lo start i [] o h = absurd (cc)
find_ge-Ordered lo start zero ((k, v) ∷ s) o h = ((ground arith, o.1), λ j le. refl)
find_ge-Ordered lo start (suc i) ((k, v) ∷ s) o h =
    let later : find_ge s start ≡ some i = ground arith in
    let first : k < start = ground arith in
    let (up, reads) = find_ge-Ordered k start i s o.1 later in
    (up, λ j le. ground (arith, reads j le))

-- Between two keys of one entry every key belongs to that entry.
floor_between :
    (h : ℕ → Entry) (lo a : ℕ) (c : Pairs) (start j x : ℕ)
    → IsChain h lo a c
    → start ≤ j
    → j ≤ x
    → floor_addr a c x ≡ floor_addr a c start
    → floor_addr a c j ≡ floor_addr a c start
floor_between h lo a [] start j x g le ge same = refl
floor_between h lo a ((k, b) ∷ c) start j x g le ge same = elim (Bool-cases (leb k start)) [
  | inl e ↦
      let ej : leb k j ≡ true = ground arith in
      let ex : leb k x ≡ true = ground arith in
      rw (e, ej) (floor_between h k b c start j x g.7 le ge (rw (e, ex) at same))
  | inr e ↦ elim (Bool-cases (leb k x)) [
    | inl d ↦ absurd (floor-NotAmong h a b c x g.5.0 g.5.1 (sym (rw (e, d) at same)))
    | inr d ↦ let ej : leb k j ≡ false = ground arith in rw (e, ej) refl
  ]
]

module _ (ix : Index) where
  open ix use {Carrier}

  -- `r` has the `size` least pairs of the tree from the key `start` on.
  pub record Least (t : Tree Carrier) (start size : ℕ) (r : List Kv) : Type 0 where
    pub ordered : Ordered start r
    pub long : length r ≡ size
    pub reads : (j : ℕ) → j ≢ 0 → lookup r j ≢ none → lookup r j ≡ contents ix t j
    pub least :
        (j x : ℕ)
        → start ≤ j
        → contents ix t j ≢ none
        → lookup r j ≡ none
        → lookup r x ≢ none
        → x < j

  module _ {t : Tree Carrier} {lo : ℕ} (v : IsTree ix t lo) (start size i : ℕ)
      (nz : start ≢ 0) where
    abbrev kvs : List Kv
    kvs = (t.heap (floor_addr t.head v.later start)).kvs

    abbrev rest : List Kv
    rest = drop i (sort_kvs kvs)

    -- What the start entry holds, the tree holds.
    own :
        (j : ℕ)
        → j ≢ 0
        → lookup kvs j ≢ none
        → floor_addr t.head v.later j ≡ floor_addr t.head v.later start
    own j nj here = floor_same t.heap lo t.head v.later start j v.chain nj here

    own-contents :
        (j : ℕ)
        → j ≢ 0
        → floor_addr t.head v.later j ≡ floor_addr t.head v.later start
        → contents ix t j ≡ lookup kvs j
    own-contents j nj at = contents-lookup ix v j nj ∙ ap (λ (b : ℕ). lookup (t.heap b).kvs j) at

    module _ (e : find_ge (sort_kvs kvs) start ≡ some i) where
      rest_facts : Ordered start rest × ((j : ℕ) → start ≤ j → lookup rest j ≡ lookup kvs j)
      rest_facts =
          let (up, reads) = find_ge-Ordered 0 start i (sort_kvs kvs) (sort-Ordered kvs) e in
          (up, λ j le. reads j le ∙ lookup-sort kvs j)

      -- A pair of the result is one of the entry.
      taken :
          (j : ℕ)
          → lookup (take size rest) j ≢ none
          → (start ≤ j) × (lookup (take size rest) j ≡ lookup kvs j)
      taken j here =
          let (up, reads) = rest_facts in
          elim (lookup-take size j rest) [
            | inl z ↦ absurd (here z)
            | inr q ↦
                let le : start ≤ j = lookup-Ordered start j rest up (λ z. here (q ∙ z)) in
                (le, q ∙ reads j le)
          ]

      take-Least : i + size ≤ length (sort_kvs kvs) → Least t start size (take size rest)
      take-Least enough =
          let (up, reads) = rest_facts in
          record {
            ordered = take-Ordered start size rest up;
            long = length-take size rest (omega (arith, length-drop i (sort_kvs kvs), enough));
            reads = λ j nj here.
                let (le, q) = taken j here in
                q ∙ sym (own-contents j nj (own j nj (λ z. here (q ∙ z))));
            least = λ j x le held out here.
                let (ge, q) = taken x here in
                let at = own x (omega (arith, ge)) (λ z. here (q ∙ z)) in
                elim (Option-cases (lookup kvs j)) [
                  | inr (w, p) ↦
                      take_least start size j x rest up (λ z. cc (z, reads j le, p)) out here
                  | inl p ↦ elim (Bool-cases (ltb x j)) [
                    | inl d ↦ ground arith
                    | inr d ↦ absurd (
                        held (
                          own-contents j (omega (arith, le)) (
                            floor_between t.heap lo t.head v.later start j x v.chain le
                              (ground arith) at)
                          ∙ p))
                  ]
                ];
          }

  -- In a tree that satisfies the invariant, for a valid start key, if the entry that the index names holds
  -- enough pairs from the start key on, then `Scan` delivers, in the order of their keys, as many pairs as
  -- are wanted: pairs of the tree, and the least ones from the start key on.
  pub scan-Least :
      {t : Tree Carrier} {lo : ℕ} (v : IsTree ix t lo) (fuel start size i : ℕ)
      → start ≢ 0
      → find_ge (sort_kvs (t.heap (locate ix t start)).kvs) start ≡ some i
      → i + size ≤ length (sort_kvs (t.heap (locate ix t start)).kvs)
      → (r : List Kv) × (scan ix fuel t start size ≡ some r) × Least t start size r
  unfolding scan scan_start
  scan-Least {t} {lo} v fuel start size i nz e enough =
      let a = locate ix t start in
      let at = locate-floor ix v start in
      let tmp = sort_kvs (t.heap a).kvs in
      let got = take size (drop i tmp) in
      let there : (a == 0) ≡ false =
        let n : a ≢ 0 =
          rw at (floor_ne_zero t.nvm.current_addr t.head v.later start v.placed_head.2 v.placed) in
        ground arith in
      let same : scan_start tmp start size ≡ got = rw (e, scan_start) refl in
      let long : length got ≡ size =
        length-take size (drop i tmp) (omega (arith, length-drop i tmp, enough)) in
      let stops : (length (scan_start tmp start size) == size) ≡ true =
        ground (arith, same, long) in
      (
        got,
        rw (there, e, stops, scan) (ap some same),
        rw at (take-Least v start size i nz (rw at at e) (rw at at enough)),
      )
