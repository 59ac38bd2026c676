-- ===== src/Tree/Scan/Complete.antt =====
-- `RangeScan` ends, and it finds every key of its range.
use epli.Prelude.{
  ℕ, zero, suc, ◌≤◌, ◌<◌, ==→eq, ◌≡◌, ◌≢◌, refl, arith, List, [], ◌∷◌, ◌++◌, Option, none, some,
  true, false, leb, ◌==◌, length, Bool-cases, inl, inr, ◌∙◌, ap, sym, or_else,
}
use epli.Entry.{Kv, Entry}
use epli.Entry.Slots.{lookup, lookup-append}
use epli.Index.{Index, Pairs, floor_addr}
use epli.Tree.{Tree, locate}
use epli.Tree.Chain.{IsChain, floor-NotAmong}
use epli.Tree.State.{IsTree, contents, contents-lookup, locate-floor}
use epli.Tree.Scan.{in_range, range_middle, range_scan}
use epli.Tree.Scan.Range.{lookup-in_range, range_middle-first}

-- The entry of the first key of a chain.
floor-first : (h : ℕ → Entry) (k b : ℕ) (c : Pairs) → IsChain h k b c → floor_addr b c k ≡ b
floor-first h k b [] g = refl
floor-first h k b ((j, d) ∷ c) g = let e : leb j k ≡ false = ground (arith, g.3) in rw e

-- What a key has in the entries before `stop`, or else in `stop`.
abbrev found : (ℕ → Entry) → (stop : ℕ) → List Kv → ℕ → Option ℕ
found h stop mid j = or_else (lookup mid j) (lookup (h stop).kvs j)

-- The middle loop from the entry of one key to the entry of another.
record Covers (h : ℕ → Entry) (n lo a : ℕ) (c : Pairs) (start end : ℕ) (mid : List Kv)
    : Type 0 where
  runs : range_middle (suc n) h (floor_addr a c start) (floor_addr a c end) ≡ some mid
  finds :
      (j : ℕ)
      → j ≢ 0
      → start ≤ j
      → j ≤ end
      → found h (floor_addr a c end) mid j ≡ lookup (h (floor_addr a c j)).kvs j
  below : (j : ℕ) → j ≢ 0 → j < lo → found h (floor_addr a c end) mid j ≡ none

range_middle-stop : (n : ℕ) (h : ℕ → Entry) (a : ℕ) → range_middle (suc n) h a a ≡ some []
unfolding range_middle
range_middle-stop n h a = ground arith

range_middle-step :
    (n : ℕ) (h : ℕ → Entry) (a b stop : ℕ) (r : List Kv)
    → a ≢ stop
    → (h a).next ≡ b
    → range_middle n h b stop ≡ some r
    → range_middle (suc n) h a stop ≡ some ((h a).kvs ++ r)
unfolding range_middle
range_middle-step n h a b stop r ne next e =
    let more : (a == stop) ≡ false = ground arith in rw (more, next, e)

middle-Covers :
    (n : ℕ) (h : ℕ → Entry) (lo a : ℕ) (c : Pairs) (start end : ℕ)
    → length c ≤ n
    → IsChain h lo a c
    → start ≤ end
    → (mid : List Kv) × Covers h n lo a c start end mid
middle-Covers n h lo a [] start end len g le = (
  [],
  record {
    runs = range_middle-stop n h a;
    finds = λ j nj s e. refl;
    below = λ j nj lt. g.1 j nj lt;
  },
)
middle-Covers zero h lo a ((k, b) ∷ c) start end len g le = absurd (omega arith)
middle-Covers (suc n) h lo a ((k, b) ∷ c) start end len g le = elim (Bool-cases (leb k start)) [
  | inl p ↦
      let (mid, v) = middle-Covers (suc n) h k b c start end (omega arith) g.7 le in
      let q : leb k end ≡ true = ground arith in
      (
        mid,
        record {
          runs = rw (p, q) v.runs;
          finds = λ j nj s e. let f : leb k j ≡ true = ground arith in rw (q, f) (v.finds j nj s e);
          below = λ j nj lt. rw q (v.below j nj (omega (arith, g.3)));
        },
      )
  | inr p ↦ elim (Bool-cases (leb k end)) [
    | inr q ↦ (
      [],
      record {
        runs = rw (p, q) (range_middle-stop (suc n) h a);
        finds = λ j nj s e. let f : leb k j ≡ false = ground arith in rw (q, f) refl;
        below = λ j nj lt. rw q (g.1 j nj lt);
      },
    )
    | inl q ↦
        let (mid, v) = middle-Covers n h k b c k end (omega arith) g.7 (ground arith) in
        let stop = floor_addr b c end in
        let ne : a ≢ stop = floor-NotAmong h a b c end g.5.0 g.5.1 in
        let run = rw (floor-first h k b c g.7) at v.runs in
        (
          (h a).kvs ++ mid,
          record {
            runs = rw (p, q) (range_middle-step (suc n) h a b stop mid ne g.2 run);
            finds = λ j nj s e.
                rw (q, lookup-append (h a).kvs mid j)
                  (elim (Bool-cases (leb k j)) [
                    | inl f ↦ rw (f, g.4 j (ground arith)) (v.finds j nj (ground arith) e)
                    | inr f ↦ rw f (ground (arith, v.below j nj))
                  ]);
            below = λ j nj lt.
                rw (q, lookup-append (h a).kvs mid j, g.1 j nj lt)
                  (v.below j nj (omega (arith, g.3)));
          },
        )
  ]
]

-- What stands first decides.
or_else-again : (p q l : Option ℕ) → or_else p (or_else (or_else p q) l) ≡ or_else (or_else p q) l
or_else-again p q l = ground arith

module _ (ix : Index) where
  open ix use {Carrier}

  -- In a tree that satisfies the invariant, `RangeScan` of a range that is not reversed, with more rounds
  -- than there are entries behind the first one, ends, and the first pair of its result under a valid
  -- key of the range is the one that the tree holds; it has no such pair if the tree does not hold the
  -- key.
  pub range_scan-contents :
      {t : Tree Carrier} {lo : ℕ} (v : IsTree ix t lo) (n start end : ℕ)
      → length v.later ≤ n
      → start ≤ end
      → (r : List Kv) × (range_scan ix (suc n) t start end ≡ some r)
        × ((j : ℕ) → j ≢ 0 → start ≤ j → j ≤ end → lookup r j ≡ contents ix t j)
  unfolding range_scan
  range_scan-contents {t} {lo} v n start end len le =
      let a = locate ix t start in
      let b = locate ix t end in
      let (mid, w) = middle-Covers n t.heap lo t.head v.later start end len v.chain le in
      let run : range_middle (suc n) t.heap a b ≡ some mid =
        rw (locate-floor ix v start, locate-floor ix v end) w.runs in
      let all : (j : ℕ) → j ≢ 0 → start ≤ j → j ≤ end → found t.heap b mid j ≡ contents ix t j =
        λ j nj s e. rw (locate-floor ix v end, contents-lookup ix v j nj) (w.finds j nj s e) in
      let first = in_range start end (t.heap a).kvs in
      let last = in_range start end (t.heap b).kvs in
      let inside : (j x : ℕ)
          → start ≤ j
          → j ≤ end
          → lookup (in_range start end (t.heap x).kvs) j ≡ lookup (t.heap x).kvs j =
        λ j x s e. ground (arith, lookup-in_range start end j (t.heap x).kvs) in
      elim (Bool-cases (a == b)) [
        | inl q ↦
            let one : a ≡ b = ==→eq a b q in
            let nothing : mid ≡ [] = cc (run, range_middle-stop n t.heap b, one) in
            (
              first,
              rw q,
              λ j nj s e.
                  inside j a s e
                  ∙ ap (λ (x : ℕ). lookup (t.heap x).kvs j) one
                  ∙ ap (λ (m : List Kv). found t.heap b m j) (sym nothing)
                  ∙ all j nj s e,
            )
        | inr q ↦
            let (more, cut) = range_middle-first (suc n) t.heap a b mid (ground arith) run in
            let again : (j : ℕ)
                → or_else (lookup (t.heap a).kvs j) (found t.heap b mid j) ≡ found t.heap b mid j =
              λ j.
                rw (cut, lookup-append (t.heap a).kvs more j)
                  (or_else-again (lookup (t.heap a).kvs j) (lookup more j)
                    (lookup (t.heap b).kvs j)) in
            (
              first ++ (mid ++ last),
              rw (q, run, range_scan),
              λ j nj s e.
                  rw
                    (
                      lookup-append first (mid ++ last) j,
                      lookup-append mid last j,
                      inside j a s e,
                      inside j b s e,
                    )
                    (again j ∙ all j nj s e),
            )
      ]
