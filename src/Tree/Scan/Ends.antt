-- ===== src/Tree/Scan/Ends.antt =====
-- The loops of `Scan` end: each round follows `next` once.
use epli.Prelude.{
  ℕ, zero, suc, ◌+◌, ◌-◌, ◌≤◌, ◌<◌, ◌≡◌, ◌≢◌, ◌⊎◌, arith, List, [], ◌∷◌, ◌++◌, some, false, leb,
  ◌&&◌, not, ◌==◌, length, Bool-cases, Option-cases, inl, inr,
}
use epli.Entry.{Kv, Entry, kvs_per_entry, sort_kvs}
use epli.Index.{Index, Pairs, floor_addr}
use epli.Tree.{Tree, locate}
use epli.Tree.Chain.{IsChain, floor-IsValid}
use epli.Tree.State.{IsTree, locate-floor, floor_ne_zero}
use epli.Tree.Scan.{find_ge, scan_start, valid_kvs, push_until, scan_end, scan_middle, scan}
use epli.Tree.Scan.Sized.{length-scan-le}

-- Following `next` reaches 0 within so many steps.
abbrev Short : ℕ → (ℕ → Entry) → ℕ → Type 0
Short zero h a = a ≡ 0
Short (suc n) h a = (a ≡ 0) ⊎ Short n h (h a).next

Short-mono : (n m : ℕ) (h : ℕ → Entry) (a : ℕ) → n ≤ m → Short n h a → Short m h a
Short-mono zero zero h a le s = s
Short-mono zero (suc m) h a le s = inl s
Short-mono (suc n) zero h a le s = absurd (omega arith)
Short-mono (suc n) (suc m) h a le (inl e) = inl e
Short-mono (suc n) (suc m) h a le (inr s) = inr (Short-mono n m h (h a).next (omega arith) s)

Short-next : (n : ℕ) (h : ℕ → Entry) (a : ℕ) → a ≢ 0 → Short (suc n) h a → Short n h (h a).next
Short-next n h a nz (inl e) = absurd (nz e)
Short-next n h a nz (inr s) = s

chain-Short : (h : ℕ → Entry) (lo a : ℕ) (c : Pairs) → IsChain h lo a c → Short (suc (length c)) h a
chain-Short h lo a [] g = inr g.2
chain-Short h lo a ((k, b) ∷ c) g = inr (rw g.2 (chain-Short h k b c g.7))

floor-Short :
    (h : ℕ → Entry) (lo a : ℕ) (c : Pairs) (k : ℕ)
    → IsChain h lo a c
    → Short (suc (length c)) h (floor_addr a c k)
floor-Short h lo a [] k g = chain-Short h lo a [] g
floor-Short h lo a ((j, b) ∷ c) k g = elim (Bool-cases (leb j k)) [
  | inl e ↦ rw e (
      Short-mono (suc (length c)) (suc (suc (length c))) h (floor_addr b c k) (omega arith)
        (floor-Short h j b c k g.7))
  | inr e ↦ rw e (chain-Short h lo a ((j, b) ∷ c) g)
]

scan_end_ends :
    (n : ℕ) (h : ℕ → Entry) (a size cnt : ℕ)
    → Short n h a
    → (r : List Kv) × (scan_end (suc n) h a size cnt ≡ some r)
unfolding scan_end
scan_end_ends zero h a size cnt s = ([], rw s)
scan_end_ends (suc n) h a size cnt (inl e) = ([], rw e)
scan_end_ends (suc n) h a size cnt (inr s) =
    let p = push_until (sort_kvs (h a).kvs) size cnt in
    let (more, m) = scan_end_ends n h (h a).next size (cnt + length p.0) s in
    elim (Bool-cases (a == 0)) [
      | inl e ↦ ([], rw e)
      | inr e ↦ elim (Bool-cases p.1) [
        | inl d ↦ (p.0, rw (e, d))
        | inr d ↦ (p.0 ++ more, rw (e, d, scan_end) (rw m))
      ]
    ]

scan_middle_ends :
    (n : ℕ) (h : ℕ → Entry) (tmp : List Kv) (a size cnt : ℕ)
    → Short n h a
    → (r : List Kv) × (scan_middle (suc n) h tmp a size cnt ≡ some r)
unfolding scan_middle
scan_middle_ends zero h tmp a size cnt s =
    let (r, e) = scan_end_ends zero h a size cnt s in
    let out : (not (a == 0) && leb kvs_per_entry (size - cnt)) ≡ false = ground (arith, s) in
    (r, rw (out, scan_middle) e)
scan_middle_ends (suc n) h tmp a size cnt s =
    let add = valid_kvs tmp in
    let (last, l) = scan_end_ends (suc n) h a size cnt s in
    elim (Bool-cases (not (a == 0) && leb kvs_per_entry (size - cnt))) [
      | inr no_room ↦ (last, rw (no_room, scan_middle) l)
      | inl room ↦
          let (more, m) =
            scan_middle_ends n h tmp (h a).next size (cnt + length add)
              (Short-next n h a (ground arith) s) in
          elim (Bool-cases (cnt + length add == size)) [
            | inl d ↦ (add, rw (room, d, scan_middle))
            | inr d ↦ (add ++ more, rw (room, d, scan_middle) (rw m))
          ]
    ]

module _ (ix : Index) where
  open ix use {Carrier}

  -- In a tree that satisfies the invariant, `Scan` with at least as many rounds as there are entries
  -- ends, and for a positive number of pairs it adds no more than that number.
  pub scan_ends :
      {t : Tree Carrier} {lo : ℕ} (v : IsTree ix t lo) (n start size : ℕ)
      → length v.later ≤ n
      → (r : List Kv) × (scan ix (suc n) t start size ≡ some r) × (0 < size → length r ≤ size)
  unfolding scan
  scan_ends {t} {lo} v n start size le =
      let a = locate ix t start in
      let at = locate-floor ix v start in
      let nz : a ≢ 0 =
        rw at (floor_ne_zero t.nvm.current_addr t.head v.later start v.placed_head.2 v.placed) in
      let tmp = sort_kvs (t.heap a).kvs in
      let got = scan_start tmp start size in
      let short = Short-mono (length v.later) n t.heap (t.heap a).next le (
        Short-next (length v.later) t.heap a nz
          (rw at (floor-Short t.heap lo t.head v.later start v.chain))) in
      let (more, m) = scan_middle_ends n t.heap tmp (t.heap a).next size (length got) short in
      let full : length (t.heap a).kvs ≡ kvs_per_entry =
        rw at (floor-IsValid t.heap lo t.head v.later start v.chain).slots in
      let ends : (r : List Kv) × (scan ix (suc n) t start size ≡ some r) =
        let there : (a == 0) ≡ false = ground arith in
        elim (Option-cases (find_ge tmp start)) [
          | inl e ↦ (more, rw (there, e, scan) m)
          | inr (i, e) ↦ elim (Bool-cases (length got == size)) [
            | inl d ↦ (got, rw (there, e, d, scan))
            | inr d ↦ (got ++ more, rw (there, e, d, scan) (rw m))
          ]
        ] in
      (ends.0, ends.1, length-scan-le ix (suc n) t start size ends.0 full ends.1)
