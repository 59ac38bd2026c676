-- ===== src/Tree/Crash/Lost.antt =====
-- A stop of `splitEntry` while `setOrderedKVs` stores the lower half in the old entry.
use epli.Prelude.{
  ℕ, zero, suc, ◌+◌, ◌-◌, ◌≤◌, ◌<◌, ◌≡◌, ◌≢◌, arith, List, [], ◌∷◌, none, some, ◌∙◌, sym, ◌==◌,
  length, get_or, Bool-cases, ==→eq, inl, inr, ap,
}
use epli.Entry.{Kv, kvs_per_entry, sort_kvs}
use epli.Entry.Slots.{lookup, count, lookup-eq-none}
use epli.Entry.Copy.{lookup-copy_zeroed}
use epli.Entry.Sort.{Ascending, sort-Ascending, length-sort, lookup-sort}
use epli.Entry.Sorted.{pivot-ge, lookup-take, lookup-pivot}
use epli.Index.{Index, floor_addr}
use epli.Tree.{Tree, half, pivot_key}
use epli.Tree.State.{scan_list, IsTree, contents, contents-lookup}
use epli.Tree.Cut.{floor_same}
use epli.Tree.Crash.{split_until}
use epli.Tree.Crash.Keep.{until_stored, entry, new, apart, valid, new_pairs, linked_view}

key-lt :
    (lo i n : ℕ) (s : List Kv)
    → Ascending lo s
    → i < n
    → n < length s
    → (get_or s i (0, 0)).0 < (get_or s n (0, 0)).0
key-lt lo i n [] up lt le = absurd (omega arith)
key-lt lo zero zero (x ∷ s) up lt le = absurd (omega arith)
key-lt lo zero (suc n) ((k, v) ∷ s) up lt le = pivot-ge (suc k) n s up.1 (omega arith)
key-lt lo (suc i) zero (x ∷ s) up lt le = absurd (omega arith)
key-lt lo (suc i) (suc n) ((k, v) ∷ s) up lt le =
    key-lt (suc k) i n s up.1 (omega arith) (omega arith)

module _ (ix : Index) where
  open ix use {Carrier}

  module _ {t : Tree Carrier} {lo : ℕ} (v : IsTree ix t lo) (k : ℕ) where
    abbrev at : ℕ
    at = entry ix v k

    abbrev fresh : ℕ
    fresh = new ix v k

    module _ (full : count 0 (t.heap at).kvs ≡ 0) where
      sorted : List Kv
      sorted = sort_kvs (t.heap at).kvs

      sorted_facts : Ascending 0 sorted × (length sorted ≡ kvs_per_entry)
      unfolding sorted
      sorted_facts = (
        sort-Ascending (t.heap at).kvs (λ x. ground (arith, (valid ix v k full).unique x)),
        length-sort (t.heap at).kvs ∙ (valid ix v k full).slots,
      )

      module _ (i : ℕ) (lt : i < half) where
        key : ℕ
        key = (get_or sorted i (0, 0)).0

        key_held : lookup (t.heap at).kvs key ≡ some (get_or sorted i (0, 0)).1
        unfolding sorted key
        key_held =
            let (up, long) = sorted_facts in
            sym (lookup-sort (t.heap at).kvs key) ∙ lookup-pivot 0 i sorted up (omega (arith, long))

        key_pos : key ≢ 0
        key_pos e =
            let z = lookup-eq-none (t.heap at).kvs 0 full in
            cc (z, key_held, ap (lookup (t.heap at).kvs) e)

        key_below : (q : ℕ) → q ≤ i → (get_or sorted q (0, 0)).0 ≤ key
        unfolding key
        key_below q le =
            let (up, long) = sorted_facts in
            elim (Bool-cases (q == i)) [
              | inl e ↦ rw (==→eq q i e) (omega arith)
              | inr e ↦
                  omega (arith, key-lt 0 q i sorted up (ground (arith, e)) (omega (arith, long)))
            ]

        key_gone :
            (stage : ℕ)
            → 5 ≤ stage
            → stage ≤ 5 + i
            → (lookup (split_until t.heap at fresh stage at).kvs key ≡ none)
              × (lookup (split_until t.heap at fresh stage fresh).kvs key ≡ none)
        unfolding sorted key
        key_gone stage ge le =
            let (nh, nc, ne, nz) = apart ix v k in
            let (up, long) = sorted_facts in
            let q = stage - 5 in
            let below : (get_or sorted q (0, 0)).0 ≤ key = key_below q (omega arith) in
            let above : key < pivot_key (t.heap at) =
              key-lt 0 i half sorted up lt (omega (arith, long)) in
            (
              ap (λ (s : List Kv). lookup s key) (until_stored t.heap at fresh ne stage ge)
                  ∙ (lookup-copy_zeroed sorted q (omega arith) (omega (arith, long)) key key_pos
                      ∙ (lookup-take 0 q key sorted up (omega (arith, long))
                          ∙ ground (arith, below))),
              new_pairs ix v k full stage key (omega arith) key_pos ∙ ground (arith, above),
            )

      -- A split of a full entry in a tree that satisfies the invariant may stop when `setOrderedKVs` has
      -- stored `stage - 5` pairs of the lower half: a key of that half whose pair is not stored yet was
      -- held by the tree, and is in no entry of the list from the head.
      pub split_until_loses :
          (stage i fuel : ℕ)
          → 5 ≤ stage
          → stage ≤ 5 + i
          → i < half
          → suc (length v.later) < fuel
          → let m = (get_or (sort_kvs (t.heap at).kvs) i (0, 0)).0 in
            (contents ix t m ≢ none)
            × (scan_list fuel (split_until t.heap at fresh stage) t.head m ≡ none)
      unfolding key sorted
      split_until_loses stage i fuel ge le lt long =
          let m = key i lt in
          let nm = key_pos i lt in
          let held = key_held i lt in
          let gone = key_gone i lt stage ge le in
          let fl : floor_addr t.head v.later m ≡ at =
            floor_same t.heap lo t.head v.later k m v.chain nm (λ e. cc (e, held)) in
          (
            λ e.
                cc (e, held, contents-lookup ix v m nm, ap (λ (b : ℕ). lookup (t.heap b).kvs m) fl),
            linked_view ix v k full stage fuel m (omega arith) long nm (λ absent. gone.0)
                ∙ rw (fl, gone.0, gone.1) (ground arith),
          )
