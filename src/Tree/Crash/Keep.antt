-- ===== src/Tree/Crash/Keep.antt =====
-- What the list of entries holds after a stop in the middle of `splitEntry`.
use epli.Prelude.{
  ℕ, suc, ◌-◌, ◌≤◌, ◌<◌, ◌≡◌, ◌≢◌, refl, arith, List, none, ◌∙◌, sym, subst, ◌==◌, ltb,
  if◌then◌else◌, or_else, length, store, Bool-cases, ==→eq, inl, inr, ap,
}
use epli.Entry.{Entry, Kv, zeroed, sort_kvs, copy_kvs, new_entry_from, set_flag}
use epli.Entry.Slots.{lookup, count}
use epli.Entry.Methods.{IsValid}
use epli.Index.{Index, floor_addr}
use epli.Tree.{Tree, pivot_key, modify}
use epli.Tree.Chain.{NotAmong, floor-IsValid, floor-NotAmong}
use epli.Tree.Split.{right_half, halves-Cuts}
use epli.Tree.State.{
  scan_list, IsTree, contents, contents-view, contents-lookup, NotAmong_of_placed,
}
use epli.Tree.Insert.{target, fresh, fresh_facts}
use epli.Tree.Crash.{split_until}
use epli.Tree.Crash.Links.{AgreeBut, scan_list-apart, scan_list-linked}

module _ (h : ℕ → Entry) (a n : ℕ) (ne : n ≢ a) where
  until_others : (s : ℕ) → AgreeBut a n h (split_until h a n s)
  unfolding split_until modify store
  until_others s b na nn = ground arith

  -- Before the new entry is linked, the old one is as it was but for its flag,
  until_early :
      (s : ℕ)
      → s < 4
      → ((split_until h a n s a).kvs ≡ (h a).kvs) × ((split_until h a n s a).next ≡ (h a).next)
  unfolding split_until modify store set_flag
  until_early s lt = ground arith

  until_linked :
      (s : ℕ)
      → 4 ≤ s
      → ((split_until h a n s a).next ≡ n)
        × ((split_until h a n s n).next ≡ (h a).next)
        × ((split_until h a n s n).kvs ≡ (right_half (h a)).kvs)
  unfolding split_until modify store set_flag right_half new_entry_from
  until_linked s le = ground arith

  until_whole : (split_until h a n 4 a).kvs ≡ (h a).kvs
  unfolding split_until modify store set_flag
  until_whole = ground arith

  pub until_stored :
      (s : ℕ) → 5 ≤ s → (split_until h a n s a).kvs ≡ copy_kvs zeroed (sort_kvs (h a).kvs) (s - 5)
  unfolding split_until modify store set_flag
  until_stored s le = ground arith

module _ (ix : Index) where
  open ix use {Carrier}

  module _ {t : Tree Carrier} {lo : ℕ} (v : IsTree ix t lo) (k : ℕ) where
    abbrev pub entry : ℕ
    entry = target ix v k

    abbrev pub new : ℕ
    new = fresh ix v k

    pub apart : (new ≢ t.head) × (NotAmong new v.later) × (new ≢ entry) × (new ≢ 0)
    apart =
        let f = fresh_facts ix v k in
        let nh : new ≢ t.head = omega (arith, f.0, v.placed_head.0) in
        let nc = NotAmong_of_placed t.nvm.current_addr new v.later f.0 v.placed in
        (
          nh,
          nc,
          floor-NotAmong t.heap new t.head v.later k nh nc,
          omega (arith, f.0, v.placed_head.0),
        )

    early_view :
        (stage fuel j : ℕ)
        → stage < 4
        → length v.later < fuel
        → scan_list fuel (split_until t.heap entry new stage) t.head j ≡ contents ix t j
    early_view stage fuel j le lt =
        let (nh, nc, ne, nz) = apart in
        let agree : AgreeBut new new t.heap (split_until t.heap entry new stage) = λ b nb nb'.
          elim (Bool-cases (b == entry)) [
            | inl e ↦ rw (==→eq b entry e) (until_early t.heap entry new ne stage le)
            | inr e ↦ until_others t.heap entry new ne stage b (ground (arith, e)) nb
          ] in
        scan_list-apart new new j t.heap _ agree fuel lo t.head v.later lt v.chain v.placed_head.2
          (λ e. nh (sym e)) (λ e. nh (sym e)) nc nc
        ∙ sym (contents-view ix v j)

    module _ (full : count 0 (t.heap entry).kvs ≡ 0) where
      pub valid : IsValid (t.heap entry)
      valid = floor-IsValid t.heap lo t.head v.later k v.chain

      pub new_pairs :
          (stage j : ℕ)
          → 4 ≤ stage
          → j ≢ 0
          → lookup (split_until t.heap entry new stage new).kvs j
            ≡ (if ltb j (pivot_key (t.heap entry)) then none else lookup (t.heap entry).kvs j)
      new_pairs stage j le nj =
          let (nh, nc, ne, nz) = apart in
          ap (λ (s : List Kv). lookup s j) (until_linked t.heap entry new ne stage le).2
          ∙ (halves-Cuts (t.heap entry) valid full new).right j nj

      pub linked_view :
          (stage fuel j : ℕ)
          → 4 ≤ stage
          → suc (length v.later) < fuel
          → j ≢ 0
          → (lookup (t.heap entry).kvs j ≡ none
              → lookup (split_until t.heap entry new stage entry).kvs j ≡ none)
          → scan_list fuel (split_until t.heap entry new stage) t.head j ≡ (
              if floor_addr t.head v.later j == entry
              then or_else
                  (lookup (split_until t.heap entry new stage entry).kvs j)
                  (lookup (split_until t.heap entry new stage new).kvs j)
              else contents ix t j)
      linked_view stage fuel j le lt nj less =
          let (nh, nc, ne, nz) = apart in
          let l = until_linked t.heap entry new ne stage le in
          rw (contents-view ix v j) (
            scan_list-linked entry new j t.heap _ (until_others t.heap entry new ne stage) l.0 l.1
              nz fuel lo t.head v.later k lt v.chain v.placed_head.2 refl (λ e. nh (sym e)) nc nj
              (λ absent. ground (arith, absent, less absent, new_pairs stage j le nj)))

      four_view :
          (fuel j : ℕ)
          → suc (length v.later) < fuel
          → j ≢ 0
          → scan_list fuel (split_until t.heap entry new 4) t.head j ≡ contents ix t j
      four_view fuel j lt nj =
          let (nh, nc, ne, nz) = apart in
          let w = ap (λ (s : List Kv). lookup s j) (until_whole t.heap entry new ne) in
          linked_view 4 fuel j (omega arith) lt nj (λ absent. w ∙ absent)
          ∙ elim (Bool-cases (floor_addr t.head v.later j == entry)) [
            | inl e ↦
                let c : contents ix t j ≡ lookup (t.heap entry).kvs j =
                  contents-lookup ix v j nj
                  ∙ ap (λ (b : ℕ). lookup (t.heap b).kvs j) (==→eq _ entry e) in
                rw (e, w, new_pairs 4 j (omega arith) nj, c) (ground arith)
            | inr e ↦ rw e refl
          ]

      -- A split of a full entry in a tree that satisfies the invariant may stop after any of its first
      -- four stores, the last of which links the new entry: the list from the head, read through, holds
      -- what the tree held.
      pub split_until-contents :
          (stage fuel j : ℕ)
          → stage ≤ 4
          → suc (length v.later) < fuel
          → j ≢ 0
          → scan_list fuel (split_until t.heap entry new stage) t.head j ≡ contents ix t j
      split_until-contents stage fuel j le lt nj = elim (Bool-cases (stage == 4)) [
        | inr e ↦ early_view stage fuel j (ground (arith, e)) (omega (arith, lt))
        | inl e ↦
            subst (λ s. scan_list fuel (split_until t.heap entry new s) t.head j ≡ contents ix t j)
              (sym (==→eq stage 4 e)) (four_view fuel j lt nj)
      ]
