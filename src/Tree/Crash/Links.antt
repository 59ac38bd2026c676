-- ===== src/Tree/Crash/Links.antt =====
-- The list of entries while `splitEntry` changes one of them and links a new one behind it.
use epli.Prelude.{
  ℕ, zero, suc, ◌<◌, ◌≡◌, ◌≢◌, refl, arith, [], ◌∷◌, Option, none, ◌∙◌, sym, subst, ◌==◌, leb,
  if◌then◌else◌, or_else, length, Bool-cases, inl, inr,
}
use epli.Entry.{Entry}
use epli.Entry.Slots.{lookup}
use epli.Index.{Pairs, floor_addr}
use epli.Tree.Chain.{NotAmong, IsChain, view, view_below, floor-NotAmong}
use epli.Tree.Cut.{floor-Above}
use epli.Tree.State.{scan_list}

-- The entries but those at `d` and `n` keep their pairs and their successors.
abbrev pub AgreeBut : (d n : ℕ) (h h' : ℕ → Entry) → Type 0
AgreeBut d n h h' = (b : ℕ) → b ≢ d → b ≢ n → ((h' b).kvs ≡ (h b).kvs) × ((h' b).next ≡ (h b).next)

scan_list-nil : (h : ℕ → Entry) (fuel j : ℕ) → scan_list fuel h 0 j ≡ none
unfolding scan_list
scan_list-nil h zero j = refl
scan_list-nil h (suc fuel) j = refl

module _ (d n j : ℕ) (h h' : ℕ → Entry) (agree : AgreeBut d n h h') where
  -- A part of the list without the two.
  pub scan_list-apart :
      (fuel lo a : ℕ) (c : Pairs)
      → length c < fuel
      → IsChain h lo a c
      → a ≢ 0
      → a ≢ d
      → a ≢ n
      → NotAmong d c
      → NotAmong n c
      → scan_list fuel h' a j ≡ view h a c j
  unfolding scan_list
  scan_list-apart zero lo a c lt g nz nd nn md mn = absurd (omega arith)
  scan_list-apart (suc zero) lo a [] lt g nz nd nn md mn = rw ((agree a nd nn).0) (ground arith)
  scan_list-apart (suc (suc fuel)) lo a [] lt g nz nd nn md mn =
      rw ((agree a nd nn).0, (agree a nd nn).1, g.2) (ground arith)
  scan_list-apart (suc fuel) lo a ((k, b) ∷ c) lt g nz nd nn md mn =
      let same = agree a nd nn in
      rw
        (
          same.0,
          same.1,
          g.2,
          scan_list-apart fuel k b c (omega arith) g.7 g.6 (λ e. md.0 (sym e)) (λ e. mn.0 (sym e))
              md.1 mn.1,
        )
        (ground arith)

  module _ (linked : (h' d).next ≡ n) (follows : (h' n).next ≡ (h d).next) (n_pos : n ≢ 0) where
    abbrev val : Option ℕ
    val = or_else (lookup (h' d).kvs j) (lookup (h' n).kvs j)

    scan_two :
        (fuel : ℕ)
        → d ≢ 0
        → scan_list (suc (suc fuel)) h' d j
          ≡ or_else
              (lookup (h' d).kvs j)
              (or_else (lookup (h' n).kvs j) (scan_list fuel h' (h d).next j))
    unfolding scan_list
    scan_two fuel nz = rw (linked, follows) (ground arith)

    -- The changed entry is the last one,
    linked_last :
        (fuel lo : ℕ)
        → IsChain h lo d []
        → d ≢ 0
        → scan_list (suc (suc fuel)) h' d j
          ≡ (if floor_addr d [] j == d then val else view h d [] j)
    linked_last fuel lo g nz = scan_two fuel nz ∙ rw (g.2, scan_list-nil h' fuel j) (ground arith)

    -- or another one follows it.
    linked_here :
        (fuel lo k b : ℕ) (c : Pairs)
        → length c < fuel
        → IsChain h lo d ((k, b) ∷ c)
        → d ≢ 0
        → NotAmong n ((k, b) ∷ c)
        → j ≢ 0
        → (lookup (h d).kvs j ≡ none → val ≡ none)
        → scan_list (suc (suc fuel)) h' d j
          ≡ (if floor_addr d ((k, b) ∷ c) j == d then val else view h d ((k, b) ∷ c) j)
    linked_here fuel lo k b c lt g nz mn nj less =
        let rest =
          scan_list-apart fuel k b c lt g.7 g.6 (λ e. g.5.0 (sym e)) (λ e. mn.0 (sym e)) g.5.1
            mn.1 in
        let apart = floor-NotAmong h d b c j g.5.0 g.5.1 in
        scan_two fuel nz
        ∙ rw (g.2, rest)
            (elim (Bool-cases (leb k j)) [
              | inl e ↦ ground (arith, apart, less, g.4 j)
              | inr e ↦ ground (arith, view_below h k b c j g.7 nj)
            ])

    -- The changed entry stands behind `a`.
    linked_later :
        (fuel lo a k b : ℕ) (c : Pairs)
        → IsChain h lo a ((k, b) ∷ c)
        → a ≢ 0
        → a ≢ d
        → ((h' a).kvs ≡ (h a).kvs) × ((h' a).next ≡ (h a).next)
        → j ≢ 0
        → (lookup (h d).kvs j ≡ none → val ≡ none)
        → (j < k → lookup (h d).kvs j ≡ none)
        → scan_list fuel h' b j ≡ (if floor_addr b c j == d then val else view h b c j)
        → scan_list (suc fuel) h' a j
          ≡ (if floor_addr a ((k, b) ∷ c) j == d then val else view h a ((k, b) ∷ c) j)
    unfolding scan_list
    linked_later fuel lo a k b c g nz ne same nj less above rest =
        rw (same.0, same.1, g.2, rest)
          (elim (Bool-cases (leb k j)) [
            | inl e ↦ ground (arith, g.4 j)
            | inr e ↦ ground (arith, view_below h k b c j g.7 nj)
          ])

    -- The entry of the key `key` stands at `d`, and `n` is linked behind it; the two hold nothing that the
    -- entry did not hold.
    pub scan_list-linked :
        (fuel lo a : ℕ) (c : Pairs) (key : ℕ)
        → suc (length c) < fuel
        → IsChain h lo a c
        → a ≢ 0
        → floor_addr a c key ≡ d
        → a ≢ n
        → NotAmong n c
        → j ≢ 0
        → (lookup (h d).kvs j ≡ none → val ≡ none)
        → scan_list fuel h' a j ≡ (if floor_addr a c j == d then val else view h a c j)
    unfolding scan_list
    scan_list-linked zero lo a c key lt g nz at nn mn nj less = absurd (omega arith)
    scan_list-linked (suc zero) lo a c key lt g nz at nn mn nj less = absurd (omega arith)
    scan_list-linked (suc (suc fuel)) lo a [] key lt g nz at nn mn nj less =
        subst (λ x. scan_list (suc (suc fuel)) h' x j ≡ (if x == d then val else view h x [] j))
          (sym at) (linked_last fuel lo (subst (λ x. IsChain h lo x []) at g) (λ e. nz (at ∙ e)))
    scan_list-linked (suc (suc fuel)) lo a ((k, b) ∷ c) key lt g nz at nn mn nj less =
        elim (Bool-cases (leb k key)) [
          | inl e ↦
              let at' : floor_addr b c key ≡ d = rw e at at in
              let ne : a ≢ d = λ q. floor-NotAmong h a b c key g.5.0 g.5.1 (q ∙ sym at') in
              let same = agree a ne nn in
              let rest =
                scan_list-linked (suc fuel) k b c key (omega arith) g.7 g.6 at' (λ q. mn.0 (sym q))
                  mn.1 nj less in
              let above : j < k → lookup (h d).kvs j ≡ none = λ l.
                subst (λ x. lookup (h x).kvs j ≡ none) at' (floor-Above h k b c key g.7 j nj l) in
              linked_later (suc fuel) lo a k b c g nz ne same nj less above rest
          | inr e ↦
              let q : a ≡ d = rw e at at in
              subst
                (λ x.
                  scan_list (suc (suc fuel)) h' x j
                  ≡ (if floor_addr x ((k, b) ∷ c) j == d then val else view h x ((k, b) ∷ c) j))
                (sym q)
                (linked_here fuel lo k b c (omega arith)
                  (subst (λ x. IsChain h lo x ((k, b) ∷ c)) q g) (λ z. nz (q ∙ z)) mn nj less)
        ]
