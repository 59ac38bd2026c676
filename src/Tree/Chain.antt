-- ===== src/Tree/Chain.antt =====
-- The data list under the index: entries linked by `next`, with keys cut by the index keys.
-- `a` is the current entry, `lo` a bound from below on its keys, `c` the pairs of the later ones.
use epli.Prelude.{
  ℕ, ◌≤◌, ◌<◌, ◌≡◌, ◌≢◌, refl, arith, [], ◌∷◌, Option, none, ◌∙◌, sym, ◌==◌, leb, if◌then◌else◌,
  or_else, store, store_same, store_other, Bool-cases, ==→eq, ap, subst, inl, inr,
}
use epli.Entry.{Entry}
use epli.Entry.Slots.{lookup}
use epli.Entry.Methods.{IsValid, Writes}
use epli.Index.{Pairs, floor_addr}

abbrev pub Above : ℕ → Entry → Type 0
Above lo e = (j : ℕ) → j ≢ 0 → j < lo → lookup e.kvs j ≡ none

abbrev pub Below : ℕ → Entry → Type 0
Below hi e = (j : ℕ) → hi ≤ j → lookup e.kvs j ≡ none

abbrev pub NotAmong : ℕ → Pairs → Type 0
NotAmong b [] = Unit {0}
NotAmong b ((k, a) ∷ c) = (b ≢ a) × NotAmong b c

abbrev pub IsChain : (ℕ → Entry) → (lo a : ℕ) → Pairs → Type 0
IsChain h lo a [] = IsValid (h a) × Above lo (h a) × ((h a).next ≡ 0)
IsChain h lo a ((k, b) ∷ c) =
    IsValid (h a)
    × Above lo (h a)
    × ((h a).next ≡ b)
    × (lo < k)
    × Below k (h a)
    × NotAmong a ((k, b) ∷ c)
    × (b ≢ 0)
    × IsChain h k b c

-- What the data list holds under a key: the entries are searched one after another.
abbrev pub view : (ℕ → Entry) → (a : ℕ) → Pairs → ℕ → Option ℕ
view h a [] j = lookup (h a).kvs j
view h a ((k, b) ∷ c) j = or_else (lookup (h a).kvs j) (view h b c j)

module _ (h : ℕ → Entry) where
  pub view_below :
      (lo a : ℕ) (c : Pairs) (j : ℕ) → IsChain h lo a c → j ≢ 0 → j < lo → view h a c j ≡ none
  view_below lo a [] j g nz lt = g.1 j nz lt
  view_below lo a ((k, b) ∷ c) j g nz lt =
      rw (g.1 j nz lt) (view_below k b c j g.7 nz (omega (arith, g.3)))

  -- The entry that the index names is the one that holds the key, if any does.
  pub view-floor :
      (lo a : ℕ) (c : Pairs) (j : ℕ)
      → IsChain h lo a c
      → j ≢ 0
      → view h a c j ≡ lookup (h (floor_addr a c j)).kvs j
  view-floor lo a [] j g nz = refl
  view-floor lo a ((k, b) ∷ c) j g nz = elim (Bool-cases (leb k j)) [
    | inl e ↦ rw (e, g.4 j (ground arith)) (view-floor k b c j g.7 nz)
    | inr e ↦ rw (e, view_below k b c j g.7 nz (ground arith)) (ground arith)
  ]

  pub floor-IsValid :
      (lo a : ℕ) (c : Pairs) (j : ℕ) → IsChain h lo a c → IsValid (h (floor_addr a c j))
  floor-IsValid lo a [] j g = g.0
  floor-IsValid lo a ((k, b) ∷ c) j g = elim (Bool-cases (leb k j)) [
    | inl e ↦ rw e (floor-IsValid k b c j g.7)
    | inr e ↦ rw e g.0
  ]

  -- An entry outside of the chain may change.
  pub frame-IsChain :
      (lo a : ℕ) (c : Pairs) (b : ℕ) (x : Entry)
      → IsChain h lo a c
      → b ≢ a
      → NotAmong b c
      → IsChain (store h b x) lo a c
  frame-IsChain lo a [] b x g n m = rw (store_other h b a x (λ e. n (sym e))) g
  frame-IsChain lo a ((k, d) ∷ c) b x g n m =
      rw (store_other h b a x (λ e. n (sym e)))
        (g.0, g.1, g.2, g.3, g.4, g.5, g.6, frame-IsChain k d c b x g.7 m.0 m.1)

  pub frame-view :
      (a : ℕ) (c : Pairs) (b : ℕ) (x : Entry) (j : ℕ)
      → b ≢ a
      → NotAmong b c
      → view (store h b x) a c j ≡ view h a c j
  frame-view a [] b x j n m = rw (store_other h b a x (λ e. n (sym e)))
  frame-view a ((k, d) ∷ c) b x j n m =
      rw (store_other h b a x (λ e. n (sym e)), frame-view d c b x j m.0 m.1)

  pub floor-NotAmong : (a b : ℕ) (c : Pairs) (j : ℕ) → a ≢ b → NotAmong a c → a ≢ floor_addr b c j
  floor-NotAmong a b [] j n m = n
  floor-NotAmong a b ((k, d) ∷ c) j n m = elim (Bool-cases (leb k j)) [
    | inl e ↦ rw e (floor-NotAmong a d c j m.0 m.1)
    | inr e ↦ rw e n
  ]

  write_head :
      (lo a : ℕ) (c : Pairs) (k b key : ℕ) (o : Option ℕ) (x : Entry)
      → IsChain h lo a ((k, b) ∷ c)
      → lo ≤ key
      → key < k
      → Writes (h a) key o x
      → IsChain (store h a x) lo a ((k, b) ∷ c)
  write_head lo a c k b key o x g le lt w = rw (store_same h a x) (
    w.valid,
    λ j nj l. ground (arith, w.reads j nj, g.1 j nj l),
    w.next ∙ g.2,
    g.3,
    λ j l. ground (arith, w.reads j (omega (arith, g.3)), g.4 j l),
    g.5,
    g.6,
    frame-IsChain k b c a x g.7 g.5.0 g.5.1,
  )

  write_tail :
      (lo a : ℕ) (c : Pairs) (k b d : ℕ) (x : Entry)
      → IsChain h lo a ((k, b) ∷ c)
      → a ≢ d
      → IsChain (store h d x) k b c
      → IsChain (store h d x) lo a ((k, b) ∷ c)
  write_tail lo a c k b d x g n t =
      rw (store_other h d a x n) (g.0, g.1, g.2, g.3, g.4, g.5, g.6, t)

  -- A write to the entry that the index names for a key, at that key, keeps the chain.
  pub write-IsChain :
      (lo a : ℕ) (c : Pairs) (key : ℕ) (o : Option ℕ) (x : Entry)
      → IsChain h lo a c
      → lo ≤ key
      → key ≢ 0
      → Writes (h (floor_addr a c key)) key o x
      → IsChain (store h (floor_addr a c key) x) lo a c
  write-IsChain lo a [] key o x g le nz w =
      rw (store_same h a x)
        (w.valid, λ j nj lt. ground (arith, w.reads j nj, g.1 j nj lt), w.next ∙ g.2)
  write-IsChain lo a ((k, b) ∷ c) key o x g le nz w = elim (Bool-cases (leb k key)) [
    | inl e ↦
        let w' = rw e at w in
        subst (λ d. IsChain (store h d x) lo a ((k, b) ∷ c)) (rw e)
          (write_tail lo a c k b (floor_addr b c key) x g (floor-NotAmong a b c key g.5.0 g.5.1)
            (write-IsChain k b c key o x g.7 (ground arith) nz w'))
    | inr e ↦
        let w' = rw e at w in
        subst (λ d. IsChain (store h d x) lo a ((k, b) ∷ c)) (rw e)
          (write_head lo a c k b key o x g le (ground arith) w')
  ]

-- The list then holds `o` under the key, and what it held before under the others.
pub write-view :
    (h : ℕ → Entry) (lo a : ℕ) (c : Pairs) (key : ℕ) (o : Option ℕ) (x : Entry) (j : ℕ)
    → IsChain h lo a c
    → lo ≤ key
    → key ≢ 0
    → Writes (h (floor_addr a c key)) key o x
    → j ≢ 0
    → view (store h (floor_addr a c key) x) a c j ≡ (if j == key then o else view h a c j)
write-view h lo a c key o x j g le nz w nj =
    let d = floor_addr a c key in
    let g' = write-IsChain h lo a c key o x g le nz w in
    rw (view-floor h lo a c j g nj) (
      view-floor (store h d x) lo a c j g' nj ∙ elim (Bool-cases (floor_addr a c j == d)) [
        | inl e ↦ rw (==→eq _ _ e, store_same h d x) (w.reads j nj)
        | inr e ↦
            rw (store_other h d (floor_addr a c j) x (ground arith)) (elim (Bool-cases (j == key)) [
              | inl q ↦ absurd (ground (arith, ap (floor_addr a c) (==→eq j key q)))
              | inr q ↦ rw q
            ])
      ])
