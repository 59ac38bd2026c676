-- ===== src/Tree/Cut.antt =====
-- An entry of the chain is cut in two at a key: the upper half moves to a new entry behind it.
use epli.Prelude.{
  ℕ, ◌<◌, ◌≡◌, ◌≢◌, refl, arith, [], ◌∷◌, none, true, false, ◌∙◌, sym, leb, ltb, if◌then◌else◌,
  store, store_same, store_other, Bool-cases, inl, inr,
}
use epli.Entry.{Entry}
use epli.Entry.Slots.{lookup}
use epli.Entry.Methods.{IsValid}
use epli.Index.{Pairs, floor_addr, insert_key}
use epli.Tree.Chain.{Above, NotAmong, IsChain, view, frame-IsChain, frame-view, floor-NotAmong}

-- `x` keeps the keys of `e` below `m` and leads to `n`; `y`, at `n`, takes the others.
pub record Cuts (e : Entry) (n m : ℕ) (x y : Entry) : Type 0 where
  pub left_valid : IsValid x
  pub right_valid : IsValid y
  pub left_next : x.next ≡ n
  pub right_next : y.next ≡ e.next
  pub left : (j : ℕ) → j ≢ 0 → lookup x.kvs j ≡ (if ltb j m then lookup e.kvs j else none)
  pub right : (j : ℕ) → j ≢ 0 → lookup y.kvs j ≡ (if ltb j m then none else lookup e.kvs j)
  pub pivot : lookup e.kvs m ≢ none
  pub pivot_pos : 0 < m
  pub low : ℕ
  pub low_pos : low ≢ 0
  pub low_lt : low < m
  pub low_present : lookup e.kvs low ≢ none

NotAmong-insert_key : (a m n : ℕ) (c : Pairs) → a ≢ n → NotAmong a c → NotAmong a (insert_key m n c)
NotAmong-insert_key a m n [] e h = (e, tt)
NotAmong-insert_key a m n ((k, b) ∷ c) e h = elim (Bool-cases (ltb m k)) [
  | inl p ↦ rw p (e, h)
  | inr p ↦ rw p (h.0, NotAmong-insert_key a m n c e h.1)
]

pub floor-Above :
    (h : ℕ → Entry) (lo a : ℕ) (c : Pairs) (key : ℕ)
    → IsChain h lo a c
    → Above lo (h (floor_addr a c key))
floor-Above h lo a [] key g = g.1
floor-Above h lo a ((k, b) ∷ c) key g = elim (Bool-cases (leb k key)) [
  | inl e ↦ rw e (λ j nz lt. floor-Above h k b c key g.7 j nz (omega (arith, g.3)))
  | inr e ↦ rw e g.1
]

-- A key that the entry under another key holds has that entry itself.
pub floor_same :
    (h : ℕ → Entry) (lo a : ℕ) (c : Pairs) (k m : ℕ)
    → IsChain h lo a c
    → m ≢ 0
    → lookup (h (floor_addr a c k)).kvs m ≢ none
    → floor_addr a c m ≡ floor_addr a c k
floor_same h lo a [] k m g nz held = refl
floor_same h lo a ((x, b) ∷ c) k m g nz held = elim (Bool-cases (leb x k)) [
  | inl e ↦
      let held' = rw e at held in
      elim (Bool-cases (leb x m)) [
        | inl p ↦ rw (e, p) (floor_same h x b c k m g.7 nz held')
        | inr p ↦ absurd (held' (floor-Above h x b c k g.7 m nz (ground arith)))
      ]
  | inr e ↦
      let held' = rw e at held in
      elim (Bool-cases (leb x m)) [
        | inl p ↦ absurd (held' (g.4 m (ground arith)))
        | inr p ↦ rw (e, p) refl
      ]
]

-- The chain after the cut, and that it holds the same.
abbrev pub Keeps : (ℕ → Entry) → (lo a : ℕ) → Pairs → (ℕ → Entry) → Pairs → Type 0
Keeps h lo a c h' c' = IsChain h' lo a c' × ((j : ℕ) → j ≢ 0 → view h' a c' j ≡ view h a c j)

module _ (h : ℕ → Entry) (n m : ℕ) (x y : Entry) (nn : n ≢ 0) where
  abbrev cut_heap : ℕ → ℕ → Entry
  cut_heap d = store (store h n y) d x

  -- The pivot lies above every bound that lies below all the keys.
  pivot-gt : (lo : ℕ) (e : Entry) → Cuts e n m x y → Above lo e → lo < m
  pivot-gt lo e u ab = elim (Bool-cases (ltb u.low lo)) [
    | inl p ↦ absurd (u.low_present (ab u.low u.low_pos (ground arith)))
    | inr p ↦ ground (arith, u.low_lt)
  ]

  cut_last :
      (lo a : ℕ)
      → IsChain h lo a []
      → n ≢ a
      → Cuts (h a) n m x y
      → Keeps h lo a [] (cut_heap a) ((m, n) ∷ [])
  cut_last lo a g na u =
      rw (store_same (store h n y) a x, store_other (store h n y) a n x na, store_same h n y)
        (
          (
            u.left_valid,
            λ j nj lt. ground (arith, u.left j nj, g.1 j nj lt),
            u.left_next,
            pivot-gt lo (h a) u g.1,
            λ j le. ground (arith, u.left j (omega (arith, u.pivot_pos))),
            (λ e. na (sym e), tt),
            nn,
            (u.right_valid, λ j nj lt. ground (arith, u.right j nj), u.right_next ∙ g.2),
          ),
          λ j nj. ground (arith, u.left j nj, u.right j nj),
        )

  cut_here :
      (lo a k b : ℕ) (c : Pairs)
      → IsChain h lo a ((k, b) ∷ c)
      → n ≢ a
      → NotAmong n ((k, b) ∷ c)
      → Cuts (h a) n m x y
      → Keeps h lo a ((k, b) ∷ c) (cut_heap a) ((m, n) ∷ (k, b) ∷ c)
  cut_here lo a k b c g na nc u =
      let below : m < k = elim (Bool-cases (ltb m k)) [
        | inl p ↦ ground arith
        | inr p ↦ absurd (u.pivot (g.4 m (ground arith)))
      ] in
      rw (store_same (store h n y) a x, store_other (store h n y) a n x na, store_same h n y)
        (
          (
            u.left_valid,
            λ j nj lt. ground (arith, u.left j nj, g.1 j nj lt),
            u.left_next,
            pivot-gt lo (h a) u g.1,
            λ j le. ground (arith, u.left j (omega (arith, u.pivot_pos))),
            (λ e. na (sym e), g.5),
            nn,
            (
              u.right_valid,
              λ j nj lt. ground (arith, u.right j nj),
              u.right_next ∙ g.2,
              below,
              λ j le. ground (arith, u.right j (omega arith), g.4 j le),
              nc,
              g.6,
              frame-IsChain (store h n y) k b c a x (frame-IsChain h k b c n y g.7 nc.0 nc.1) g.5.0
                  g.5.1,
            ),
          ),
          λ j nj.
              rw (frame-view (store h n y) b c a x j g.5.0 g.5.1, frame-view h b c n y j nc.0 nc.1)
                (ground (arith, u.left j nj, u.right j nj)),
        )

  cut_later :
      (lo a k b d : ℕ) (c c' : Pairs)
      → IsChain h lo a ((k, b) ∷ c)
      → n ≢ a
      → a ≢ d
      → NotAmong a c'
      → Keeps h k b c (cut_heap d) c'
      → Keeps h lo a ((k, b) ∷ c) (cut_heap d) ((k, b) ∷ c')
  cut_later lo a k b d c c' g na ad ac t =
      rw (store_other (store h n y) d a x ad, store_other h n a y (λ e. na (sym e)))
        ((g.0, g.1, g.2, g.3, g.4, (g.5.0, ac), g.6, t.0), λ j nj. rw (t.1 j nj))

  -- Cutting the entry that the index names for `key`, at an address that is not in use.
  pub cut-Keeps :
      (lo a : ℕ) (c : Pairs) (key : ℕ)
      → IsChain h lo a c
      → n ≢ a
      → NotAmong n c
      → Cuts (h (floor_addr a c key)) n m x y
      → Keeps h lo a c (cut_heap (floor_addr a c key)) (insert_key m n c)
  cut-Keeps lo a [] key g na nc u = cut_last lo a g na u
  cut-Keeps lo a ((k, b) ∷ c) key g na nc u = elim (Bool-cases (leb k key)) [
    | inl e ↦
        let u' = rw e at u in
        let later : ltb m k ≡ false =
          ground (arith, pivot-gt k _ u' (floor-Above h k b c key g.7)) in
        rw (e, later)
          (cut_later lo a k b (floor_addr b c key) c (insert_key m n c) g na
            (floor-NotAmong h a b c key g.5.0 g.5.1)
            (NotAmong-insert_key a m n c (λ q. na (sym q)) g.5.1)
            (cut-Keeps k b c key g.7 nc.0 nc.1 u'))
    | inr e ↦
        let u' = rw e at u in
        let r = cut_here lo a k b c g na nc u' in
        let first : ltb m k ≡ true = ground (arith, r.0.7.3) in rw (e, first) r
  ]
