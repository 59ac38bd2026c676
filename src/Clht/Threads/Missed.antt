-- ===== src/Clht/Threads/Missed.antt =====
-- The calls of `clht_remove` that miss the key in `bucket_exists` and return without the lock.
use epli.Prelude.{
  ℕ, zero, suc, ◌≤◌, ◌≡◌, ◌≢◌, refl, sym, subst, arith, List, [], ◌∷◌, ◌++◌, none, ◌⊎◌, inl, inr,
  ◌==◌, if◌then◌else◌, length, Bool, true, false, ltb, Bool-cases, ==→eq, store, store_same,
  store_other, ◌∙◌, ap,
}
use epli.Entry.{Kv}
use epli.Entry.At.{key_at, key_at-set_key, key_at-set_val, lt_of_key, lookup-clear_at}
use epli.Entry.Slots.{lookup}
use epli.Clht.{Bucket, entries_per_bucket}
use epli.Clht.Threads.{
  Bin, Pc, rem_check, returned, put_val, put_key, put_link, upd_val, rem_key, move, new_slots,
  lock_acq, lock_acq_resize, at_rest, System, call, go, Starts, get, put, update, remove, resize,
  Reach, start, later,
}
use epli.Clht.Threads.State.{HasUniqueKeys, IsFresh}
use epli.Clht.Threads.Safety.{Reach-Inv}

-- In some state since the latest call of thread `i`, the bin did not hold the key.
abbrev pub AbsentSince : (k i : ℕ) → {slots : List Kv} {s : System} → Reach slots s → Type 0
AbsentSince k i {slots} start = lookup slots k ≡ none
AbsentSince k i (later {s} r (call j rest st)) =
    if j == i then (lookup s.bin.slots k ≡ none) else AbsentSince k i r
AbsentSince k i (later {s} r (go j raw full)) =
    AbsentSince k i r ⊎ (lookup (move raw s.bin (s.pc j)).0.slots k ≡ none)

-- A search that leaves `bucket_exists` goes to the lock, or returns 0 and has missed the key rightly.
abbrev pub IsMiss : {slots : List Kv} {s : System} → Reach slots s → (i : ℕ) → (p p' : Pc) → Type 0
IsMiss r i (rem_check k j) (returned w) = (w ≡ 0) × AbsentSince k i r
IsMiss r i p p' = Unit

-- So do all of them.
abbrev pub MissAlone : {slots : List Kv} {s : System} → Reach slots s → Type 0
MissAlone start = Unit
MissAlone (later r (call i rest st)) = MissAlone r
MissAlone (later {s} r (go i raw full)) =
    IsMiss r i (s.pc i) (move raw s.bin (s.pc i)).1 × MissAlone r

-- The key stands in a slot that the search has not passed.
abbrev Ahead : List Kv → (k j : ℕ) → Type 0
Ahead s k j = (p : ℕ) × (j ≤ p) × (key_at s p ≡ k)

lookup_slot : (s : List Kv) (k : ℕ) → (lookup s k ≡ none) ⊎ Ahead s k 0
lookup_slot [] k = inl refl
lookup_slot ((a, w) ∷ s) k = elim (Bool-cases (a == k)) [
  | inl e ↦ inr (0, omega arith, ==→eq a k e)
  | inr e ↦ elim (lookup_slot s k) [
    | inl h ↦ inl (rw e h)
    | inr (p, le, h) ↦ inr (suc p, omega arith, h)
  ]
]

key_at-append : (s r : List Kv) (p k : ℕ) → k ≢ 0 → key_at s p ≡ k → key_at (s ++ r) p ≡ k
key_at-append [] r p k nk h = absurd (nk (cc))
key_at-append ((a, w) ∷ s) r zero k nk h = h
key_at-append ((a, w) ∷ s) r (suc p) k nk h = key_at-append s r p k nk h

-- A key stays in its slot, or is gone.
module _ (raw : Bucket) (b : Bin) (k p : ℕ) (nk : k ≢ 0) (u : HasUniqueKeys b.slots)
    (h : key_at b.slots p ≡ k) where
  move-key :
      (q : Pc)
      → IsFresh b.slots q
      → (key_at (move raw b q).0.slots p ≡ k) ⊎ (lookup (move raw b q).0.slots k ≡ none)
  unfolding move lock_acq lock_acq_resize
  move-key (put_val l v i) f = inl (ground (arith, key_at-set_val b.slots i p v))
  move-key (put_key l v i) ((nl, (z, (lt, e))), x) =
      inl (ground (arith, key_at-set_key b.slots i p l lt))
  move-key (put_link l v) f = inl (key_at-append b.slots (new_slots raw l v) p k nk h)
  move-key (upd_val l v i) f = inl (ground (arith, key_at-set_val b.slots i p v))
  move-key (rem_key l i w) ((nl, at), x) = elim (Bool-cases (l == k)) [
    | inl e ↦ inr (ground (arith, e, lookup-clear_at k nk l b.slots i nl at (u l nl)))
    | inr e ↦ inl (ground (arith, e, key_at-set_key b.slots i p 0, lt_of_key b.slots i))
  ]
  move-key q f = inl (ground arith)

-- A search of `clht_remove` has not passed the key, unless the bin did not hold it meanwhile.
abbrev Tracks : {slots : List Kv} {s : System} → Reach slots s → (i : ℕ) → Pc → Type 0
Tracks {s} r i (rem_check k j) = AbsentSince k i r ⊎ Ahead s.bin.slots k j
Tracks r i p = Unit

abbrev in_check : Pc → Bool
in_check (rem_check k j) = true
in_check p = false

Tracks-outside :
    {slots : List Kv} {s : System} (r : Reach slots s) (i : ℕ) (q : Pc)
    → in_check q ≡ false
    → Tracks r i q
Tracks-outside r i (rem_check k j) h = cc
Tracks-outside r i q h = tt

move-in_check :
    (raw : Bucket) (b : Bin) (q : Pc) → in_check q ≡ false → in_check (move raw b q).1 ≡ false
unfolding move lock_acq lock_acq_resize
move-in_check raw b q h = ground arith

-- A call of another thread, and one of this thread.
Tracks-call :
    {slots : List Kv} {s : System} (r : Reach slots s) (i l : ℕ) {p : Pc}
    (rest : at_rest (s.pc l) ≡ true) (st : Starts p) (q : Pc)
    → (l == i) ≡ false
    → Tracks r i q
    → Tracks (later r (call l rest st)) i q
Tracks-call r i l rest st (rem_check k j) e (inl a) = inl (rw e a)
Tracks-call r i l rest st (rem_check k j) e (inr a) = inr a
Tracks-call r i l rest st q e f = tt

Tracks-begin :
    {slots : List Kv} {s : System} (r : Reach slots s) (i l : ℕ) {p : Pc}
    (rest : at_rest (s.pc l) ≡ true) (st : Starts p)
    → (l == i) ≡ true
    → Tracks (later r (call l rest st)) i p
Tracks-begin r i l rest (get nk) e = tt
Tracks-begin r i l rest (put nk) e = tt
Tracks-begin r i l rest (update nk) e = tt
Tracks-begin r i l rest resize e = tt
Tracks-begin {slots} {s} r i l rest (remove {k} nk) e = elim (lookup_slot s.bin.slots k) [
  | inl h ↦ inl (rw e h)
  | inr h ↦ inr h
]

module _ {slots : List Kv} {s : System} (u : HasUniqueKeys slots) (r : Reach slots s) (i l : ℕ)
    (raw : Bucket) (full : length raw.slots ≡ entries_per_bucket) where
  -- A move of another thread,
  Tracks-other :
      (q : Pc) → IsFresh s.bin.slots q → Tracks r i q → Tracks (later r (go l raw full)) i q
  Tracks-other (rem_check k j) nk (inl a) = inl (inl a)
  Tracks-other (rem_check k j) nk (inr (p, le, h)) =
      let inv = Reach-Inv u r in
      elim (move-key raw s.bin k p nk inv.unique h (s.pc l) (inv.fresh l)) [
        | inl g ↦ inr (p, le, g)
        | inr g ↦ inl (inr g)
      ]
  Tracks-other q f g = tt

  -- and one of the search itself.
  Tracks-move :
      (q : Pc)
      → l ≡ i
      → s.pc l ≡ q
      → in_check q ≡ true
      → Tracks r i q
      → Tracks (later r (go l raw full)) i (move raw s.bin q).1
  unfolding move
  Tracks-move (rem_check k j) e at c f = elim (Bool-cases (ltb j (length s.bin.slots))) [
    | inr out ↦ rw out tt
    | inl lt ↦ elim (Bool-cases (key_at s.bin.slots j == k)) [
      | inl hit ↦ rw (lt, hit) tt
      | inr miss ↦
          rw (lt, miss)
            (elim f [
              | inl a ↦ inl (inl a)
              | inr (p, le, h) ↦ inr (
                p,
                ground (arith, le, miss, λ (z : p ≡ j). subst (λ x. key_at s.bin.slots x ≡ k) z h),
                rw at h,
              )
            ])
    ]
  ]
  Tracks-move q e at c g = absurd (ground (arith, c))

  miss_lem : (q : Pc) → IsFresh s.bin.slots q → Tracks r i q → IsMiss r i q (move raw s.bin q).1
  unfolding move
  miss_lem (rem_check k j) nk f = elim (Bool-cases (ltb j (length s.bin.slots))) [
    | inr out ↦ rw out (
      refl,
      elim f [
        | inl a ↦ a
        | inr (p, le, h) ↦ absurd (ground (arith, out, le, lt_of_key s.bin.slots p, h))
      ],
    )
    | inl lt ↦ elim (Bool-cases (key_at s.bin.slots j == k)) [
      | inl hit ↦ rw (lt, hit) tt
      | inr miss ↦ rw (lt, miss) tt
    ]
  ]
  miss_lem q f g = tt

-- Every search is on its way.
Reach-Tracks :
    {slots : List Kv} {s : System}
    → HasUniqueKeys slots
    → (r : Reach slots s) → (i : ℕ) → Tracks r i (s.pc i)
Reach-Tracks u start i = tt
Reach-Tracks u (later {s} r (call l {p} rest st)) i = elim (Bool-cases (l == i)) [
  | inl e ↦
      subst (Tracks (later r (call l rest st)) i)
        (sym (store_same s.pc l p) ∙ ap (store s.pc l p) (==→eq l i e))
        (Tracks-begin r i l rest st e)
  | inr e ↦
      subst (Tracks (later r (call l rest st)) i)
        (sym (store_other s.pc l i p (λ z. ground (arith, e, z))))
        (Tracks-call r i l rest st (s.pc i) e (Reach-Tracks u r i))
]
Reach-Tracks u (later {s} r (go l raw full)) i =
    let on = Tracks (later r (go l raw full)) i in
    let moved = (move raw s.bin (s.pc l)).1 in
    elim (Bool-cases (l == i)) [
      | inr e ↦
          subst on (sym (store_other s.pc l i moved (λ z. ground (arith, e, z))))
            (Tracks-other u r i l raw full (s.pc i) ((Reach-Inv u r).fresh i) (Reach-Tracks u r i))
      | inl e ↦
          let same = ==→eq l i e in
          subst on (sym (store_same s.pc l moved) ∙ ap (store s.pc l moved) same)
            (elim (Bool-cases (in_check (s.pc l))) [
              | inr c ↦
                  Tracks-outside (later r (go l raw full)) i moved
                    (move-in_check raw s.bin (s.pc l) c)
              | inl c ↦
                  Tracks-move u r i l raw full (s.pc l) same refl c
                    (subst (λ x. Tracks r i (s.pc x)) (sym same) (Reach-Tracks u r i))
            ])
    ]

pub Reach-MissAlone :
    {slots : List Kv} {s : System} → HasUniqueKeys slots → (r : Reach slots s) → MissAlone r
Reach-MissAlone u start = tt
Reach-MissAlone u (later r (call i rest st)) = Reach-MissAlone u r
Reach-MissAlone u (later {s} r (go i raw full)) = (
  miss_lem u r i i raw full (s.pc i) ((Reach-Inv u r).fresh i) (Reach-Tracks u r i),
  Reach-MissAlone u r,
)
