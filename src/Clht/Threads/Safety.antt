-- ===== src/Clht/Threads/Safety.antt =====
-- Mutual exclusion and unique keys in every state that the threads of one bin reach.
use epli.Prelude.{
  ℕ, ◌≡◌, ◌≢◌, refl, subst, arith, List, true, false, Bool-cases, inl, inr, ==→eq, ◌==◌, store,
  store_same, store_other, sym, ◌∙◌,
}
use epli.Entry.{Kv}
use epli.Clht.{Bucket}
use epli.Clht.Threads.{
  lock_free, Bin, Pc, lock_acq, lock_acq_resize, move, Starts, get, put, update, remove, resize,
  System, Step, call, go, Reach, start, later,
}
use epli.Clht.Threads.State.{critical, IsFresh, HasUniqueKeys, Inv}
use epli.Clht.Threads.Moves.{IsFresh-any, move-slots, move_unique, move-IsFresh}

-- What a move does to the lock: a thread that is inside afterwards holds it, one that was outside
-- has found it free, and one that was and stays outside lets it be.
record Locks (b b' : Bin) (p p' : Pc) : Type 0 where
  inside : critical p' ≡ true → b'.lock ≢ 0
  entering : critical p ≡ false → critical p' ≡ true → b.lock ≡ 0
  outside : critical p ≡ false → b.lock ≢ 0 → b'.lock ≢ 0
  leaving : critical p ≡ true → critical p' ≡ false → b'.lock ≡ 0
  staying : critical p ≡ false → critical p' ≡ false → b'.lock ≡ b.lock

move-Locks :
    (raw : Bucket) (b : Bin) (p : Pc)
    → (critical p ≡ true → b.lock ≢ 0)
    → Locks b (move raw b p).0 p (move raw b p).1
unfolding move lock_acq lock_acq_resize
move-Locks raw b p h = record {
  inside = ground arith;
  entering = ground arith;
  outside = ground arith;
  leaving = ground arith;
  staying = ground arith;
}

Starts-outside : {p : Pc} → Starts p → critical p ≡ false
Starts-outside (get nk) = refl
Starts-outside (put nk) = refl
Starts-outside (update nk) = refl
Starts-outside (remove nk) = refl
Starts-outside resize = refl

Starts-IsFresh : {p : Pc} (s : List Kv) → Starts p → IsFresh s p
Starts-IsFresh s (get nk) = tt
Starts-IsFresh s (put nk) = nk
Starts-IsFresh s (update nk) = nk
Starts-IsFresh s (remove nk) = nk
Starts-IsFresh s resize = tt

-- Thread `i` goes on to `p'`, and the bin to `b'`.
module _ (s : System) (inv : Inv s) (i : ℕ) (b' : Bin) (p' : Pc)
    (l : Locks s.bin b' (s.pc i) p') where
  open inv use {held, owner, alone, fresh}
  open l use {inside, entering, outside, leaving, staying}

  still_held : (j : ℕ) → critical (store s.pc i p' j) ≡ true → b'.lock ≢ 0
  unfolding store
  still_held j c = elim (Bool-cases (j == i)) [
    | inl e ↦ inside (ground arith)
    | inr e ↦ ground (arith, held j, held i, alone i j)
  ]

  -- No other thread is inside when thread `i` is inside afterwards.
  shut_out : (j : ℕ) → (j == i) ≡ false → critical (s.pc j) ≡ true → critical p' ≡ true → ⊥
  shut_out j ne c c' = elim (Bool-cases (critical (s.pc i))) [
    | inl d ↦ ground (arith, alone j i c d)
    | inr d ↦ held j c (entering d c')
  ]

  still_alone :
      (j k : ℕ) → critical (store s.pc i p' j) ≡ true → critical (store s.pc i p' k) ≡ true → j ≡ k
  unfolding store
  still_alone j k cj ck = elim (Bool-cases (j == i)) [
    | inl e ↦ elim (Bool-cases (k == i)) [
      | inl d ↦ ==→eq j i e ∙ sym (==→eq k i d)
      | inr d ↦ absurd (shut_out k d (rw d at ck) (rw e at cj))
    ]
    | inr e ↦ elim (Bool-cases (k == i)) [
      | inl d ↦ absurd (shut_out j e (rw e at cj) (rw d at ck))
      | inr d ↦ alone j k (rw e at cj) (rw d at ck)
    ]
  ]

  still_fresh :
      IsFresh b'.slots p'
      → (critical (s.pc i) ≡ false → b'.slots ≡ s.bin.slots)
      → (j : ℕ) → IsFresh b'.slots (store s.pc i p' j)
  unfolding store
  still_fresh f same j = elim (Bool-cases (j == i)) [
    | inl e ↦ rw e f
    | inr e ↦ rw e (elim (Bool-cases (critical (s.pc j))) [
      | inl c ↦
          let out : critical (s.pc i) ≡ false = ground (arith, alone i j) in
          subst (λ t. IsFresh t (s.pc j)) (sym (same out)) (fresh j)
      | inr c ↦ IsFresh-any (s.pc j) s.bin.slots b'.slots c (fresh j)
    ])
  ]

  still_owner : b'.lock ≢ 0 → (j : ℕ) × (critical (store s.pc i p' j) ≡ true)
  still_owner h = elim (Bool-cases (critical p')) [
    | inl c ↦ (i, rw (store_same s.pc i p') c)
    | inr c ↦
        let out : critical (s.pc i) ≡ false = ground (arith, leaving) in
        let (j, cj) = owner (λ z. h (staying out c ∙ z)) in
        (j, rw (store_other s.pc i j p' (λ e. ground (arith, e))) cj)
  ]

  still_Inv :
      HasUniqueKeys b'.slots
      → IsFresh b'.slots p'
      → (critical (s.pc i) ≡ false → b'.slots ≡ s.bin.slots)
      → Inv (record { bin = b'; pc = store s.pc i p' })
  still_Inv u f same = record {
    unique = u;
    held = still_held;
    owner = still_owner;
    alone = still_alone;
    fresh = still_fresh f same;
  }

pub Step-Inv : {s t : System} → Step s t → Inv s → Inv t
Step-Inv {s} (call i {p} rest st) inv =
    let out = Starts-outside st in
    still_Inv s inv i s.bin p
      (record {
        inside = λ c. absurd (cc);
        entering = λ c d. absurd (cc);
        outside = λ c h. h;
        leaving = λ c d. absurd (ground arith);
        staying = λ c d. refl;
      })
      inv.unique (Starts-IsFresh s.bin.slots st) (λ c. refl)
Step-Inv {s} (go i raw full) inv =
    let b = s.bin in
    let p = s.pc i in
    still_Inv s inv i (move raw b p).0 (move raw b p).1 (move-Locks raw b p (inv.held i))
      (move_unique raw full b p (inv.fresh i) inv.unique) (move-IsFresh raw full b p (inv.fresh i))
      (move-slots raw b p)

pub Reach-Inv : {slots : List Kv} {s : System} → HasUniqueKeys slots → Reach slots s → Inv s
Reach-Inv u start = record {
  unique = u;
  held = λ i c. absurd (cc);
  owner = λ h. absurd (h refl);
  alone = λ i j c d. absurd (cc);
  fresh = λ i. tt;
}
Reach-Inv u (later r st) = Step-Inv st (Reach-Inv u r)

-- In every state that the threads reach from a bin with unique keys, two threads inside `LOCK_ACQ`
-- and `LOCK_RLS` are the same one, and the lock is taken just when some thread is inside.
pub Reach-alone :
    {slots : List Kv} {s : System}
    → HasUniqueKeys slots
    → Reach slots s
    → ((i j : ℕ) → critical (s.pc i) ≡ true → critical (s.pc j) ≡ true → i ≡ j)
      × ((s.bin.lock ≢ lock_free → (i : ℕ) × (critical (s.pc i) ≡ true))
          × ((i : ℕ) → critical (s.pc i) ≡ true → s.bin.lock ≢ lock_free))
Reach-alone u r = let inv = Reach-Inv u r in (inv.alone, (inv.owner, inv.held))

-- In every state that the threads reach from a bin with unique keys, a valid key stands in one
-- slot of the chain at most, in the middle of a put or a removal too.
pub Reach-unique :
    {slots : List Kv} {s : System} → HasUniqueKeys slots → Reach slots s → HasUniqueKeys s.bin.slots
Reach-unique u r = (Reach-Inv u r).unique
