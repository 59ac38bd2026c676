-- ===== src/Clht/Resizer/Whole.antt =====
-- A whole resize: each step keeps what the new table has to hold.
use epli.Prelude.{
  ℕ, suc, ◌-◌, ◌<◌, ◌≡◌, ◌≢◌, refl, sym, ap, subst, arith, List, Option, none, some, ltb, ◌==◌,
  if◌then◌else◌, length, or_else, store, store_same, store_other, Bool-cases, ==→eq, inl, inr, ◌∙◌,
  true, bit_and-le_right,
}
use epli.Entry.{Kv}
use epli.Entry.Slots.{lookup, count, lookup-eq-none}
use epli.Clht.{Bucket, entries_per_bucket}
use epli.Clht.Threads.{System, resize, cpy_lock, cpy_done, returned, at_rest, Pc, Starts}
use epli.Clht.Threads
use epli.Clht.Threads.State.{IsFresh}
use epli.Clht.Threads.Copied.{valid_pairs, lookup-valid_pairs}
use epli.Clht.Threads.Frozen.{Step-Stays}
use epli.Clht.Resizer.{
  bin_of, before, inside, Resize, place, go_on, put_pairs, Step, call, go, enter, copied, skipped,
  Run, here, on, IsFor,
}
use epli.Clht.Resizer.Keys.{IsBin, IsBin-place, IsBin-go_on}
use epli.Clht.Resizer.Phases.{
  Untouched, Untouched-place, Untouched-go_on, Untouched-Taken, Taken-place, Taken-go_on,
}
use epli.Clht.Resizer.Copy.{found_in, put_pairs-lookup, put_pairs-count}
use epli.Clht.Resizer.Content.{count-valid_pairs, Good, bin_step}

module _ (num to r : ℕ) (s : Resize) (good : Good num to r s) where
  call_step :
      (i b : ℕ) (p : Pc)
      → i ≢ r
      → at_rest ((s.old b).pc i) ≡ true
      → Starts p
      → p ≢ cpy_lock
      → IsFor num b p
      → Good num to r (record s { old = store s.old b (place (s.old b) i p) })
  call_step i b p ni rest st n f =
      let t = s.old b in
      bin_step num to r s good b (place t i p) (IsBin-place num b t i p rest st f (good.bins b))
        (Untouched-place t i p st n) (Taken-place r t i p ni st n)
        (λ c h.
          Step-Stays r c t.bin.slots (good.bins b).inv (record { done = h; same = refl })
            (Threads.call i rest st))

  go_step :
      (i b : ℕ) (raw : Bucket)
      → length raw.slots ≡ entries_per_bucket
      → Good num to r (record s { old = store s.old b (go_on (s.old b) i raw) })
  go_step i b raw full =
      let t = s.old b in
      bin_step num to r s good b (go_on t i raw) (IsBin-go_on num b t i raw full (good.bins b))
        (Untouched-go_on t i raw) (Taken-go_on r t i raw)
        (λ c h.
          Step-Stays r c t.bin.slots (good.bins b).inv (record { done = h; same = refl })
            (Threads.go i raw full))

or_else-none : (o : Option ℕ) → or_else o none ≡ o
or_else-none none = refl
or_else-none (some a) = refl

module _ (num to r b : ℕ) (old : ℕ → System) (new : ℕ → List Kv) where
  place_slots : (p : Pc) (a : ℕ) → (old a).bin.slots ≡ (store old b (place (old b) r p) a).bin.slots
  unfolding store
  place_slots p a = elim (Bool-cases (a == b)) [
    | inl e ↦ rw e (rw (==→eq a b e) refl)
    | inr e ↦ rw e refl
  ]

  enter_step :
      at_rest ((old b).pc r) ≡ true
      → Good num to r (record { old = old; new = new; pes = before b })
      → Good num to r
          (record { old = store old b (place (old b) r cpy_lock); new = new; pes = inside b })
  unfolding store
  enter_step rest good = record {
    bins = λ a. elim (Bool-cases (a == b)) [
      | inl e ↦
          rw e
            (rw (==→eq a b e) (IsBin-place num b (old b) r cpy_lock rest resize tt (good.bins b)))
      | inr e ↦ rw e (good.bins a)
    ];
    ahead = λ a le.
        rw (store_other old b a (place (old b) r cpy_lock) (λ e. omega (arith, e, le)))
          (good.ahead a (omega arith));
    taken =
        rw (store_same old b (place (old b) r cpy_lock))
          (Untouched-Taken (old b) r (good.ahead b (omega arith)));
    behind = λ a lt.
        rw (store_other old b a (place (old b) r cpy_lock) (λ e. omega (arith, e, lt)))
          (good.behind a lt);
    content = λ k nk.
        good.content k nk
        ∙ ap (λ x. if ltb (bin_of num k) b then lookup x k else none)
            (place_slots cpy_lock (bin_of num k));
    counts = λ k nk a.
        good.counts k nk a
        ∙ ap (λ x. if bin_of to k == a then (if ltb (bin_of num k) b then count k x else 0) else 0)
            (place_slots cpy_lock (bin_of num k));
  }

  copied_content :
      (raw : (ℕ → List Kv) → Bucket)
      → ((t : ℕ → List Kv) → length (raw t).slots ≡ entries_per_bucket)
      → (c : List Kv) → (old b).pc r ≡ cpy_done c
      → Good num to r (record { old = old; new = new; pes = inside b })
      → (k : ℕ) → k ≢ 0
      → found_in to (put_pairs raw to c new) k
        ≡ (if ltb (bin_of num k) (suc b) then lookup (old (bin_of num k)).bin.slots k else none)
  copied_content raw full c h good k nk =
      let s = (old b).bin.slots in
      let pairs : c ≡ valid_pairs s = subst (IsFresh s) h ((good.bins b).inv.fresh r) in
      let counts : (j : ℕ) → count j c ≡ (if j == 0 then 0 else count j s) =
        λ j. rw pairs (count-valid_pairs s j) in
      let own = (good.bins b).own in
      let all =
        put_pairs-lookup raw full to c new (counts 0)
          (λ j nj. ground (arith, counts j, (good.bins b).inv.unique j nj))
          (λ j nj n. ground (arith, counts j, own j nj, good.content j nj)) k nk in
      elim (Bool-cases (bin_of num k == b)) [
        | inl e ↦
            let absent : found_in to new k ≡ none = good.content k nk ∙ ground (arith, e) in
            let reads : lookup c k ≡ lookup (old (bin_of num k)).bin.slots k =
              ap (λ x. lookup x k) pairs
              ∙ lookup-valid_pairs s k nk
              ∙ ap (λ a. lookup (old a).bin.slots k) (sym (==→eq _ _ e)) in
            all ∙ (rw absent (or_else-none (lookup c k) ∙ reads ∙ ground (arith, e)))
        | inr e ↦
            let missing : lookup c k ≡ none =
              lookup-eq-none c k (ground (arith, counts k, own k nk, e)) in
            all ∙ (rw missing (good.content k nk ∙ ground (arith, e)))
      ]

  copied_counts :
      (raw : (ℕ → List Kv) → Bucket)
      → ((t : ℕ → List Kv) → length (raw t).slots ≡ entries_per_bucket)
      → (c : List Kv) → (old b).pc r ≡ cpy_done c
      → Good num to r (record { old = old; new = new; pes = inside b })
      → (k : ℕ) → k ≢ 0
      → (a : ℕ)
      → count k (put_pairs raw to c new a) ≡ (
          if bin_of to k == a
          then (if ltb (bin_of num k) (suc b) then count k (old (bin_of num k)).bin.slots else 0)
          else 0)
  copied_counts raw full c h good k nk a =
      let s = (old b).bin.slots in
      let pairs : c ≡ valid_pairs s = subst (IsFresh s) h ((good.bins b).inv.fresh r) in
      let counts : (j : ℕ) → count j c ≡ (if j == 0 then 0 else count j s) =
        λ j. rw pairs (count-valid_pairs s j) in
      let before_it = good.counts k nk a in
      put_pairs-count raw full to c new k a (counts 0) nk ∙ (elim (Bool-cases (bin_of num k == b)) [
        | inl e ↦
            ground
              (arith, e, counts k, before_it, ap (λ x. count k (old x).bin.slots) (==→eq _ _ e))
        | inr e ↦ ground (arith, e, counts k, before_it, (good.bins b).own k nk)
      ])

  copied_step :
      (raw : (ℕ → List Kv) → Bucket)
      → ((t : ℕ → List Kv) → length (raw t).slots ≡ entries_per_bucket)
      → (c : List Kv) → (old b).pc r ≡ cpy_done c
      → Good num to r (record { old = old; new = new; pes = inside b })
      → Good num to r (record { old = old; new = put_pairs raw to c new; pes = before (suc b) })
  copied_step raw full c h good = record {
    bins = good.bins;
    ahead = good.ahead;
    taken = tt;
    behind = λ a lt. elim (Bool-cases (a == b)) [
      | inl e ↦ (c, rw (==→eq a b e) h)
      | inr e ↦ good.behind a (ground (arith, e, lt))
    ];
    content = λ k nk. copied_content raw full c h good k nk;
    counts = λ k nk a. copied_counts raw full c h good k nk a;
  }

  skipped_step :
      (old b).pc r ≡ returned 0
      → Good num to r (record { old = old; new = new; pes = inside b })
      → ⊥
  skipped_step h good = cc (rw h at good.taken.copier)

-- The old table at the start: each bin has its own keys, once each, no lock is taken for a resize, and
-- the new table is empty.
pub record Begins (num : ℕ) (s : Resize) : Type 0 where
  pub bins : (b : ℕ) → IsBin num b (s.old b)
  pub untouched : (b : ℕ) → Untouched (s.old b)
  pub first : s.pes ≡ before 0
  pub fresh : (b k : ℕ) → k ≢ 0 → count k (s.new b) ≡ 0

module _ (num to r : ℕ) where
  Begins-Good : (s : Resize) → Begins num s → Good num to r s
  Begins-Good s g =
      subst (λ p. Good num to r (record s { pes = p })) (sym g.first)
        (record {
          bins = g.bins;
          ahead = λ b le. g.untouched b;
          taken = tt;
          behind = λ b lt. absurd (omega (arith, lt));
          content = λ k nk. lookup-eq-none _ k (g.fresh _ k nk) ∙ ground arith;
          counts = λ k nk b. g.fresh b k nk ∙ ground arith;
        })

  Step-Good : {s t : Resize} → Good num to r s → Step num to r s t → Good num to r t
  Step-Good {s} g (call i b {p} ni rest st n f) = call_step num to r s g i b p ni (rest b) st n f
  Step-Good {s} g (go i b raw full) = go_step num to r s g i b raw full
  Step-Good {s} g (enter {b} e lt rest) =
      enter_step num to r b s.old s.new rest (subst (λ p. Good num to r (record s { pes = p })) e g)
  Step-Good {s} g (copied {b} {c} raw full e h) =
      copied_step num to r b s.old s.new raw full c h
        (subst (λ p. Good num to r (record s { pes = p })) e g)
  Step-Good {s} g (skipped {b} e h) = absurd (
      skipped_step num to r b s.old s.new h (subst (λ p. Good num to r (record s { pes = p })) e g))

  pub Run-Good : {s t : Resize} → Begins num s → Run num to r s t → Good num to r t
  Run-Good {s} g here = Begins-Good s g
  Run-Good g (on p st) = Step-Good (Run-Good g p) st

  -- Thread `r` resizes a table whose bins hold their own keys, once each, and no lock of which is taken
  -- for a resize, and other threads call the operations on it meanwhile. In every state behind the
  -- loop over the bins, each valid key has in the new table what it has in the old one.
  pub Run-found :
      {s t : Resize}
      → 0 < num
      → Begins num s
      → Run num to r s t
      → t.pes ≡ before num
      → (k : ℕ) → k ≢ 0
      → found_in to t.new k ≡ found_in num (λ b. (t.old b).bin.slots) k
  unfolding bin_of
  Run-found {s} {t} lt g p e k nk =
      (Run-Good g p).content k nk ∙ rw e (ground (arith, bit_and-le_right k (num - 1)))
