-- ===== src/Clht/Resizer/Stale.antt =====
-- A second resize of a table that has been copied already. `ht_resize_pes` reads `h->ht` before it takes
-- `resize_lock`, so a thread that waits in between goes on with the table that another one has replaced.
use epli.Prelude.{
  ℕ, zero, suc, ◌≤◌, ◌<◌, ◌≡◌, ◌≢◌, refl, ap, arith, List, none, true, store, store_same,
  store_other, Bool-cases, ==→eq, inl, inr, ◌==◌, ◌∙◌,
}
use epli.Entry.{Kv}
use epli.Entry.Slots.{lookup-replicate}
use epli.Clht.Resizer.Keys.{in_copy}
use epli.Clht.Resizer.Copy.{found_in}
use epli.Clht.Resizer.Whole.{Begins, Run-Good}
use epli.Clht.{zero_bucket, entries_per_bucket}
use epli.Clht.Threads.{lock_resize, lock_acq_resize, move, System, at_rest, cpy_lock, returned}
use epli.Clht.Resizer.{before, Resize, place, go_on, enter, go, skipped, Run, here, on}

-- Each bin is taken for a resize, and thread `r` rests.
pub record Stale (num r : ℕ) (s : Resize) : Type 0 where
  pub locked : (b : ℕ) → b < num → (s.old b).bin.lock ≡ lock_resize
  pub resting : (b : ℕ) → b < num → at_rest ((s.old b).pc r) ≡ true

-- `bucket_cpy` finds the lock taken and returns 0.
abbrev turned : System → (r : ℕ) → System
turned t r = go_on (place t r cpy_lock) r zero_bucket

module _ (t : System) (r : ℕ) (h : t.bin.lock ≡ lock_resize) where
  turned_move : move zero_bucket t.bin (store t.pc r cpy_lock r) ≡ (t.bin, returned 0)
  unfolding move lock_acq_resize
  turned_move = rw (store_same t.pc r cpy_lock) (ground (arith, h))

  turned_bin : (turned t r).bin ≡ t.bin
  turned_bin = rw turned_move refl

  turned_pc : (turned t r).pc r ≡ returned 0
  turned_pc = store_same _ r _ ∙ rw turned_move refl

module _ (num to r : ℕ) where
  -- The call on the bin `b` begins, takes its one step, and returns 0.
  module _ (s : Resize) (g : Stale num r s) (b : ℕ) (at : s.pes ≡ before b) (lt : b < num) where
    abbrev taken_bins : ℕ → System
    taken_bins = store s.old b (place (s.old b) r cpy_lock)

    abbrev passed : Resize
    passed = record {
      old = store taken_bins b (go_on (taken_bins b) r zero_bucket);
      new = s.new;
      pes = before (suc b);
    }

    passed_here : passed.old b ≡ turned (s.old b) r
    passed_here = store_same _ b _ ∙ ap (λ t. go_on t r zero_bucket) (store_same s.old b _)

    passed_other : (a : ℕ) → a ≢ b → passed.old a ≡ s.old a
    passed_other a n = store_other _ b a _ n ∙ store_other s.old b a _ n

    passed_pc : (passed.old b).pc r ≡ returned 0
    passed_pc = ap (λ t. t.pc r) passed_here ∙ turned_pc (s.old b) r (g.locked b lt)

    passed-Stale : Stale num r passed
    passed-Stale = record {
      locked = λ a la. elim (Bool-cases (a == b)) [
        | inl e ↦ rw (==→eq a b e) (
            ap (λ t. t.bin.lock) passed_here
            ∙ ap (λ x. x.lock) (turned_bin (s.old b) r (g.locked b lt))
            ∙ g.locked b lt)
        | inr e ↦ ap (λ t. t.bin.lock) (passed_other a (λ z. ground (arith, e, z))) ∙ g.locked a la
      ];
      resting = λ a la. elim (Bool-cases (a == b)) [
        | inl e ↦ rw (==→eq a b e) (ap at_rest passed_pc)
        | inr e ↦
            ap (λ t. at_rest (t.pc r)) (passed_other a (λ z. ground (arith, e, z))) ∙ g.resting a la
      ];
    }

    passed-Run : (s0 : Resize) → Run num to r s0 s → Run num to r s0 passed
    passed-Run s0 p =
        on (on (on p (enter at lt (g.resting b lt))) (go r b zero_bucket refl))
          (skipped refl passed_pc)

  passes :
      (s : Resize)
      → Stale num r s
      → s.pes ≡ before 0
      → (m : ℕ) → m ≤ num
      → (t : Resize) × Run num to r s t × (t.pes ≡ before m) × (t.new ≡ s.new) × Stale num r t
  passes s g e zero le = (s, here, e, refl, g)
  passes s g e (suc m) le =
      let (t, p, at, same, h) = passes s g e m (omega (arith, le)) in
      (passed t h m at le, passed-Run t h m at le s p, refl, same, passed-Stale t h m at le)

  pub Stale-passes :
      (s : Resize)
      → Stale num r s
      → s.pes ≡ before 0
      → (t : Resize) × Run num to r s t × (t.pes ≡ before num) × (t.new ≡ s.new)
  Stale-passes s g e = let (t, p, at, same, h) = passes s g e num (omega arith) in (t, p, at, same)

-- The slots of a new table.
abbrev pub zero_table : ℕ → List Kv
zero_table b = zero_bucket.slots

module _ (num to r : ℕ) {s t : Resize} (begins : Begins num s) (p : Run num to r s t)
    (done : t.pes ≡ before num) where
  copied_lock : (b : ℕ) → b < num → (t.old b).bin.lock ≡ lock_resize
  copied_lock b lt =
      let good = Run-Good num to r begins p in
      let (c, h) = good.behind b (rw done lt) in (good.bins b).locks r (ap in_copy h)

  -- When thread `r` has gone through the bins of a table that was fit for it, and thread `q`, which rests in each of them,
  -- resizes the same table into a new one, it can go through the bins too, and no valid key is in its
  -- table.
  pub stale_loses :
      (q next : ℕ)
      → ((b : ℕ) → b < num → at_rest ((t.old b).pc q) ≡ true)
      → (u : Resize) × Run num next q (record { old = t.old; new = zero_table; pes = before 0 }) u
        × (u.pes ≡ before num)
        × ((k : ℕ) → k ≢ 0 → found_in next u.new k ≡ none)
  stale_loses q next rests =
      let (u, run, at, same) =
        Stale-passes num next q _ (record { locked = copied_lock; resting = rests }) refl in
      (u, run, at, λ k nk. rw same (lookup-replicate entries_per_bucket k nk))
