-- ===== src/Clht/Resizer/History.antt =====
-- The operations of the threads on each bin while the table is resized.
use epli.Prelude.{ℕ, List, ◌==◌, Bool-cases, inl, inr, ==→eq, store}
use epli.Entry.{Kv}
use epli.Clht.Threads.{System, init, Reach, start, later, resize, cpy_lock}
use epli.Clht.Threads
use epli.Clht.Resizer.{
  before, Resize, place, go_on, call, go, enter, copied, skipped, Run, here, on,
}

-- All threads rest, and the new table is made.
abbrev pub begin : (slots new : ℕ → List Kv) → Resize
begin slots new = record { old = λ b. init (slots b); new = new; pes = before 0 }

module _ (num to r : ℕ) (slots new : ℕ → List Kv) where
  unfoldable pub stored_reach :
      (old : ℕ → System) (a : ℕ) (x : System)
      → Reach (slots a) x
      → (b : ℕ) → Reach (slots b) (old b)
      → Reach (slots b) (store old a x b)
  unfolding store
  stored_reach old a x q b p = elim (Bool-cases (b == a)) [
    | inl e ↦ rw e (rw (==→eq b a e) q)
    | inr e ↦ rw e p
  ]

  -- The moves of a run in one bin of the old table.
  unfoldable pub bin_reach :
      {t : Resize} → Run num to r (begin slots new) t → (b : ℕ) → Reach (slots b) (t.old b)
  unfolding stored_reach
  bin_reach here b = start
  bin_reach (on {t} p (call i a {p = x} ni rest st n f)) b =
      stored_reach t.old a (place (t.old a) i x)
        (later (bin_reach p a) (Threads.call i (rest a) st)) b (bin_reach p b)
  bin_reach (on {t} p (go i a raw full)) b =
      stored_reach t.old a (go_on (t.old a) i raw) (later (bin_reach p a) (Threads.go i raw full)) b
        (bin_reach p b)
  bin_reach (on {t} p (enter {b = a} e lt rest)) b =
      stored_reach t.old a (place (t.old a) r cpy_lock)
        (later (bin_reach p a) (Threads.call r rest resize)) b (bin_reach p b)
  bin_reach (on p (copied raw full e d)) b = bin_reach p b
  bin_reach (on p (skipped e d)) b = bin_reach p b
