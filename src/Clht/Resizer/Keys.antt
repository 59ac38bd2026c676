-- ===== src/Clht/Resizer/Keys.antt =====
-- The keys of a bin and of the calls on it, under the moves of the threads.
use epli.Prelude.{
  ℕ, ◌≡◌, ◌≢◌, Bool, refl, arith, List, ◌==◌, length, true, false, store, Bool-cases, inl, inr,
}
use epli.Entry.{Kv}
use epli.Entry.Slots.{count, count-append, count-set_val, count-clear-le}
use epli.Entry.At.{count-set_key_empty}
use epli.Clht.{Bucket, entries_per_bucket}
use epli.Clht.Resizer.{bin_of, IsFor, place, go_on}
use epli.Clht.Threads.{
  lock_resize, get, put, update, remove, resize, cpy_scan, cpy_done, Pc, Bin, System, call, go,
  Starts, at_rest, new_slots, put_val, put_key, put_link, upd_val, rem_key, move, lock_acq,
  lock_acq_resize,
}
use epli.Clht.Threads.State.{critical, IsFresh, Inv}
use epli.Clht.Threads.Moves.{count-new_slots}
use epli.Clht.Threads.Safety.{Step-Inv}

-- No other bin's key stands in the slots.
abbrev pub HasOwnKeys : (num b : ℕ) → List Kv → Type 0
HasOwnKeys num b s = (k : ℕ) → k ≢ 0 → bin_of num k ≢ b → count k s ≡ 0

module _ (num b : ℕ) (raw : Bucket) (full : length raw.slots ≡ entries_per_bucket) (a : Bin) where
  move-IsFor : (p : Pc) → IsFor num b p → IsFor num b (move raw a p).1
  unfolding move lock_acq lock_acq_resize
  move-IsFor p f = ground arith

  move-HasOwnKeys :
      (p : Pc)
      → IsFor num b p
      → IsFresh a.slots p
      → HasOwnKeys num b a.slots
      → HasOwnKeys num b (move raw a p).0.slots
  unfolding move lock_acq lock_acq_resize
  move-HasOwnKeys (put_val k v i) f g u j nj n =
      omega (arith, count-set_val j k v a.slots i, u j nj n)
  move-HasOwnKeys (put_key k v i) f ((nk, (z, (lt, h))), q) u j nj n =
      ground (arith, count-set_key_empty j nj k a.slots i lt h, u j nj n)
  move-HasOwnKeys (put_link k v) f (nk, z) u j nj n = ground (
    arith,
    count-append a.slots (new_slots raw k v) j,
    count-new_slots raw j k v full nj,
    u j nj n,
  )
  move-HasOwnKeys (upd_val k v i) f g u j nj n =
      omega (arith, count-set_val j k v a.slots i, u j nj n)
  move-HasOwnKeys (rem_key k i w) f g u j nj n =
      omega (arith, count-clear-le j k a.slots i nj, u j nj n)
  move-HasOwnKeys p f g u j nj n = ground (arith, u j nj n)

-- Between taking the lock for a resize and returning.
abbrev pub in_copy : Pc → Bool
in_copy (cpy_scan j c) = true
in_copy (cpy_done c) = true
in_copy p = false

in_copy-critical : (p : Pc) → in_copy p ≡ true → critical p ≡ true
in_copy-critical (cpy_scan j c) h = refl
in_copy-critical (cpy_done c) h = refl
in_copy-critical p h = absurd (ground (arith, h))

module _ (raw : Bucket) (a : Bin) where
  move-in_copy :
      (p : Pc)
      → (in_copy p ≡ true → a.lock ≡ lock_resize)
      → in_copy (move raw a p).1 ≡ true
      → (move raw a p).0.lock ≡ lock_resize
  unfolding move lock_acq lock_acq_resize
  move-in_copy p h c = ground arith

  move-same_lock :
      (p : Pc) → critical p ≡ false → a.lock ≡ lock_resize → (move raw a p).0.lock ≡ lock_resize
  unfolding move lock_acq lock_acq_resize
  move-same_lock p h c = ground arith

Starts-in_copy : {p : Pc} → Starts p → in_copy p ≢ true
Starts-in_copy (get nk) h = cc
Starts-in_copy (put nk) h = cc
Starts-in_copy (update nk) h = cc
Starts-in_copy (remove nk) h = cc
Starts-in_copy resize h = cc

module _ (t : System) (inv : Inv t)
    (f : (i : ℕ) → in_copy (t.pc i) ≡ true → t.bin.lock ≡ lock_resize) where
  in_copy-place :
      (i : ℕ) (p : Pc)
      → Starts p
      → (j : ℕ) → in_copy (store t.pc i p j) ≡ true
      → t.bin.lock ≡ lock_resize
  unfolding store
  in_copy-place i p st j h = elim (Bool-cases (j == i)) [
    | inl e ↦ absurd (Starts-in_copy st (rw e at h))
    | inr e ↦ f j (rw e at h)
  ]

  in_copy-go_on :
      (i : ℕ) (raw : Bucket)
      → (j : ℕ) → in_copy ((go_on t i raw).pc j) ≡ true
      → (go_on t i raw).bin.lock ≡ lock_resize
  unfolding store
  in_copy-go_on i raw j h = elim (Bool-cases (j == i)) [
    | inl e ↦ move-in_copy raw t.bin (t.pc i) (f i) (rw e at h)
    | inr e ↦
        let inside = rw e at h in
        move-same_lock raw t.bin (t.pc i)
          (ground (arith, e, inv.alone i j, in_copy-critical (t.pc j) inside)) (f j inside)
  ]

-- What holds of a bin of the old table and of the threads in it.
pub record IsBin (num b : ℕ) (t : System) : Type 0 where
  pub inv : Inv t
  pub own : HasOwnKeys num b t.bin.slots
  pub calls : (i : ℕ) → IsFor num b (t.pc i)
  pub locks : (i : ℕ) → in_copy (t.pc i) ≡ true → t.bin.lock ≡ lock_resize

module _ (num b : ℕ) where
  calls-store :
      (t : System) (i : ℕ) (p : Pc)
      → ((j : ℕ) → IsFor num b (t.pc j))
      → IsFor num b p
      → (j : ℕ) → IsFor num b (store t.pc i p j)
  unfolding store
  calls-store t i p f g j = elim (Bool-cases (j == i)) [ inl e ↦ rw e g | inr e ↦ rw e (f j) ]

  pub IsBin-place :
      (t : System) (i : ℕ) (p : Pc)
      → at_rest (t.pc i) ≡ true
      → Starts p
      → IsFor num b p
      → IsBin num b t
      → IsBin num b (place t i p)
  IsBin-place t i p rest st f g = record {
    inv = Step-Inv (call i rest st) g.inv;
    own = g.own;
    calls = calls-store t i p g.calls f;
    locks = in_copy-place t g.inv g.locks i p st;
  }

  pub IsBin-go_on :
      (t : System) (i : ℕ) (raw : Bucket)
      → length raw.slots ≡ entries_per_bucket
      → IsBin num b t
      → IsBin num b (go_on t i raw)
  IsBin-go_on t i raw full g = record {
    inv = Step-Inv (go i raw full) g.inv;
    own = move-HasOwnKeys num b raw full t.bin (t.pc i) (g.calls i) (g.inv.fresh i) g.own;
    calls = calls-store t i _ g.calls (move-IsFor num b raw full t.bin (t.pc i) (g.calls i));
    locks = in_copy-go_on t g.inv g.locks i raw;
  }
