-- ===== src/Tests/Resizes.antt =====
-- The theorems on a resize under threads, applied to a table of one bin: thread 1 begins a put, and
-- thread 0 copies the bin into a table of two.
use epli.Prelude.{
  ℕ, zero, suc, ◌<◌, ◌≡◌, ◌≢◌, refl, arith, List, [], ◌∷◌, none, true, store, bit_and-le_right,
}
use epli.Entry.{Kv}
use epli.Clht.{zero_bucket}
use epli.Clht.Threads.{init, put, put_check, cpy_lock, at_rest, lock_acq_resize, move, start}
use epli.Clht.Threads.State.{HasUniqueKeys}
use epli.Clht.Threads.Safety.{Reach-Inv}
use epli.Clht.Resizer.{
  bin_of, before, inside, Resize, place, go_on, put_pairs, Run, here, on, call, go, enter, copied,
}
use epli.Clht.Resizer.Keys.{HasOwnKeys}
use epli.Clht.Resizer.Copy.{found_in}
use epli.Clht.Resizer.Whole.{Begins, Run-found}
use epli.Clht.Resizer.Stale.{zero_table, stale_loses}

abbrev one_pair : ℕ → List Kv
one_pair zero = (3, 30) ∷ []
one_pair (suc b) = []

one_pair-HasUniqueKeys : (b : ℕ) → HasUniqueKeys (one_pair b)
one_pair-HasUniqueKeys zero k nk = ground arith
one_pair-HasUniqueKeys (suc b) k nk = omega arith

one_pair-HasOwnKeys : (b : ℕ) → HasOwnKeys 1 b (one_pair b)
unfolding bin_of
one_pair-HasOwnKeys zero k nk n = absurd (n (omega (arith, bit_and-le_right k 0)))
one_pair-HasOwnKeys (suc b) k nk n = refl

abbrev first_state : Resize
first_state = record { old = λ b. init (one_pair b); new = zero_table; pes = before 0 }

first_state-Begins : Begins 1 first_state
first_state-Begins = record {
  bins = λ b. record {
    inv = Reach-Inv (one_pair-HasUniqueKeys b) start;
    own = one_pair-HasOwnKeys b;
    calls = λ i. tt;
    locks = λ i h. absurd (cc);
  };
  untouched = λ b. record { open_lock = λ h. omega (arith, h); none_copies = λ i. refl };
  first = refl;
  fresh = λ b k nk. ground arith;
}

abbrev called : Resize
called = record first_state {
  old = store first_state.old 0 (place (first_state.old 0) 1 (put_check 5 50 0));
}

abbrev entered : Resize
entered = record {
  old = store called.old 0 (place (called.old 0) 0 cpy_lock);
  new = called.new;
  pes = inside 0;
}

abbrev gone : Resize → Resize
gone s = record s { old = store s.old 0 (go_on (s.old 0) 0 zero_bucket) }

abbrev last_state : Resize
last_state = record {
  old = (gone (gone (gone entered))).old;
  new = put_pairs (λ t. zero_bucket) 2 ((3, 30) ∷ []) zero_table;
  pes = before 1;
}

last_state-Run : Run 1 2 0 first_state last_state
unfolding store bin_of move lock_acq_resize
last_state-Run =
    on
      (on
        (on
          (on
            (on
              (on here (
                call 1 0 (λ e. omega (arith, e)) (λ c. refl) (put (λ e. omega (arith, e))) (λ e. cc)
                  refl))
              (enter refl (omega arith) refl))
            (go 0 0 zero_bucket refl))
          (go 0 0 zero_bucket refl))
        (go 0 0 zero_bucket refl))
      (copied (λ t. zero_bucket) (λ t. refl) refl refl)

Run-found_example : found_in 2 last_state.new 3 ≡ found_in 1 (λ b. (last_state.old b).bin.slots) 3
Run-found_example =
    Run-found 1 2 0 (omega arith) first_state-Begins last_state-Run refl 3 (λ e. omega (arith, e))

thread_2_rests : (b : ℕ) → b < 1 → at_rest ((last_state.old b).pc 2) ≡ true
unfolding store move lock_acq_resize
thread_2_rests zero lt = refl
thread_2_rests (suc b) lt = absurd (omega (arith, lt))

stale_loses_example :
    (u : Resize) × Run 1 2 2 (record { old = last_state.old; new = zero_table; pes = before 0 }) u
    × (u.pes ≡ before 1)
    × ((k : ℕ) → k ≢ 0 → found_in 2 u.new k ≡ none)
stale_loses_example = stale_loses 1 2 0 first_state-Begins last_state-Run refl 2 2 thread_2_rests
