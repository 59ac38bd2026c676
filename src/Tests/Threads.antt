-- ===== src/Tests/Threads.antt =====
-- The theorems on one bin of the hash table under several threads, applied to concrete runs.
use epli.Prelude.{
  ℕ, zero, suc, ◌+◌, ◌≤◌, ◌≡◌, ◌≢◌, refl, arith, List, [], ◌∷◌, some, true, false, length, store,
  store_same,
}
use epli.Entry.{Kv, set_key, set_val}
use epli.Entry.Slots.{lookup}
use epli.Clht.{zero_bucket, bucket_create}
use epli.Clht.Threads.{
  cpy_lock, cpy_done, away, resize, lock_acq_resize, Pc, returned, get_val, rem_check, rem_lock,
  upd_lock, put_check, lock_free, lock_acq, new_slots, move, System, call, go, get, update, remove,
  init, Reach, start, later,
}
use epli.Clht.Threads.State.{critical, HasUniqueKeys}
use epli.Clht.Threads.Safety.{Reach-alone, Reach-unique}
use epli.Clht.Threads.Frozen.{Run}
use epli.Clht.Threads.Progress.{Inside, Inside-le}
use epli.Clht.Threads.Reader.{Search, searching, get-found, remove-found}

abbrev one : List Kv
one = (5, 50) ∷ (0, 0) ∷ (0, 0) ∷ []

one-few : HasUniqueKeys one
one-few k nk = ground arith

-- Thread `i` calls, or moves.
abbrev calls : System → ℕ → Pc → System
calls s i p = record { bin = s.bin; pc = store s.pc i p }

abbrev goes : System → ℕ → System
goes s i = record {
  bin = (move zero_bucket s.bin (s.pc i)).0;
  pc = store s.pc i (move zero_bucket s.bin (s.pc i)).1;
}

goes-Reach : {s : System} → Reach one s → (i : ℕ) → Reach one (goes s i)
goes-Reach r i = later r (go i zero_bucket refl)

-- Thread 0 holds the lock for an update; thread 1 looks the key up.
abbrev inside : System
inside = goes (calls (init one) 0 (upd_lock 5 60)) 0

abbrev inside-Reach : Reach one inside
inside-Reach = later (later start (call 0 refl (update (omega arith)))) (go 0 zero_bucket refl)

abbrev updated : System
updated = goes (goes inside 0) 0

abbrev updated-Reach : Reach one updated
updated-Reach = later (later inside-Reach (go 0 zero_bucket refl)) (go 0 zero_bucket refl)

Reach-alone_example :
    ((i j : ℕ) → critical (inside.pc i) ≡ true → critical (inside.pc j) ≡ true → i ≡ j)
    × ((inside.bin.lock ≢ lock_free → (i : ℕ) × (critical (inside.pc i) ≡ true))
        × ((i : ℕ) → critical (inside.pc i) ≡ true → inside.bin.lock ≢ lock_free))
Reach-alone_example = Reach-alone one-few inside-Reach

Reach-unique_example : HasUniqueKeys updated.bin.slots
Reach-unique_example = Reach-unique one-few updated-Reach

-- The update stands in the history.
updated-lookup : lookup updated.bin.slots 5 ≡ some 60
unfolding move lock_acq set_val store
updated-lookup = refl

two_moves : Inside 0 inside updated 2
unfolding move lock_acq store
two_moves =
    Inside.on (Inside.on Inside.here refl (go 0 zero_bucket refl)) refl (go 0 zero_bucket refl)

Inside-le_example : 2 ≤ length inside.bin.slots + 4
Inside-le_example = Inside-le one-few inside-Reach two_moves

abbrev reading : System
reading = calls (init one) 0 (get_val 5 0)

abbrev reading-Reach : Reach one reading
reading-Reach = later start (call 0 refl (get (omega arith)))

abbrev has_read : System
has_read = goes (goes (goes reading 0) 0) 0

has_read-Search : Search 0 0 5 50 reading has_read
unfolding move store
has_read-Search =
    Search.on
      (Search.on (Search.on Search.here refl refl refl (go 0 zero_bucket refl)) refl refl refl
        (go 0 zero_bucket refl))
      refl refl refl (go 0 zero_bucket refl)

has_read-ended : searching (has_read.pc 0) ≡ false
unfolding move store
has_read-ended = refl

get-found_example : has_read.pc 0 ≡ returned 50
get-found_example =
    get-found 0 0 5 50 one-few reading-Reach (omega arith)
      (store_same (init one).pc 0 (get_val 5 0)) has_read-Search has_read-ended

abbrev removing : System
removing = calls (init one) 0 (rem_check 5 0)

abbrev removing-Reach : Reach one removing
removing-Reach = later start (call 0 refl (remove (omega arith)))

removing-Search : Search 0 0 5 50 removing (goes removing 0)
unfolding move store
removing-Search = Search.on Search.here refl refl refl (go 0 zero_bucket refl)

removing-ended : searching ((goes removing 0).pc 0) ≡ false
unfolding move store
removing-ended = refl

remove-found_example : (goes removing 0).pc 0 ≡ rem_lock 5
remove-found_example =
    remove-found 0 0 5 50 one-few removing-Reach (omega arith)
      (store_same (init one).pc 0 (rem_check 5 0)) removing-Search removing-ended

-- Thread 0 has read the value and found the key; thread 1 updates it; thread 0 finds another value
-- and returns 0, though the key was there all the time.
abbrev missed : System
missed = goes (goes (goes (goes (calls (goes (goes reading 0) 0) 1 (upd_lock 5 60)) 1) 1) 1) 0

clht_get_misses : (missed.pc 0 ≡ returned 0) × (lookup missed.bin.slots 5 ≡ some 60)
unfolding move lock_acq set_val store
clht_get_misses = (refl, refl)

-- A put into a chain without an empty slot links a new bucket.
abbrev filled : List Kv
filled = (5, 50) ∷ []

abbrev linked : System
linked =
    goes
      (goes (goes (goes (goes (goes (goes (calls (init filled) 0 (put_check 7 70 0)) 0) 0) 0) 0) 0)
        0)
      0

clht_put_links :
    (linked.pc 0 ≡ returned 1)
    × (linked.bin ≡ record { lock = 0; slots = (5, 50) ∷ (7, 70) ∷ (0, 0) ∷ (0, 0) ∷ [] })
unfolding move lock_acq new_slots bucket_create set_key set_val store
clht_put_links = (refl, refl)

-- Thread 0 copies the bin for a resize, and thread 1 then wants to update it.
abbrev copying : System
copying = calls (init one) 0 cpy_lock

abbrev copied : System
copied = goes (goes (goes (goes (goes copying 0) 0) 0) 0) 0

copying-Reach : Reach one copying
copying-Reach = later start (call 0 refl resize)

copied-Reach : Reach one copied
copied-Reach =
    goes-Reach (goes-Reach (goes-Reach (goes-Reach (goes-Reach copying-Reach 0) 0) 0) 0) 0

copied-done : copied.pc 0 ≡ cpy_done ((5, 50) ∷ [])
unfolding move lock_acq_resize store
copied-done = refl

abbrev waiting : System
waiting = goes (calls copied 1 (upd_lock 5 60)) 1

waiting-Run : Run copied waiting
unfolding move lock_acq_resize store
waiting-Run = Run.on (Run.on Run.here (call 1 refl (update (omega arith)))) (go 1 zero_bucket refl)

clht_update_waits : waiting.pc 1 ≡ away
unfolding move lock_acq lock_acq_resize store
clht_update_waits = refl

-- Thread 0 reads the value 50 of the key 9 in the slot, and then finds the key 5 there, which thread 1
-- has put with 70 in between; thread 1 puts the key 9 back, and thread 0 returns 50 for the key 5.
abbrev follow : System → ℕ → ℕ → System
follow s i zero = s
follow s i (suc n) = follow (goes s i) i n

abbrev nine : List Kv
nine = (9, 50) ∷ []

abbrev swapped : System
swapped =
    follow
      (calls (follow (calls (goes (calls (init nine) 0 (get_val 5 0)) 0) 1 (rem_check 9 0)) 1 6) 1
        (put_check 5 70 0))
      1 8

abbrev swapped_back : System
swapped_back =
    follow (calls (follow (calls (goes swapped 0) 1 (rem_check 5 0)) 1 6) 1 (put_check 9 50 0)) 1 8

clht_get_mixes :
    (swapped.bin.slots ≡ (5, 70) ∷ [])
    × ((swapped_back.bin.slots ≡ nine) × ((goes swapped_back 0).pc 0 ≡ returned 50))
unfolding move lock_acq set_key set_val store
clht_get_mixes = (refl, (refl, refl))
