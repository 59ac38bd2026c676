-- ===== src/Clht/Threads/State.antt =====
-- What holds of the bin and the threads in every state of `clht_put`, `clht_update`, `clht_remove`
-- and `clht_get`, a shared access at a time.
use epli.Prelude.{ℕ, ◌≤◌, ◌<◌, ◌≡◌, ◌≢◌, List, Option, none, some, Bool, true, false, length, take}
use epli.Entry.{Kv}
use epli.Entry.At.{key_at, val_at}
use epli.Entry.Slots.{count}
use epli.Clht.Threads.Copied.{valid_pairs}
use epli.Clht.Threads.{
  Pc, idle, get_val, get_key, get_again, put_check, put_lock, put_scan, put_val, put_key, put_link,
  upd_lock, upd_scan, upd_val, rem_check, rem_lock, rem_scan, rem_val, rem_key, unlock, returned,
  cpy_lock, cpy_scan, cpy_done, away, System,
}

-- Between `LOCK_ACQ` and `LOCK_RLS`, or behind `LOCK_ACQ_RES`.
abbrev pub critical : Pc → Bool
critical (put_scan k v j e) = true
critical (put_val k v i) = true
critical (put_key k v i) = true
critical (put_link k v) = true
critical (upd_scan k v j) = true
critical (upd_val k v j) = true
critical (rem_scan k j) = true
critical (rem_val k j) = true
critical (rem_key k j w) = true
critical (unlock r) = true
critical (cpy_scan j c) = true
critical (cpy_done c) = true
critical p = false

abbrev pub IsEmpty : List Kv → Option ℕ → Type 0
IsEmpty s none = Unit
IsEmpty s (some i) = (i < length s) × (key_at s i ≡ 0)

abbrev pub Occupied : List Kv → (k j : ℕ) → Type 0
Occupied s k j = (k ≢ 0) × (key_at s j ≡ k)

-- The first `j` slots do not hold the key.
abbrev pub Scanned : List Kv → (k j : ℕ) → Type 0
Scanned s k j = (k ≢ 0) × (count k (take j s) ≡ 0)

-- The slot is empty, and no slot holds the key.
abbrev pub Vacant : List Kv → (k i : ℕ) → Type 0
Vacant s k i = (k ≢ 0) × ((count k s ≡ 0) × ((i < length s) × (key_at s i ≡ 0)))

-- What the locals of a thread say about the slots.
abbrev pub IsFresh : List Kv → Pc → Type 0
IsFresh s idle = Unit
IsFresh s (get_val k j) = Unit
IsFresh s (get_key k j w) = Unit
IsFresh s (get_again k j w) = Unit
IsFresh s (put_check k v j) = k ≢ 0
IsFresh s (put_lock k v) = k ≢ 0
IsFresh s (put_scan k v j e) = Scanned s k j × IsEmpty s e
IsFresh s (put_val k v i) = Vacant s k i
IsFresh s (put_key k v i) = Vacant s k i × (val_at s i ≡ v)
IsFresh s (put_link k v) = (k ≢ 0) × (count k s ≡ 0)
IsFresh s (upd_lock k v) = k ≢ 0
IsFresh s (upd_scan k v j) = Scanned s k j
IsFresh s (upd_val k v j) = Occupied s k j
IsFresh s (rem_check k j) = k ≢ 0
IsFresh s (rem_lock k) = k ≢ 0
IsFresh s (rem_scan k j) = Scanned s k j
IsFresh s (rem_val k j) = Occupied s k j
IsFresh s (rem_key k j w) = Occupied s k j × (val_at s j ≡ w)
IsFresh s (unlock r) = Unit
IsFresh s cpy_lock = Unit
IsFresh s (cpy_scan j c) = c ≡ valid_pairs (take j s)
IsFresh s (cpy_done c) = c ≡ valid_pairs s
IsFresh s away = Unit
IsFresh s (returned r) = Unit

-- A valid key stands in one slot at most.
abbrev pub HasUniqueKeys : List Kv → Type 0
HasUniqueKeys s = (k : ℕ) → k ≢ 0 → count k s ≤ 1

pub record Inv (s : System) : Type 0 where
  pub unique : HasUniqueKeys s.bin.slots
  pub held : (i : ℕ) → critical (s.pc i) ≡ true → s.bin.lock ≢ 0
  pub owner : s.bin.lock ≢ 0 → (i : ℕ) × (critical (s.pc i) ≡ true)
  pub alone : (i j : ℕ) → critical (s.pc i) ≡ true → critical (s.pc j) ≡ true → i ≡ j
  pub fresh : (i : ℕ) → IsFresh s.bin.slots (s.pc i)
