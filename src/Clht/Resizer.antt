-- ===== src/Clht/Resizer.antt =====
-- The loop of `ht_resize_pes` of src/clht_lb_res.cc where it grows the table, while other threads call
-- the operations on the old table, a shared access at a time: from the creation of the new table to
-- the swap, which are not steps of it. It is one resize by one thread: what comes before and after the
-- loop (the read of `h->ht`, `resize_lock`, `ht_status` in a put that adds a bucket) and a second resize at
-- the same time are outside; Stale begins where a resizer has come late to a table. Each bin of the old table is a system of Threads with its lock and the places of the
-- threads in it; the new table is not yet seen by the others. The memory of a bucket that
-- `clht_put_seq` adds may hold anything.
pub mod Keys
pub mod Phases
pub mod Copy
pub mod Content
pub mod Whole
pub mod Stale
pub mod History
use epli.Prelude.{
  ℕ, suc, ◌+◌, ◌-◌, ◌<◌, ◌≡◌, ◌≢◌, List, [], ◌∷◌, ◌++◌, none, some, Bool, true, false, ◌==◌,
  if◌then◌else◌, length, store,
}
use Prim.Native.Nat.{bit_and}
use epli.Entry.{Kv, find_key, set_key, set_val}
use epli.Clht.{Bucket, entries_per_bucket}
use epli.Clht.Threads.{
  Pc, get_val, get_key, put_check, put_lock, put_scan, put_val, put_key, put_link, upd_lock,
  upd_scan, upd_val, rem_lock, rem_scan, rem_val, rem_key, get_again, rem_check, cpy_lock, cpy_done,
  returned, new_slots, move, at_rest, Starts, System,
}
use epli.Clht.Threads

-- `clht_hash` for a table of `num` buckets.
unfoldable pub bin_of : (num key : ℕ) → ℕ
bin_of num k = bit_and k (num - 1)

-- `clht_put_seq` on the slots of a bin.
unfoldable pub put_seq : (raw : Bucket) → List Kv → (key val : ℕ) → List Kv
unfolding new_slots
put_seq raw s k v = elim (find_key s 0) [
  | none ↦ s ++ new_slots raw k v
  | some i ↦ set_key (set_val s i v) i k
]

-- The pairs of a bin, put into the new table of `num` buckets. The memory `raw` of a fresh bucket is a
-- function of what the table holds then, and so may be another one for each bucket.
unfoldable pub put_pairs :
    (raw : (ℕ → List Kv) → Bucket) → (num : ℕ) → List Kv → (ℕ → List Kv) → ℕ → List Kv
unfolding put_seq bin_of
put_pairs raw num [] new = new
put_pairs raw num ((k, v) ∷ c) new =
    put_pairs raw num c (store new (bin_of num k) (put_seq (raw new) (new (bin_of num k)) k v))

-- Before the bin `b` of the loop, or in the call of `bucket_cpy` on it.
pub data Pes : Type 0 where
  before : (b : ℕ) → Pes
  inside : (b : ℕ) → Pes

pub record Resize : Type 0 where
  pub old : ℕ → System
  pub new : ℕ → List Kv
  pub pes : Pes

-- The key of a call is one of the bin.
abbrev pub IsFor : (num b : ℕ) → Pc → Type 0
IsFor num b (get_val k j) = bin_of num k ≡ b
IsFor num b (get_key k j w) = bin_of num k ≡ b
IsFor num b (put_check k v j) = bin_of num k ≡ b
IsFor num b (put_lock k v) = bin_of num k ≡ b
IsFor num b (put_scan k v j e) = bin_of num k ≡ b
IsFor num b (put_val k v i) = bin_of num k ≡ b
IsFor num b (put_key k v i) = bin_of num k ≡ b
IsFor num b (put_link k v) = bin_of num k ≡ b
IsFor num b (upd_lock k v) = bin_of num k ≡ b
IsFor num b (rem_check k j) = bin_of num k ≡ b
IsFor num b (upd_scan k v j) = bin_of num k ≡ b
IsFor num b (upd_val k v j) = bin_of num k ≡ b
IsFor num b (rem_lock k) = bin_of num k ≡ b
IsFor num b (rem_scan k j) = bin_of num k ≡ b
IsFor num b (rem_val k j) = bin_of num k ≡ b
IsFor num b (rem_key k j w) = bin_of num k ≡ b
IsFor num b (get_again k j w) = bin_of num k ≡ b
IsFor num b p = Unit

-- Thread `i` goes to the place `p` in a bin.
abbrev pub place : System → (i : ℕ) → Pc → System
place t i p = record t { pc = store t.pc i p }

abbrev pub go_on : System → (i : ℕ) → (raw : Bucket) → System
go_on t i raw = record {
  bin = (move raw t.bin (t.pc i)).0;
  pc = store t.pc i (move raw t.bin (t.pc i)).1;
}

-- One step while thread `r` resizes a table of `num` buckets to one of `to`: another thread calls an
-- operation, any thread moves, or thread `r` calls `bucket_cpy` on the next bin, stores what it has
-- collected, or goes on where it has returned 0.
pub data Step (num to r : ℕ) (s : Resize) : Resize → Type 0 where
  call :
      (i b : ℕ) {p : Pc}
      → i ≢ r
      → ((c : ℕ) → at_rest ((s.old c).pc i) ≡ true)
      → Starts p
      → p ≢ cpy_lock
      → IsFor num b p
      → Step num to r s (record s { old = store s.old b (place (s.old b) i p) })
  go :
      (i b : ℕ) (raw : Bucket)
      → length raw.slots ≡ entries_per_bucket
      → Step num to r s (record s { old = store s.old b (go_on (s.old b) i raw) })
  enter :
      {b : ℕ}
      → s.pes ≡ before b
      → b < num
      → at_rest ((s.old b).pc r) ≡ true
      → Step num to r s
          (record { old = store s.old b (place (s.old b) r cpy_lock); new = s.new; pes = inside b })
  copied :
      {b : ℕ} {c : List Kv} (raw : (ℕ → List Kv) → Bucket)
      → ((t : ℕ → List Kv) → length (raw t).slots ≡ entries_per_bucket)
      → s.pes ≡ inside b
      → (s.old b).pc r ≡ cpy_done c
      → Step num to r s
          (record { old = s.old; new = put_pairs raw to c s.new; pes = before (suc b) })
  skipped :
      {b : ℕ}
      → s.pes ≡ inside b
      → (s.old b).pc r ≡ returned 0
      → Step num to r s (record s { pes = before (suc b) })

-- Any number of steps.
pub data Run (num to r : ℕ) (s : Resize) : Resize → Type 0 where
  here : Run num to r s s
  on : {t u : Resize} → Run num to r s t → Step num to r t u → Run num to r s u
