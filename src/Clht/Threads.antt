-- ===== src/Clht/Threads.antt =====
-- One bin of the hash table under several threads: `clht_get`, `bucket_exists`, `clht_put`,
-- `clht_update` and `clht_remove` of src/clht_lb_res.cc, a shared access at a time, with the lock
-- of include/clht/clht_lb_res.h. The slots of the chain are one list, bucket after bucket, and a
-- position behind its end stands for `next == NULL`. A slot that the holder of the lock reads
-- twice is read once. A resize that grows the table copies the bin by `bucket_cpy` and keeps the
-- lock; CLHT_HELP_RESIZE, CLHT_DO_CHECK_STATUS, CLHT_DO_GC and CLHT_USE_RTM are 0. What a call
-- does in the new table, `hops`, the time, the count of expansions and the call of `ht_status`
-- that follows the release are left out.
pub mod Copied
pub mod State
pub mod Moves
pub mod Safety
pub mod Spec
pub mod Refines
pub mod Missed
pub mod Linear
pub mod Progress
pub mod Reader
pub mod Frozen
use epli.Prelude.{
  ℕ, suc, ◌≡◌, ◌≢◌, List, [], ◌∷◌, ◌++◌, Option, none, some, Bool, true, false, ◌==◌, ltb, ◌&&◌,
  if◌then◌else◌, length, store,
}
use epli.Entry.{Kv, set_key, set_val}
use epli.Entry.At.{key_at, val_at}
use epli.Clht.{Bucket, bucket_create, entries_per_bucket}

abbrev pub lock_free : ℕ
lock_free = 0

abbrev pub lock_update : ℕ
lock_update = 1

abbrev pub lock_resize : ℕ
lock_resize = 2

pub record Bin : Type 0 where
  pub lock : ℕ
  pub slots : List Kv

-- Where a thread stands, with the local variables that are live there. `j` is the position that
-- is read next, `e` the slot that `empty` points to.
pub data Pc : Type 0 where
  idle : Pc
  get_val : (k j : ℕ) → Pc
  get_key : (k j w : ℕ) → Pc  -- `val` is read
  get_again : (k j w : ℕ) → Pc  -- the key is found
  put_check : (k v j : ℕ) → Pc  -- in `bucket_exists`
  put_lock : (k v : ℕ) → Pc
  put_scan : (k v j : ℕ) → (e : Option ℕ) → Pc
  put_val : (k v i : ℕ) → Pc
  put_key : (k v i : ℕ) → Pc
  put_link : (k v : ℕ) → Pc  -- before `bucket->next = b`
  upd_lock : (k v : ℕ) → Pc
  upd_scan : (k v j : ℕ) → Pc
  upd_val : (k v j : ℕ) → Pc
  rem_check : (k j : ℕ) → Pc  -- in `bucket_exists`
  rem_lock : (k : ℕ) → Pc
  rem_scan : (k j : ℕ) → Pc
  rem_val : (k j : ℕ) → Pc
  rem_key : (k j w : ℕ) → Pc
  unlock : (r : ℕ) → Pc
  cpy_lock : Pc
  cpy_scan : (j : ℕ) → (copied : List Kv) → Pc
  cpy_done : (copied : List Kv) → Pc  -- `bucket_cpy` has returned 1
  away : Pc  -- the call waits for the new table
  returned : (r : ℕ) → Pc

-- `lock_acq_chk_resize`: one compare-and-swap, after which the caller goes on, tries again, or leaves
-- for the new table.
unfoldable pub lock_acq : Bin → (next again : Pc) → Bin × Pc
lock_acq b next again =
    if b.lock == lock_free
    then (record b { lock = lock_update }, next)
    else (b, if b.lock == lock_resize then away else again)

-- `lock_acq_resize`, at the start of `bucket_cpy`
unfoldable pub lock_acq_resize : Bin → Bin × Pc
lock_acq_resize b =
    if b.lock == lock_free
    then (record b { lock = lock_resize }, cpy_scan 0 [])
    else (b, if b.lock == lock_resize then returned 0 else cpy_lock)

-- The bucket that `clht_put` fills before it is linked; `raw` is what the fresh memory holds.
unfoldable pub new_slots : (raw : Bucket) → (key val : ℕ) → List Kv
new_slots raw k v = set_key (set_val (bucket_create raw).slots 0 v) 0 k

abbrev pub is_none : Option ℕ → Bool
is_none none = true
is_none (some i) = false

-- One move of a thread. A call that has returned, and a thread without a call, stay.
unfoldable pub move : (raw : Bucket) → Bin → Pc → Bin × Pc
unfolding lock_acq lock_acq_resize new_slots
move raw b idle = (b, idle)
move raw b (get_val k j) =
    (b, if ltb j (length b.slots) then get_key k j (val_at b.slots j) else returned 0)
move raw b (get_key k j w) =
    (b, if key_at b.slots j == k then get_again k j w else get_val k (suc j))
move raw b (get_again k j w) = (b, if val_at b.slots j == w then returned w else returned 0)
move raw b (put_check k v j) = (
  b,
  if ltb j (length b.slots)
      then (if key_at b.slots j == k then returned 0 else put_check k v (suc j))
      else put_lock k v,
)
move raw b (put_lock k v) = lock_acq b (put_scan k v 0 none) (put_lock k v)
move raw b (put_scan k v j e) = (
  b,
  if ltb j (length b.slots)
      then (if key_at b.slots j == k
          then unlock 0
          else put_scan k v (suc j) (if is_none e && (key_at b.slots j == 0) then some j else e))
      else elim e [ none ↦ put_link k v | some i ↦ put_val k v i ],
)
move raw b (put_val k v i) = (record b { slots = set_val b.slots i v }, put_key k v i)
move raw b (put_key k v i) = (record b { slots = set_key b.slots i k }, unlock 1)
move raw b (put_link k v) = (record b { slots = b.slots ++ new_slots raw k v }, unlock 1)
move raw b (upd_lock k v) = lock_acq b (upd_scan k v 0) (upd_lock k v)
move raw b (upd_scan k v j) = (
  b,
  if ltb j (length b.slots)
      then (if key_at b.slots j == k then upd_val k v j else upd_scan k v (suc j))
      else unlock 0,
)
move raw b (upd_val k v j) = (record b { slots = set_val b.slots j v }, unlock 1)
move raw b (rem_check k j) = (
  b,
  if ltb j (length b.slots)
      then (if key_at b.slots j == k then rem_lock k else rem_check k (suc j))
      else returned 0,
)
move raw b (rem_lock k) = lock_acq b (rem_scan k 0) (rem_lock k)
move raw b (rem_scan k j) = (
  b,
  if ltb j (length b.slots)
      then (if key_at b.slots j == k then rem_val k j else rem_scan k (suc j))
      else unlock 0,
)
move raw b (rem_val k j) = (b, rem_key k j (val_at b.slots j))
move raw b (rem_key k j w) = (record b { slots = set_key b.slots j 0 }, unlock w)
move raw b (unlock r) = (record b { lock = lock_free }, returned r)
move raw b cpy_lock = lock_acq_resize b
move raw b (cpy_scan j c) = (
  b,
  if ltb j (length b.slots)
      then cpy_scan (suc j)
          (if key_at b.slots j == 0 then c else c ++ (key_at b.slots j, val_at b.slots j) ∷ [])
      else cpy_done c,
)
move raw b (cpy_done c) = (b, cpy_done c)
move raw b away = (b, away)
move raw b (returned r) = (b, returned r)

-- Where a call begins. The key 0 marks an empty slot, and no call is for it.
pub data Starts : Pc → Type 0 where
  get : {k : ℕ} → k ≢ 0 → Starts (get_val k 0)
  put : {k v : ℕ} → k ≢ 0 → Starts (put_check k v 0)
  update : {k v : ℕ} → k ≢ 0 → Starts (upd_lock k v)
  remove : {k : ℕ} → k ≢ 0 → Starts (rem_check k 0)
  resize : Starts cpy_lock

-- Between two calls.
abbrev pub at_rest : Pc → Bool
at_rest idle = true
at_rest (returned r) = true
at_rest away = true
at_rest p = false

pub record System : Type 0 where
  pub bin : Bin
  pub pc : ℕ → Pc

-- Any thread calls an operation, or moves; the memory of a new bucket may hold anything.
pub data Step (s : System) : System → Type 0 where
  call :
      (i : ℕ) {p : Pc}
      → at_rest (s.pc i) ≡ true
      → Starts p
      → Step s (record { bin = s.bin; pc = store s.pc i p })
  go :
      (i : ℕ) (raw : Bucket)
      → length raw.slots ≡ entries_per_bucket
      → Step s (record {
        bin = (move raw s.bin (s.pc i)).0;
        pc = store s.pc i (move raw s.bin (s.pc i)).1;
      })

-- All threads rest, and the chain holds `slots`.
abbrev pub init : List Kv → System
init slots = record { bin = record { lock = lock_free; slots = slots }; pc = λ i. Pc.idle }

pub data Reach (slots : List Kv) : System → Type 0 where
  start : Reach slots (init slots)
  later : {s t : System} → Reach slots s → Step s t → Reach slots t
