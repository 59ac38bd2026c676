-- ===== src/Clht/Threads/Moves.antt =====
-- One move of one thread over a bin: what it keeps of the invariant.
use epli.Prelude.{
  ℕ, suc, ◌<◌, ◌≡◌, ◌≢◌, refl, subst, arith, List, [], ◌∷◌, ◌++◌, ap, Option, none, some, Bool,
  true, false, length, take, ◌==◌, ltb, ◌∙◌, ◌&&◌, if◌then◌else◌, Bool-cases, inl, inr,
}
use epli.Entry.{Kv, set_key, set_val}
use epli.Entry.At.{
  val_at, key_at, count-take-suc, take-all, key_at-set_val, val_at-set_val, count-set_key_empty,
}
use epli.Entry.Slots.{count, count-append, count-set_val, count-clear-le, length-set_val}
use epli.Clht.{Bucket, bucket_create, empty_keys, entries_per_bucket}
use epli.Clht.Chain.{count-empty_keys}
use epli.Clht.Threads.{
  Bin, Pc, put_lock, put_scan, put_val, put_key, put_link, upd_lock, upd_scan, upd_val, rem_lock,
  rem_scan, rem_val, rem_key, unlock, returned, cpy_lock, cpy_scan, cpy_done, away, move, new_slots,
  lock_acq, lock_acq_resize, is_none,
}
use epli.Clht.Threads.Copied.{valid_pairs, valid_pairs-take-suc}
use epli.Clht.Threads.State.{critical, IsFresh, HasUniqueKeys, Scanned, Occupied, IsEmpty}

-- Outside the lock a thread knows nothing of the slots,
pub IsFresh-any : (p : Pc) (s s' : List Kv) → critical p ≡ false → IsFresh s p → IsFresh s' p
IsFresh-any (put_scan k v j e) s s' c f = cc
IsFresh-any (put_val k v i) s s' c f = cc
IsFresh-any (put_key k v i) s s' c f = cc
IsFresh-any (put_link k v) s s' c f = cc
IsFresh-any (upd_scan k v j) s s' c f = cc
IsFresh-any (upd_val k v j) s s' c f = cc
IsFresh-any (rem_scan k j) s s' c f = cc
IsFresh-any (rem_val k j) s s' c f = cc
IsFresh-any (rem_key k j w) s s' c f = cc
IsFresh-any (cpy_scan j d) s s' c f = cc
IsFresh-any (cpy_done d) s s' c f = cc
IsFresh-any p s s' c f = f

-- and it changes none.
pub move-slots :
    (raw : Bucket) (b : Bin) (p : Pc) → critical p ≡ false → (move raw b p).0.slots ≡ b.slots
unfolding move
move-slots raw b p c = ground arith

count-first_slot :
    (j k v : ℕ) (s : List Kv)
    → 0 < length s
    → j ≢ 0
    → count j (set_key (set_val (empty_keys s) 0 v) 0 k) ≡ (if j == k then 1 else 0)
unfolding set_key set_val
count-first_slot j k v [] lt nj = absurd (omega arith)
count-first_slot j k v ((a, w) ∷ s) lt nj = ground (arith, count-empty_keys s j nj)

pub count-new_slots :
    (raw : Bucket) (j k v : ℕ)
    → length raw.slots ≡ entries_per_bucket
    → j ≢ 0
    → count j (new_slots raw k v) ≡ (if j == k then 1 else 0)
unfolding new_slots bucket_create
count-new_slots raw j k v full nj = count-first_slot j k v raw.slots (omega (arith, full)) nj

IsFresh-if :
    (s : List Kv) (t : Bool) (p q : Pc)
    → (t ≡ true → IsFresh s p)
    → (t ≡ false → IsFresh s q)
    → IsFresh s (if t then p else q)
IsFresh-if s true p q yes_p no_q = yes_p refl
IsFresh-if s false p q yes_p no_q = no_q refl

module _ (s : List Kv) (k j : ℕ) (f : Scanned s k j) where
  -- A scan goes on to the next slot,
  scan_on : (key_at s j == k) ≡ false → Scanned s k (suc j)
  scan_on ne = (f.0, count-take-suc k s j f.0 f.1 (ground arith))

  -- and behind the last one it has read them all.
  pub scanned_all : ltb j (length s) ≡ false → count k s ≡ 0
  scanned_all out = subst (λ t. count k t ≡ 0) (take-all s j (ground arith)) f.1

  hit : (key_at s j == k) ≡ true → Occupied s k j
  hit e = (f.0, ground arith)

  scan_step :
      (found next end : Pc)
      → (Occupied s k j → IsFresh s found)
      → (Scanned s k (suc j) → IsFresh s next)
      → (count k s ≡ 0 → IsFresh s end)
      → IsFresh s (if ltb j (length s) then (if key_at s j == k then found else next) else end)
  scan_step found next end on_hit on_miss at_end =
      IsFresh-if s (ltb j (length s)) _ end
        (λ lt.
          IsFresh-if s (key_at s j == k) found next (λ e. on_hit (hit e))
            (λ e. on_miss (scan_on e)))
        (λ out. at_end (scanned_all out))

IsEmpty-next :
    (s : List Kv) (j : ℕ) (e : Option ℕ)
    → j < length s
    → IsEmpty s e
    → IsEmpty s (if is_none e && (key_at s j == 0) then some j else e)
IsEmpty-next s j none lt f = ground arith
IsEmpty-next s j (some i) lt f = f

put_target :
    (s : List Kv) (k v j : ℕ) (e : Option ℕ)
    → Scanned s k j
    → IsEmpty s e
    → ltb j (length s) ≡ false
    → IsFresh s (elim e [ none ↦ put_link k v | some i ↦ put_val k v i ])
put_target s k v j none f g out = (f.0, scanned_all s k j f out)
put_target s k v j (some i) f g out = (f.0, (scanned_all s k j f out, g))

put_scan_on :
    (s : List Kv) (k v j : ℕ) (e : Option ℕ)
    → IsFresh s (put_scan k v j e)
    → IsFresh s (
        if ltb j (length s)
        then (if key_at s j == k
            then unlock 0
            else put_scan k v (suc j) (if is_none e && (key_at s j == 0) then some j else e))
        else elim e [ none ↦ put_link k v | some i ↦ put_val k v i ])
put_scan_on s k v j e (f, g) =
    IsFresh-if s (ltb j (length s)) _ _
      (λ lt.
        IsFresh-if s (key_at s j == k) _ _ (λ h. tt)
          (λ h. (scan_on s k j f h, IsEmpty-next s j e (ground arith) g)))
      (λ out. put_target s k v j e f g out)

take_lock :
    (b : Bin) (next again : Pc)
    → IsFresh b.slots next
    → IsFresh b.slots again
    → IsFresh (lock_acq b next again).0.slots (lock_acq b next again).1
unfolding lock_acq
take_lock b next again f g = elim (Bool-cases (b.lock == 0)) [
  | inl e ↦ rw e f
  | inr e ↦ rw e (IsFresh-if b.slots (b.lock == 2) away again (λ h. tt) (λ h. g))
]

take_resize_lock : (b : Bin) → IsFresh (lock_acq_resize b).0.slots (lock_acq_resize b).1
unfolding lock_acq_resize
take_resize_lock b = elim (Bool-cases (b.lock == 0)) [
  | inl e ↦ rw e refl
  | inr e ↦ rw e (IsFresh-if b.slots (b.lock == 2) (returned 0) cpy_lock (λ h. tt) (λ h. tt))
]

copy_on :
    (s : List Kv) (j : ℕ) (c : List Kv)
    → c ≡ valid_pairs (take j s)
    → IsFresh s (
        if ltb j (length s)
        then cpy_scan (suc j) (if key_at s j == 0 then c else c ++ (key_at s j, val_at s j) ∷ [])
        else cpy_done c)
copy_on s j c f =
    IsFresh-if s (ltb j (length s)) _ (cpy_done c)
      (λ lt. rw (valid_pairs-take-suc s j (ground arith), f) refl)
      (λ out. f ∙ ap valid_pairs (take-all s j (ground arith)))

module _ (raw : Bucket) (full : length raw.slots ≡ entries_per_bucket) (b : Bin) where
  pub move_unique :
      (p : Pc) → IsFresh b.slots p → HasUniqueKeys b.slots → HasUniqueKeys (move raw b p).0.slots
  unfolding move
  move_unique (put_val k v i) f u j nj = omega (arith, count-set_val j k v b.slots i, u j nj)
  move_unique (put_key k v i) ((nk, (z, (lt, h))), q) u j nj =
      ground (arith, count-set_key_empty j nj k b.slots i lt h, u j nj)
  move_unique (put_link k v) (nk, z) u j nj =
      ground (
        arith,
        count-append b.slots (new_slots raw k v) j,
        count-new_slots raw j k v full nj,
        u j nj,
      )
  move_unique (upd_val k v i) f u j nj = omega (arith, count-set_val j k v b.slots i, u j nj)
  move_unique (rem_key k i w) f u j nj = omega (arith, count-clear-le j k b.slots i nj, u j nj)
  move_unique p f u j nj = ground (arith, u j nj)

  pub move-IsFresh : (p : Pc) → IsFresh b.slots p → IsFresh (move raw b p).0.slots (move raw b p).1
  unfolding move lock_acq lock_acq_resize
  move-IsFresh (put_lock k v) f = take_lock b (put_scan k v 0 none) (put_lock k v) ((f, refl), tt) f
  move-IsFresh (put_scan k v j e) f = put_scan_on b.slots k v j e f
  move-IsFresh (put_val k v i) (nk, (z, (lt, h))) = (
    (
      nk,
      (
        count-set_val k k v b.slots i ∙ z,
        (omega (arith, length-set_val b.slots i v), key_at-set_val b.slots i i v ∙ h),
      ),
    ),
    val_at-set_val b.slots i v lt,
  )
  move-IsFresh (put_key k v i) f = tt
  move-IsFresh (put_link k v) f = tt
  move-IsFresh (upd_lock k v) f = take_lock b (upd_scan k v 0) (upd_lock k v) (f, refl) f
  move-IsFresh (upd_scan k v j) f =
      scan_step b.slots k j f (upd_val k v j) (upd_scan k v (suc j)) (unlock 0) (λ o. o) (λ o. o)
        (λ o. tt)
  move-IsFresh (upd_val k v j) f = tt
  move-IsFresh (rem_lock k) f = take_lock b (rem_scan k 0) (rem_lock k) (f, refl) f
  move-IsFresh (rem_scan k j) f =
      scan_step b.slots k j f (rem_val k j) (rem_scan k (suc j)) (unlock 0) (λ o. o) (λ o. o)
        (λ o. tt)
  move-IsFresh (rem_val k j) f = (f, refl)
  move-IsFresh (rem_key k j w) f = tt
  move-IsFresh cpy_lock f = take_resize_lock b
  move-IsFresh (cpy_scan j c) f = copy_on b.slots j c f
  move-IsFresh (cpy_done c) f = f
  move-IsFresh p f = ground arith
