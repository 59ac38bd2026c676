-- ===== src/Clht/Threads/Refines.antt =====
-- What the writers of one bin promise, whatever the order of their moves: each call takes effect in
-- one move, as if it ran alone.
use epli.Prelude.{
  ℕ, suc, ◌<◌, ◌≡◌, ◌≢◌, refl, arith, List, [], ◌∷◌, Option, none, some, Bool, true, false, length,
  ◌==◌, ltb, ◌&&◌, if◌then◌else◌, sym,
}
use epli.Entry.{Kv, set_key, set_val}
use epli.Entry.At.{
  key_at, lookup-key_at, lookup-set_val_empty, lookup-set_val_at, lookup-set_key_empty,
  lookup-clear_at,
}
use epli.Entry.Slots.{lookup, count, lookup-append, lookup-eq-none}
use epli.Clht.{Bucket, bucket_create, empty_keys, entries_per_bucket}
use epli.Clht.Chain.{lookup-empty_keys}
use epli.Clht.Threads.{
  lock_acq_resize, Bin, Pc, lock_acq, move, is_none, new_slots, put_scan, put_check, rem_scan,
  upd_scan, upd_val, rem_val, put_val, put_key, put_link, rem_key, unlock, returned,
}
use epli.Clht.Threads.State.{IsFresh, HasUniqueKeys, Scanned}
use epli.Clht.Threads.Spec.{Write, put, update, remove, perform, pending, commits, Effect}
use epli.Clht.Threads.Moves.{scanned_all}

Effect-if :
    (s s' : List Kv) (t : Bool) (p q q' : Pc)
    → (t ≡ true → Effect (commits p q) s s')
    → (t ≡ false → Effect (commits p q') s s')
    → Effect (commits p (if t then q else q')) s s'
Effect-if s s' true p q q' f g = f refl
Effect-if s s' false p q q' f g = g refl

lookup-first_slot :
    (j k v : ℕ) (s : List Kv)
    → 0 < length s
    → j ≢ 0
    → lookup (set_key (set_val (empty_keys s) 0 v) 0 k) j ≡ (if j == k then some v else none)
unfolding set_key set_val
lookup-first_slot j k v [] lt nj = absurd (omega arith)
lookup-first_slot j k v ((a, w) ∷ s) lt nj = ground (arith, lookup-empty_keys s j nj)

pub lookup-new_slots :
    (raw : Bucket) (j k v : ℕ)
    → length raw.slots ≡ entries_per_bucket
    → j ≢ 0
    → lookup (new_slots raw k v) j ≡ (if j == k then some v else none)
unfolding new_slots bucket_create
lookup-new_slots raw j k v full nj = lookup-first_slot j k v raw.slots (omega (arith, full)) nj

module _ (s : List Kv) (u : HasUniqueKeys s) where
  put_found : (k v j : ℕ) → k ≢ 0 → key_at s j ≡ k → Effect (some (put k v, 0)) s s
  put_found k v j nk h =
      let at = lookup-key_at k s j nk h (u k nk) in
      (nk, (λ i ni. rw (at, perform) refl, rw (at, perform) refl))

  update_missing : (k v : ℕ) → k ≢ 0 → count k s ≡ 0 → Effect (some (update k v, 0)) s s
  update_missing k v nk z =
      let at = lookup-eq-none s k z in (nk, (λ i ni. rw (at, perform) refl, rw (at, perform) refl))

  remove_missing : (k : ℕ) → k ≢ 0 → count k s ≡ 0 → Effect (some (remove k, 0)) s s
  remove_missing k nk z =
      let at = lookup-eq-none s k z in (nk, (λ i ni. rw (at, perform) refl, rw (at, perform) refl))

  scan_Effect :
      (p found next : Pc) (o : Write) (k j : ℕ)
      → pending p ≡ some o
      → Scanned s k j
      → ((key_at s j == k) ≡ true → Effect (commits p found) s s)
      → ((key_at s j == k) ≡ false → Effect (commits p next) s s)
      → (count k s ≡ 0 → Effect (some (o, 0)) s s)
      → Effect
          (commits p
            (if ltb j (length s) then (if key_at s j == k then found else next) else unlock 0))
          s
          s
  scan_Effect p found next o k j e f on_hit on_miss at_end =
      Effect-if s s (ltb j (length s)) p _ (unlock 0)
        (λ lt. Effect-if s s (key_at s j == k) p found next on_hit on_miss)
        (λ out. rw e (at_end (scanned_all s k j f out)))

  put_scan_Effect :
      (k v j : ℕ) (e : Option ℕ)
      → Scanned s k j
      → Effect
          (commits (put_scan k v j e) (
            if ltb j (length s)
            then (if key_at s j == k
                then unlock 0
                else put_scan k v (suc j) (if is_none e && (key_at s j == 0) then some j else e))
            else elim e [ none ↦ put_link k v | some i ↦ put_val k v i ]))
          s
          s
  put_scan_Effect k v j none f =
      Effect-if s s (ltb j (length s)) (put_scan k v j none) _ (put_link k v)
        (λ lt.
          Effect-if s s (key_at s j == k) (put_scan k v j none) (unlock 0) (put_scan k v (suc j) _)
            (λ h. put_found k v j f.0 (ground arith)) (λ h i ni. refl))
        (λ out i ni. refl)
  put_scan_Effect k v j (some e) f =
      Effect-if s s (ltb j (length s)) (put_scan k v j (some e)) _ (put_val k v e)
        (λ lt.
          Effect-if s s (key_at s j == k) (put_scan k v j (some e)) (unlock 0)
            (put_scan k v (suc j) _) (λ h. put_found k v j f.0 (ground arith)) (λ h i ni. refl))
        (λ out i ni. refl)

module _ (raw : Bucket) (full : length raw.slots ≡ entries_per_bucket) (b : Bin)
    (u : HasUniqueKeys b.slots) where
  pub move-Effect :
      (p : Pc)
      → IsFresh b.slots p
      → Effect (commits p (move raw b p).1) b.slots (move raw b p).0.slots
  unfolding move lock_acq lock_acq_resize
  move-Effect (put_check k v j) f =
      Effect-if b.slots b.slots (ltb j (length b.slots)) (put_check k v j) _ _
        (λ lt.
          Effect-if b.slots b.slots (key_at b.slots j == k) (put_check k v j) (returned 0)
            (put_check k v (suc j)) (λ h. put_found b.slots u k v j f (ground arith))
            (λ h i ni. refl))
        (λ out. λ i ni. refl)
  move-Effect (put_scan k v j e) f = put_scan_Effect b.slots u k v j e f.0
  move-Effect (put_val k v i) (nk, (z, (lt, h))) = λ j nj. lookup-set_val_empty j nj b.slots i v h
  move-Effect (put_key k v i) ((nk, (z, (lt, h))), q) =
      let at = lookup-eq-none b.slots k z in
      (
        nk,
        (
          λ j nj. rw (at, perform) (rw q at (lookup-set_key_empty j nj k b.slots i nk lt h z)),
          rw (at, perform) refl,
        ),
      )
  move-Effect (put_link k v) (nk, z) =
      let at = lookup-eq-none b.slots k z in
      (
        nk,
        (
          λ j nj.
              rw (at, perform)
                (ground (
                  arith,
                  lookup-append b.slots (new_slots raw k v) j,
                  lookup-new_slots raw j k v full nj,
                )),
          rw (at, perform) refl,
        ),
      )
  move-Effect (upd_scan k v j) f =
      scan_Effect b.slots u (upd_scan k v j) (upd_val k v j) (upd_scan k v (suc j)) (update k v) k j
        refl f (λ h i ni. refl) (λ h i ni. refl) (update_missing b.slots u k v f.0)
  move-Effect (upd_val k v i) (nk, h) =
      let at = lookup-key_at k b.slots i nk h (u k nk) in
      (
        nk,
        (
          λ j nj. rw (at, perform) (lookup-set_val_at j nj k v b.slots i nk h (u k nk)),
          rw (at, perform) refl,
        ),
      )
  move-Effect (rem_scan k j) f =
      scan_Effect b.slots u (rem_scan k j) (rem_val k j) (rem_scan k (suc j)) (remove k) k j refl f
        (λ h i ni. refl) (λ h i ni. refl) (remove_missing b.slots u k f.0)
  move-Effect (rem_key k i w) ((nk, h), q) =
      let at = lookup-key_at k b.slots i nk h (u k nk) in
      (
        nk,
        (
          λ j nj. rw (at, perform) (lookup-clear_at j nj k b.slots i nk h (u k nk)),
          rw (at, perform) (sym q),
        ),
      )
  move-Effect p f = ground arith
