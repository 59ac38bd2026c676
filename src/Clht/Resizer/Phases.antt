-- ===== src/Clht/Resizer/Phases.antt =====
-- A bin before, while and after thread `r` takes it for the resize.
use epli.Prelude.{
  ℕ, ◌≡◌, ◌≢◌, refl, subst, arith, true, false, Bool, ◌==◌, store, store_same, store_other,
  Bool-cases, inl, inr, ==→eq, sym, ◌∙◌,
}
use epli.Clht.{Bucket}
use epli.Clht.Resizer.{place, go_on}
use epli.Clht.Threads.{
  lock_resize, Pc, Bin, System, Starts, get, put, update, remove, resize, cpy_lock, cpy_scan,
  cpy_done, move, lock_acq, lock_acq_resize,
}

-- In `bucket_cpy`.
abbrev pub copies : Pc → Bool
copies cpy_lock = true
copies (cpy_scan j c) = true
copies (cpy_done c) = true
copies p = false

pub record Untouched (t : System) : Type 0 where
  pub open_lock : t.bin.lock ≢ lock_resize
  pub none_copies : (i : ℕ) → copies (t.pc i) ≡ false

pub record Taken (r : ℕ) (t : System) : Type 0 where
  pub copier : copies (t.pc r) ≡ true
  pub untaken : t.pc r ≡ cpy_lock → t.bin.lock ≢ lock_resize
  pub others : (i : ℕ) → i ≢ r → copies (t.pc i) ≡ false

Starts-copies : {p : Pc} → Starts p → p ≢ cpy_lock → copies p ≡ false
Starts-copies (get nk) n = refl
Starts-copies (put nk) n = refl
Starts-copies (update nk) n = refl
Starts-copies (remove nk) n = refl
Starts-copies resize n = absurd (n refl)

module _ (raw : Bucket) (a : Bin) where
  -- Only `bucket_cpy` takes the lock for a resize.
  move-copies : (p : Pc) → copies p ≡ false → copies (move raw a p).1 ≡ false
  unfolding move lock_acq lock_acq_resize
  move-copies p h = ground arith

  move-lock : (p : Pc) → copies p ≡ false → a.lock ≢ 2 → (move raw a p).0.lock ≢ 2
  unfolding move lock_acq lock_acq_resize
  move-lock p h n = ground arith

  move-taken :
      (p : Pc) → copies p ≡ true → (p ≡ cpy_lock → a.lock ≢ 2) → copies (move raw a p).1 ≡ true
  unfolding move lock_acq lock_acq_resize
  move-taken p h n = ground arith

  move-untaken :
      (p : Pc)
      → copies p ≡ true
      → (p ≡ cpy_lock → a.lock ≢ 2)
      → (move raw a p).1 ≡ cpy_lock
      → (move raw a p).0.lock ≢ 2
  unfolding move lock_acq lock_acq_resize
  move-untaken p h n = ground arith

module _ (t : System) (i : ℕ) where
  pub Untouched-place : (p : Pc) → Starts p → p ≢ cpy_lock → Untouched t → Untouched (place t i p)
  unfolding store
  Untouched-place p st n u = record {
    open_lock = u.open_lock;
    none_copies = λ j. ground (arith, Starts-copies st n, u.none_copies j);
  }

  pub Untouched-go_on : (raw : Bucket) → Untouched t → Untouched (go_on t i raw)
  unfolding store
  Untouched-go_on raw u = record {
    open_lock = move-lock raw t.bin (t.pc i) (u.none_copies i) u.open_lock;
    none_copies = λ j. elim (Bool-cases (j == i)) [
      | inl e ↦ rw e (move-copies raw t.bin (t.pc i) (u.none_copies i))
      | inr e ↦ rw e (u.none_copies j)
    ];
  }

  -- Thread `r` starts `bucket_cpy`.
  pub Untouched-Taken : Untouched t → Taken i (place t i cpy_lock)
  unfolding store
  Untouched-Taken u = record {
    copier = rw (store_same t.pc i cpy_lock) refl;
    untaken = λ h. u.open_lock;
    others = λ j n. rw (store_other t.pc i j cpy_lock n) (u.none_copies j);
  }

module _ (r : ℕ) (t : System) (i : ℕ) where
  pub Taken-place : (p : Pc) → i ≢ r → Starts p → p ≢ cpy_lock → Taken r t → Taken r (place t i p)
  unfolding store
  Taken-place p ni st n u =
      let same = store_other t.pc i r p (λ e. ni (ground (arith, e))) in
      record {
        copier = rw same u.copier;
        untaken = λ h. u.untaken (sym same ∙ h);
        others = λ j nj. elim (Bool-cases (j == i)) [
          | inl e ↦ rw e (Starts-copies st n)
          | inr e ↦ rw e (u.others j nj)
        ];
      }

  Taken-own_move : (raw : Bucket) → i ≡ r → Taken r t → Taken r (go_on t i raw)
  unfolding store
  Taken-own_move raw e u =
      subst (λ z. Taken r (go_on t z raw)) (sym e)
        (record {
          copier = rw (store_same t.pc r _) (move-taken raw t.bin (t.pc r) u.copier u.untaken);
          untaken = λ h.
              move-untaken raw t.bin (t.pc r) u.copier u.untaken (sym (store_same t.pc r _) ∙ h);
          others = λ j nj. rw (store_other t.pc r j _ nj) (u.others j nj);
        })

  Taken-other_move : (raw : Bucket) → i ≢ r → Taken r t → Taken r (go_on t i raw)
  unfolding store
  Taken-other_move raw ni u =
      let same = store_other t.pc i r (move raw t.bin (t.pc i)).1 (λ e. ni (ground (arith, e))) in
      record {
        copier = rw same u.copier;
        untaken = λ h. move-lock raw t.bin (t.pc i) (u.others i ni) (u.untaken (sym same ∙ h));
        others = λ j nj. elim (Bool-cases (j == i)) [
          | inl e ↦ rw e (move-copies raw t.bin (t.pc i) (u.others i ni))
          | inr e ↦ rw e (u.others j nj)
        ];
      }

  pub Taken-go_on : (raw : Bucket) → Taken r t → Taken r (go_on t i raw)
  Taken-go_on raw u = elim (Bool-cases (i == r)) [
    | inl e ↦ Taken-own_move raw (==→eq i r e) u
    | inr e ↦ Taken-other_move raw (λ z. ground (arith, e, z)) u
  ]
