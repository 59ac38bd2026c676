-- ===== src/Clht/Threads/Reader.antt =====
-- The searches without the lock, `clht_get` and the `bucket_exists` of `clht_remove`, while other
-- threads write to the bin.
use epli.Prelude.{
  ℕ, zero, suc, ◌≤◌, ◌<◌, ◌≡◌, ◌≢◌, refl, arith, List, [], ◌∷◌, Bool, true, false, ◌==◌, store_same,
  store_other, Bool-cases, inl, inr, ==→eq, subst, sym,
}
use epli.Entry.{Kv}
use epli.Entry.At.{key_at, val_at, lt_of_key}
use epli.Entry.Slots.{count}
use epli.Clht.{Bucket}
use epli.Clht.Threads.{
  Bin, Pc, get_val, get_key, get_again, rem_check, rem_lock, returned, move, at_rest, System, Step,
  call, go, Reach, later,
}
use epli.Clht.Threads.State.{HasUniqueKeys}
use epli.Clht.Threads.Safety.{Reach-Inv}

abbrev pub searching : Pc → Bool
searching (get_val k j) = true
searching (get_key k j w) = true
searching (get_again k j w) = true
searching (rem_check k j) = true
searching p = false

-- A path on which thread `i` searches, and slot `j` holds the key `k` with the value `w`, in every
-- state but the last, where both are left open.
pub data Search (i j k w : ℕ) (s : System) : System → Type 0 where
  here : Search i j k w s s
  on :
      {t u : System}
      → Search i j k w s t
      → searching (t.pc i) ≡ true
      → key_at t.bin.slots j ≡ k
      → val_at t.bin.slots j ≡ w
      → Step t u
      → Search i j k w s u

count-pos : (k : ℕ) (s : List Kv) (p : ℕ) → k ≢ 0 → key_at s p ≡ k → 0 < count k s
count-pos k [] p nk h = absurd (nk (cc))
count-pos k ((a, w) ∷ s) zero nk h = ground arith
count-pos k ((a, w) ∷ s) (suc p) nk h = ground (arith, count-pos k s p nk h)

pub same_slot :
    (k : ℕ) (s : List Kv) (p q : ℕ)
    → k ≢ 0
    → count k s ≤ 1
    → key_at s p ≡ k
    → key_at s q ≡ k
    → p ≡ q
same_slot k [] p q nk u h g = absurd (nk (cc))
same_slot k ((a, w) ∷ s) zero zero nk u h g = refl
same_slot k ((a, w) ∷ s) zero (suc q) nk u h g = ground (arith, count-pos k s q)
same_slot k ((a, w) ∷ s) (suc p) zero nk u h g = ground (arith, count-pos k s p)
same_slot k ((a, w) ∷ s) (suc p) (suc q) nk u h g = ground (arith, same_slot k s p q)

rests : (p : Pc) → at_rest p ≡ true → searching p ≡ true → ⊥
rests p r c = ground arith

Search-Reach :
    {slots : List Kv} {i j k w : ℕ} {s t : System}
    → Reach slots s
    → Search i j k w s t
    → Reach slots t
Search-Reach r here = r
Search-Reach r (on p c h g st) = later (Search-Reach r p) st

module _ (j k w : ℕ) (exit : Pc) (nk : k ≢ 0) where
  -- The search has not passed the slot, and leaves for `exit`.
  abbrev OnTrack : Pc → Type 0
  OnTrack (get_val l p) = (exit ≡ returned w) × ((l ≡ k) × (p ≤ j))
  OnTrack (get_key l p x) = (exit ≡ returned w) × ((l ≡ k) × ((p ≤ j) × (p ≡ j → x ≡ w)))
  OnTrack (get_again l p x) = (exit ≡ returned w) × ((p ≡ j) × (x ≡ w))
  OnTrack (rem_check l p) = (exit ≡ rem_lock k) × ((l ≡ k) × (p ≤ j))
  OnTrack p = p ≡ exit

  move-OnTrack :
      (raw : Bucket) (b : Bin) (p : Pc)
      → count k b.slots ≤ 1
      → key_at b.slots j ≡ k
      → val_at b.slots j ≡ w
      → searching p ≡ true
      → OnTrack p
      → OnTrack (move raw b p).1
  unfolding move
  move-OnTrack raw b (get_val l p) u h g c f = ground (arith, lt_of_key b.slots j)
  move-OnTrack raw b (get_key l p x) u h g c f = ground (arith, same_slot k b.slots p j nk u)
  move-OnTrack raw b (get_again l p x) u h g c f = ground arith
  move-OnTrack raw b (rem_check l p) u h g c f = ground (arith, lt_of_key b.slots j)
  move-OnTrack raw b p u h g c f = cc

  ended : (p : Pc) → searching p ≡ false → OnTrack p → p ≡ exit
  ended (get_val l p) c f = cc
  ended (get_key l p x) c f = cc
  ended (get_again l p x) c f = cc
  ended (rem_check l p) c f = cc
  ended p c f = f

  Search-OnTrack :
      {slots : List Kv} {i : ℕ} {s t : System}
      → HasUniqueKeys slots
      → Reach slots s
      → OnTrack (s.pc i)
      → Search i j k w s t
      → OnTrack (t.pc i)
  Search-OnTrack u r f here = f
  Search-OnTrack {i} u r f (on {t} path c h g (call l {p} rest st)) =
      subst OnTrack
        (sym (
          store_other t.pc l i p
            (λ e. rests (t.pc l) rest (subst (λ n. searching (t.pc n) ≡ true) e c))))
        (Search-OnTrack u r f path)
  Search-OnTrack {i} u r f (on {t} p c h g (go l raw full)) =
      let before = Search-OnTrack u r f p in
      elim (Bool-cases (i == l)) [
        | inl e ↦
            let q : l ≡ i = sym (==→eq i l e) in
            rw (q, store_same t.pc i (move raw t.bin (t.pc i)).1)
              (move-OnTrack raw t.bin (t.pc i) ((Reach-Inv u (Search-Reach r p)).unique k nk) h g c
                before)
        | inr e ↦
            subst OnTrack
              (sym (store_other t.pc l i (move raw t.bin (t.pc l)).1 (λ z. ground (arith, e, z))))
              before
      ]

-- A `clht_get` of a valid key that stays in one slot, with one value, while the thread searches
-- returns that value, whatever the other threads do.
pub get-found :
    (i j k w : ℕ) {slots : List Kv} {s t : System}
    → HasUniqueKeys slots
    → Reach slots s
    → k ≢ 0
    → s.pc i ≡ get_val k 0
    → Search i j k w s t
    → searching (t.pc i) ≡ false
    → t.pc i ≡ returned w
get-found i j k w {s} {t} u r nk e p out =
    ended j k w (returned w) nk (t.pc i) out
      (Search-OnTrack j k w (returned w) nk u r (rw e (refl, (refl, omega arith))) p)

-- The search of a `clht_remove` for a valid key that stays in one slot, with one value, meanwhile
-- ends at the lock, whatever the other threads do: the call does not fail without it.
pub remove-found :
    (i j k w : ℕ) {slots : List Kv} {s t : System}
    → HasUniqueKeys slots
    → Reach slots s
    → k ≢ 0
    → s.pc i ≡ rem_check k 0
    → Search i j k w s t
    → searching (t.pc i) ≡ false
    → t.pc i ≡ rem_lock k
remove-found i j k w {s} {t} u r nk e p out =
    ended j k w (rem_lock k) nk (t.pc i) out
      (Search-OnTrack j k w (rem_lock k) nk u r (rw e (refl, (refl, omega arith))) p)
