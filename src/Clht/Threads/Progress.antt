-- ===== src/Clht/Threads/Progress.antt =====
-- How long a thread is inside `LOCK_ACQ` and `LOCK_RLS` of `clht_put`, `clht_update` and `clht_remove`.
use epli.Prelude.{
  ℕ, Bool, suc, ◌+◌, ◌-◌, ◌≤◌, ◌<◌, ◌≡◌, arith, List, none, some, true, false, ◌==◌, if◌then◌else◌,
  length, store_same, store_other, Bool-cases, inl, inr, subst, ==→eq,
}
use epli.Entry.{Kv}
use epli.Clht.{Bucket}
use epli.Clht.Threads.{
  Bin, Pc, put_scan, put_val, put_key, put_link, upd_scan, upd_val, rem_scan, rem_val, rem_key,
  unlock, cpy_scan, cpy_done, move, at_rest, System, Step, call, go, Reach, later,
}
use epli.Clht.Threads.State.{critical, HasUniqueKeys, Inv}
use epli.Clht.Threads.Moves.{move-slots}
use epli.Clht.Threads.Safety.{Reach-Inv}

abbrev pub mover : {s t : System} → Step s t → ℕ
mover (call i rest st) = i
mover (go i raw full) = i

-- Between `LOCK_ACQ` and `LOCK_RLS`.
abbrev pub writing : Pc → Bool
writing (cpy_scan j c) = false
writing (cpy_done c) = false
writing p = critical p

-- The moves of thread `i` on a path through whose states it is inside, the last one left open.
pub data Inside (i : ℕ) (s : System) : System → ℕ → Type 0 where
  here : Inside i s s 0
  on :
      {t u : System} {n : ℕ}
      → Inside i s t n
      → writing (t.pc i) ≡ true
      → (st : Step t u) → Inside i s u (if mover st == i then suc n else n)

-- The moves that are left until the lock is released, at most.
abbrev pub left : (size : ℕ) → Pc → ℕ
left n (put_scan k v j e) = n - j + 4
left n (put_val k v i) = 3
left n (put_key k v i) = 2
left n (put_link k v) = 2
left n (upd_scan k v j) = n - j + 3
left n (upd_val k v j) = 2
left n (rem_scan k j) = n - j + 4
left n (rem_val k j) = 3
left n (rem_key k j w) = 2
left n (unlock r) = 1
left n p = 0

abbrev left_in : System → ℕ → ℕ
left_in s i = left (length s.bin.slots) (s.pc i)

left-le : (n : ℕ) (p : Pc) → left n p ≤ n + 4
left-le n p = ground arith

move-left :
    (raw : Bucket) (b : Bin) (p : Pc)
    → writing p ≡ true
    → left (length (move raw b p).0.slots) (move raw b p).1 < left (length b.slots) p
unfolding move
move-left raw b (put_scan k v j none) c = ground arith
move-left raw b (put_scan k v j (some e)) c = ground arith
move-left raw b (put_key k v i) c = omega arith
move-left raw b p c = ground arith

writing-critical : (p : Pc) → writing p ≡ true → critical p ≡ true
writing-critical p c = ground arith

rests : (p : Pc) → at_rest p ≡ true → writing p ≡ true → ⊥
rests p r c = ground arith

Step-left :
    {s t : System} (i : ℕ)
    → Inv s
    → writing (s.pc i) ≡ true
    → (st : Step s t) → (if mover st == i then suc (left_in t i) else left_in t i) ≤ left_in s i
Step-left {s} i inv c (call j {p} rest st) = elim (Bool-cases (j == i)) [
  | inl e ↦ absurd (rests (s.pc i) (subst (λ k. at_rest (s.pc k) ≡ true) (==→eq j i e) rest) c)
  | inr e ↦ rw (e, store_other s.pc j i p (λ z. ground (arith, e, z))) (omega arith)
]
Step-left {s} i inv c (go j raw full) = elim (Bool-cases (j == i)) [
  | inl e ↦
      let q = ==→eq j i e in
      rw (e, q, store_same s.pc i (move raw s.bin (s.pc i)).1) (move-left raw s.bin (s.pc i) c)
  | inr e ↦
      let out : critical (s.pc j) ≡ false =
        ground (arith, e, inv.alone i j (writing-critical (s.pc i) c)) in
      rw
        (
          e,
          store_other s.pc j i (move raw s.bin (s.pc j)).1 (λ z. ground (arith, e, z)),
          move-slots raw s.bin (s.pc j) out,
        )
        (omega arith)
]

pub Inside-Reach :
    {slots : List Kv} {i : ℕ} {s t : System} {n : ℕ}
    → Reach slots s
    → Inside i s t n
    → Reach slots t
Inside-Reach r here = r
Inside-Reach r (on p c st) = later (Inside-Reach r p) st

Inside-left :
    {slots : List Kv} {i : ℕ} {s t : System} {n : ℕ}
    → HasUniqueKeys slots
    → Reach slots s
    → Inside i s t n
    → n + left_in t i ≤ left_in s i
Inside-left u r here = omega arith
Inside-left {i} u r (on p c st) =
    ground (arith, Inside-left u r p, Step-left i (Reach-Inv u (Inside-Reach r p)) c st)

-- From any state that the threads reach from a bin with unique keys, a thread makes at most four
-- moves more than the chain has slots before it has released the lock, whatever the others do meanwhile.
pub Inside-le :
    {slots : List Kv} {i : ℕ} {s t : System} {n : ℕ}
    → HasUniqueKeys slots
    → Reach slots s
    → Inside i s t n
    → n ≤ length s.bin.slots + 4
Inside-le {i} {s} u r p = omega (arith, Inside-left u r p, left-le (length s.bin.slots) (s.pc i))
