-- ===== src/Clht/Threads/Frozen.antt =====
-- A bin that `bucket_cpy` has taken for a resize: its writers wait for the new table.
use epli.Prelude.{
  ℕ, ◌≡◌, ◌≢◌, refl, arith, List, true, false, ◌∙◌, sym, ◌==◌, store_same, store_other, Bool-cases,
  inl, inr, ==→eq, subst,
}
use epli.Entry.{Kv}
use epli.Entry.Slots.{lookup}
use epli.Clht.Threads.{cpy_done, move, at_rest, System, Step, call, go, Reach, later}
use epli.Clht.Threads.State.{critical, IsFresh, HasUniqueKeys, Inv}
use epli.Clht.Threads.Copied.{valid_pairs, lookup-valid_pairs}
use epli.Clht.Threads.Moves.{move-slots}
use epli.Clht.Threads.Safety.{Reach-Inv}

-- Any number of steps.
pub data Run (s : System) : System → Type 0 where
  here : Run s s
  on : {t u : System} → Run s t → Step t u → Run s u

pub Run-Reach : {slots : List Kv} {s t : System} → Reach slots s → Run s t → Reach slots t
Run-Reach r here = r
Run-Reach r (on p st) = later (Run-Reach r p) st

-- The copy is done, and neither the thread nor the slots change.
pub record Stays (i : ℕ) (c s : List Kv) (t : System) : Type 0 where
  pub done : t.pc i ≡ cpy_done c
  pub same : t.bin.slots ≡ s

resting : (t : System) (i : ℕ) (c : List Kv) → t.pc i ≡ cpy_done c → at_rest (t.pc i) ≡ true → ⊥
resting t i c e r = let r' = rw e at r in cc (r')

pub Step-Stays :
    {t u : System} (i : ℕ) (c s : List Kv) → Inv t → Stays i c s t → Step t u → Stays i c s u
unfolding move
Step-Stays {t} i c s inv f (call j {p} rest st) = elim (Bool-cases (i == j)) [
  | inl e ↦
      absurd (resting t i c f.done (subst (λ n. at_rest (t.pc n) ≡ true) (sym (==→eq i j e)) rest))
  | inr e ↦ record {
    done = store_other t.pc j i p (λ z. ground (arith, e, z)) ∙ f.done;
    same = f.same;
  }
]
Step-Stays {t} i c s inv f (go j raw full) = elim (Bool-cases (i == j)) [
  | inl e ↦
      rw (sym (==→eq i j e), f.done)
        (record { done = store_same t.pc i (cpy_done c); same = f.same })
  | inr e ↦
      let inside : critical (t.pc i) ≡ true = rw f.done refl in
      let out : critical (t.pc j) ≡ false = ground (arith, e, inv.alone i j inside) in
      record {
        done =
            store_other t.pc j i (move raw t.bin (t.pc j)).1 (λ z. ground (arith, e, z)) ∙ f.done;
        same = move-slots raw t.bin (t.pc j) out ∙ f.same;
      }
]

Run-Stays :
    {slots : List Kv} {s t : System} (i : ℕ) (c : List Kv)
    → HasUniqueKeys slots
    → Reach slots s
    → s.pc i ≡ cpy_done c
    → Run s t
    → Stays i c s.bin.slots t
Run-Stays i c u r e here = record { done = e; same = refl }
Run-Stays i c u r e (on p st) =
    Step-Stays i c _ (Reach-Inv u (Run-Reach r p)) (Run-Stays i c u r e p) st

-- Once `bucket_cpy` has gone through a bin that started with unique keys, no step of any thread
-- changes a slot of the bin, and what it has copied answers for each valid key as the bin does.
pub Run-frozen :
    {slots : List Kv} {s t : System} (i : ℕ) (c : List Kv)
    → HasUniqueKeys slots
    → Reach slots s
    → s.pc i ≡ cpy_done c
    → Run s t
    → (t.bin.slots ≡ s.bin.slots) × ((j : ℕ) → j ≢ 0 → lookup c j ≡ lookup t.bin.slots j)
Run-frozen {s} i c u r e p =
    let stays = Run-Stays i c u r e p in
    let pairs : c ≡ valid_pairs s.bin.slots =
      subst (IsFresh s.bin.slots) e ((Reach-Inv u r).fresh i) in
    (stays.same, λ j nj. rw (stays.same, pairs) (lookup-valid_pairs s.bin.slots j nj))
