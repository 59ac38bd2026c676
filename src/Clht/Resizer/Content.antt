-- ===== src/Clht/Resizer/Content.antt =====
-- What the new table holds while the old one is copied and other threads work on it.
use epli.Prelude.{
  ◌∙◌, ap, ℕ, suc, ◌≤◌, ◌<◌, ◌≡◌, ◌≢◌, refl, sym, subst, arith, List, [], ◌∷◌, none, ltb, ◌==◌,
  if◌then◌else◌, store, Bool-cases, ==→eq, ltb→lt, inl, inr,
}
use epli.Entry.{Kv}
use epli.Entry.Slots.{lookup, count}
use epli.Clht.Threads.{System, cpy_done}
use epli.Clht.Threads.Copied.{valid_pairs}
use epli.Clht.Threads.Frozen.{Stays}
use epli.Clht.Resizer.{bin_of, Pes, before, inside, Resize}
use epli.Clht.Resizer.Keys.{IsBin}
use epli.Clht.Resizer.Phases.{Untouched, Taken}
use epli.Clht.Resizer.Copy.{found_in}

pub count-valid_pairs :
    (s : List Kv) (j : ℕ) → count j (valid_pairs s) ≡ (if j == 0 then 0 else count j s)
count-valid_pairs [] j = ground arith
count-valid_pairs ((k, v) ∷ s) j = ground (arith, count-valid_pairs s j)

-- How many bins are copied, and the first one that is not begun.
abbrev pub reached : Pes → ℕ
reached (before b) = b
reached (inside b) = b

abbrev pub ahead_of : Pes → ℕ
ahead_of (before b) = b
ahead_of (inside b) = suc b

abbrev pub TakenAt : (r : ℕ) → Pes → (ℕ → System) → Type 0
TakenAt r (before b) old = Unit
TakenAt r (inside b) old = Taken r (old b)

pub record Good (num to r : ℕ) (s : Resize) : Type 0 where
  pub bins : (b : ℕ) → IsBin num b (s.old b)
  pub ahead : (b : ℕ) → ahead_of s.pes ≤ b → Untouched (s.old b)
  pub taken : TakenAt r s.pes s.old
  pub behind : (b : ℕ) → b < reached s.pes → (c : List Kv) × ((s.old b).pc r ≡ cpy_done c)
  pub content :
      (k : ℕ)
      → k ≢ 0
      → found_in to s.new k ≡ (
          if ltb (bin_of num k) (reached s.pes)
          then lookup (s.old (bin_of num k)).bin.slots k
          else none)
  pub counts :
      (k : ℕ)
      → k ≢ 0
      → (b : ℕ)
      → count k (s.new b) ≡ (
          if bin_of to k == b
          then (if ltb (bin_of num k) (reached s.pes)
              then count k (s.old (bin_of num k)).bin.slots
              else 0)
          else 0)

-- A step inside the bin `a` of the old table.
module _ (num to r : ℕ) (s : Resize) (good : Good num to r s) (a : ℕ) (t : System)
    (bin : IsBin num a t) (free : Untouched (s.old a) → Untouched t)
    (kept : Taken r (s.old a) → Taken r t)
    (stays : (c : List Kv) → (s.old a).pc r ≡ cpy_done c → Stays r c (s.old a).bin.slots t) where
  bins_on : (b : ℕ) → IsBin num b (store s.old a t b)
  unfolding store
  bins_on b = elim (Bool-cases (b == a)) [
    | inl e ↦ rw e (rw (==→eq b a e) bin)
    | inr e ↦ rw e (good.bins b)
  ]

  taken_on : (p : Pes) → TakenAt r p s.old → TakenAt r p (store s.old a t)
  unfolding store
  taken_on (before b) h = tt
  taken_on (inside b) h = elim (Bool-cases (b == a)) [
    | inl e ↦ rw e (kept (subst (λ z. Taken r (s.old z)) (==→eq b a e) h))
    | inr e ↦ rw e h
  ]

  behind_on :
      (b : ℕ)
      → b < reached s.pes
      → (c : List Kv) × Stays r c (s.old b).bin.slots (store s.old a t b)
  unfolding store
  behind_on b lt =
      let (c, h) = good.behind b lt in
      elim (Bool-cases (b == a)) [
        | inl e ↦ (
          c,
          rw e (
              subst (λ z. Stays r c (s.old z).bin.slots t) (sym (==→eq b a e))
                (stays c (subst (λ z. (s.old z).pc r ≡ cpy_done c) (==→eq b a e) h))),
        )
        | inr e ↦ (c, rw e (record { done = h; same = refl }))
      ]

  ahead_on : (b : ℕ) → ahead_of s.pes ≤ b → Untouched (store s.old a t b)
  unfolding store
  ahead_on b le = elim (Bool-cases (b == a)) [
    | inl e ↦ rw e (free (subst (λ z. Untouched (s.old z)) (==→eq b a e) (good.ahead b le)))
    | inr e ↦ rw e (good.ahead b le)
  ]

  -- What is read of the copied bins stays.
  reads_on :
      {A : Type 0} (f : List Kv → A) (d : A) (k : ℕ)
      → (if ltb (bin_of num k) (reached s.pes) then f (s.old (bin_of num k)).bin.slots else d) ≡ (
          if ltb (bin_of num k) (reached s.pes)
          then f (store s.old a t (bin_of num k)).bin.slots
          else d)
  reads_on f d k = elim (Bool-cases (ltb (bin_of num k) (reached s.pes))) [
    | inl e ↦ rw (e, (behind_on _ (ltb→lt _ _ e)).1.same) refl
    | inr e ↦ rw e refl
  ]

  pub bin_step : Good num to r (record s { old = store s.old a t })
  bin_step = record {
    bins = bins_on;
    ahead = ahead_on;
    taken = taken_on s.pes good.taken;
    behind = λ b lt. let (c, h) = behind_on b lt in (c, h.done);
    content = λ k nk. good.content k nk ∙ reads_on (λ x. lookup x k) none k;
    counts = λ k nk b.
        good.counts k nk b ∙ ap (λ n. if bin_of to k == b then n else 0) (reads_on (count k) 0 k);
  }
