-- ===== src/Entry/Durable/Crash.antt =====
-- A method whose words stand in one line, stopped at any moment: what the memory has then.
use epli.Prelude.{
  ℕ, zero, suc, ◌≡◌, ◌≢◌, refl, sym, ap, subst, arith, List, [], ◌∷◌, none, some, ◌⊎◌, inl, inr,
  true, ◌∙◌, Option-cases, length,
}
use epli.Entry.{Entry, Kv, find_key, set_key, set_val, maybe_put}
use epli.Entry
use epli.Entry.Slots.{lookup, count, count-set_val, length-set_val}
use epli.Entry.At.{key_at, val_at, lookup-set_val_empty}
use epli.Entry.Durable.{
  Block, Instr, write_back, Method, put, update, remove, run_method, slot, stores_at, stores, Steps,
  start, next, back, clean, fits_at, fits,
}
use epli.Entry.Durable.Lines.{put_at, put_at_same, set_val-put_at, set_key-put_at, copy_line_same}
use epli.Entry.Durable.Atomic.{
  Stage, put_ready, put_valued, put_keyed, put_back, put_done, update_ready, update_valued,
  update_back, update_done, remove_ready, remove_keyed, remove_back, remove_done, InSlot, in_slot,
  in_slot_lem, Steps-InSlot,
}

find_key-at : (s : List Kv) (k i : ℕ) → find_key s k ≡ some i → key_at s i ≡ k
unfolding find_key
find_key-at [] k i h = cc
find_key-at ((a, w) ∷ s) k zero h = ground arith
find_key-at ((a, w) ∷ s) k (suc i) h = ground (arith, find_key-at s k i)

-- The pair that the method leaves in its slot, which had the value `w`.
abbrev pub final : Method → (w : ℕ) → Kv
final (put k v) w = (k, v)
final (update k v) w = (k, v)
final (remove k) w = (0, w)

-- The key that it found there.
abbrev pub found : Method → ℕ
found (put k v) = 0
found (update k v) = k
found (remove k) = k

pub slot_key : (o : Method) (s : List Kv) (i : ℕ) → slot o s ≡ some i → key_at s i ≡ found o
unfolding slot
slot_key (put k v) s i h = find_key-at s 0 i h
slot_key (update k v) s i h = find_key-at s k i h
slot_key (remove k) s i h = find_key-at s k i h

module _ (s : List Kv) (i a : ℕ) (h : key_at s i ≡ a) where
  pub put_at_kept : put_at s i (a, val_at s i) ≡ s
  put_at_kept = rw (sym h) (put_at_same s i)

  pub put_at_val : (v : ℕ) → set_val s i v ≡ put_at s i (a, v)
  put_at_val v = ap (λ x. set_val x i v) (sym put_at_kept) ∙ set_val-put_at s i v (a, val_at s i)

  put_at_key : (k : ℕ) → set_key s i k ≡ put_at s i (k, val_at s i)
  put_at_key k = ap (λ x. set_key x i k) (sym put_at_kept) ∙ set_key-put_at s i k (a, val_at s i)

pub run_method_found :
    (o : Method) (e : Entry) (i : ℕ)
    → slot o e.kvs ≡ some i
    → (run_method o e).0.kvs ≡ put_at e.kvs i (final o (val_at e.kvs i))
unfolding run_method slot maybe_put Entry.update Entry.remove put_at
run_method_found (put k v) e i h = rw (h, maybe_put) refl
run_method_found (update k v) e i h =
    rw (h, Entry.update) (put_at_val e.kvs i k (find_key-at e.kvs k i h) v)
run_method_found (remove k) e i h =
    rw (h, Entry.remove) (put_at_key e.kvs i k (find_key-at e.kvs k i h) 0)

run_method_unfound : (o : Method) (e : Entry) → slot o e.kvs ≡ none → (run_method o e).0.kvs ≡ e.kvs
unfolding run_method slot maybe_put Entry.update Entry.remove
run_method_unfound (put k v) e h = rw (h, maybe_put) refl
run_method_unfound (update k v) e h = rw (h, Entry.update) refl
run_method_unfound (remove k) e h = rw (h, Entry.remove) refl

-- The same keys, once or more, with the same values; a value that has no key may differ.
pub record Alike (s s' : List Kv) : Type 0 where
  pub reads : (j : ℕ) → j ≢ 0 → lookup s' j ≡ lookup s j
  pub counts : (j : ℕ) → j ≢ 0 → count j s' ≡ count j s
  pub size : length s' ≡ length s

same_Alike : (s s' : List Kv) → s' ≡ s → Alike s s'
same_Alike s s' e = rw e (record { reads = λ j nj. refl; counts = λ j nj. refl; size = refl })

Alike-set_val : (s : List Kv) (i u : ℕ) → key_at s i ≡ 0 → Alike s (put_at s i (0, u))
Alike-set_val s i u h = rw (← put_at_val s i 0 h u) (record {
  reads = λ j nj. lookup-set_val_empty j nj s i u h;
  counts = λ j nj. count-set_val j 0 u s i;
  size = length-set_val s i u;
})

-- What the memory has at each stage: the array as it was, but for the value of a slot without a key, or
-- the finished one.
Stage-stored :
    (s : List Kv) (i : ℕ) (o : Method) (q : List Instr) (c d : Kv)
    → key_at s i ≡ found o
    → Stage i (val_at s i) o q c d
    → Alike s (put_at s i d) ⊎ (d ≡ final o (val_at s i))
Stage-stored s i o q c d h put_ready = inl (same_Alike s _ (put_at_kept s i 0 h))
Stage-stored s i o q c d h (put_valued u) = inl (Alike-set_val s i u h)
Stage-stored s i o q c d h (put_keyed u) = inl (Alike-set_val s i u h)
Stage-stored s i o q c d h put_back = inr refl
Stage-stored s i o q c d h put_done = inr refl
Stage-stored s i (update k v) q c d h update_ready = inl (same_Alike s _ (put_at_kept s i k h))
Stage-stored s i (update k v) q c d h update_valued = inl (same_Alike s _ (put_at_kept s i k h))
Stage-stored s i o q c d h update_back = inr refl
Stage-stored s i o q c d h update_done = inr refl
Stage-stored s i (remove k) q c d h remove_ready = inl (same_Alike s _ (put_at_kept s i k h))
Stage-stored s i (remove k) q c d h remove_keyed = inl (same_Alike s _ (put_at_kept s i k h))
Stage-stored s i o q c d h remove_back = inr refl
Stage-stored s i o q c d h remove_done = inr refl

Stage-finished :
    (i w : ℕ) (o : Method) (q : List Instr) (c d : Kv)
    → Stage i w o q c d
    → q ≡ []
    → (c ≡ final o w) × (d ≡ final o w)
Stage-finished i w o q c d put_ready h = absurd (cc)
Stage-finished i w o q c d (put_valued u) h = absurd (cc)
Stage-finished i w o q c d (put_keyed u) h = absurd (cc)
Stage-finished i w o q c d put_back h = absurd (cc)
Stage-finished i w o q c d put_done h = (refl, refl)
Stage-finished i w o q c d update_ready h = absurd (cc)
Stage-finished i w o q c d update_valued h = absurd (cc)
Stage-finished i w o q c d update_back h = absurd (cc)
Stage-finished i w o q c d update_done h = (refl, refl)
Stage-finished i w o q c d remove_ready h = absurd (cc)
Stage-finished i w o q c d remove_keyed h = absurd (cc)
Stage-finished i w o q c d remove_back h = absurd (cc)
Stage-finished i w o q c d remove_done h = (refl, refl)

Stage-starts :
    (s : List Kv) (i : ℕ) (o : Method)
    → key_at s i ≡ found o
    → InSlot s i o (stores_at o i) (clean s)
Stage-starts s i (put k v) h =
    in_slot_lem s i (put k v) _ s s (0, _) (0, _) (sym (put_at_kept s i 0 h))
      (sym (put_at_kept s i 0 h)) put_ready
Stage-starts s i (update k v) h =
    in_slot_lem s i (update k v) _ s s (k, _) (k, _) (sym (put_at_kept s i k h))
      (sym (put_at_kept s i k h)) update_ready
Stage-starts s i (remove k) h =
    in_slot_lem s i (remove k) _ s s (k, _) (k, _) (sym (put_at_kept s i k h))
      (sym (put_at_kept s i k h)) remove_ready

-- Without a slot there is nothing to store, and no line changes the memory.
nothing_stored :
    (s : List Kv) (q : List Instr) (b : Block) → Steps [] (clean s) q b → (q ≡ []) × (b ≡ clean s)
unfolding write_back
nothing_stored s q b start = (refl, refl)
nothing_stored s q b (next {i = x} {c = c} h) = absurd (cc ((nothing_stored s (x ∷ q) c h).0))
nothing_stored s q b (back {c = c} l h) =
    let (eq, eb) = nothing_stored s q c h in
    (eq, rw eb (ap (λ t. record { seen = s; stored = t }) (copy_line_same l 0 s)))

-- What the memory has while the method runs, and at its end.
pub record Crashes (o : Method) (e : Entry) (q : List Instr) (b : Block) : Type 0 where
  pub whole : Alike e.kvs b.stored ⊎ (b.stored ≡ (run_method o e).0.kvs)
  pub finished : q ≡ [] → b ≡ clean (run_method o e).0.kvs

InSlot-Crashes :
    (o : Method) (e : Entry) (i : ℕ) (q : List Instr) (b : Block)
    → slot o e.kvs ≡ some i
    → InSlot e.kvs i o q b
    → Crashes o e q b
InSlot-Crashes o e i q b h (in_slot c d g) = record {
  whole = elim (Stage-stored e.kvs i o q c d (slot_key o e.kvs i h) g) [
    | inl x ↦ inl x
    | inr x ↦ inr (ap (put_at e.kvs i) x ∙ sym (run_method_found o e i h))
  ];
  finished = λ n.
      let (x, y) = Stage-finished i (val_at e.kvs i) o q c d g n in
      rw (x, y, run_method_found o e i h) refl;
}

Unfound-Crashes :
    (o : Method) (e : Entry) (q : List Instr) (b : Block)
    → slot o e.kvs ≡ none
    → Steps [] (clean e.kvs) q b
    → Crashes o e q b
Unfound-Crashes o e q b n h =
    let (x, y) = nothing_stored e.kvs q b h in
    record {
      whole = inl (same_Alike e.kvs b.stored (rw y refl));
      finished = λ eq. rw (y, run_method_unfound o e n) refl;
    }

fits_found :
    (o : Method) (s : List Kv) (i : ℕ) → slot o s ≡ some i → fits o s ≡ true → fits_at o i ≡ true
unfolding fits
fits_found (put k v) s i n f = rw (n, fits) at f
fits_found (update k v) s i n f = rw (n, fits) at f
fits_found (remove k) s i n f = refl

pub Steps-Crashes :
    (o : Method) (e : Entry) (q : List Instr) (b : Block)
    → fits o e.kvs ≡ true
    → Steps (stores o e.kvs) (clean e.kvs) q b
    → Crashes o e q b
unfolding stores fits
Steps-Crashes o e q b f h = elim (Option-cases (slot o e.kvs)) [
  | inl n ↦
      Unfound-Crashes o e q b n (subst (λ x. Steps x (clean e.kvs) q b) (rw (n, stores) refl) h)
  | inr (i, n) ↦ InSlot-Crashes o e i q b n (
      Steps-InSlot e.kvs i o (clean e.kvs) (fits_found o e.kvs i n f)
        (Stage-starts e.kvs i o (slot_key o e.kvs i n)) q b
        (subst (λ x. Steps x (clean e.kvs) q b) (rw (n, stores) refl) h))
]
