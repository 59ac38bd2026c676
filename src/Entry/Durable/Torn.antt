-- ===== src/Entry/Durable/Torn.antt =====
-- A slot whose key ends a line and whose value begins the next: `clflush(&kvs[i])` leaves the value behind.
use epli.Prelude.{
  ℕ, zero, suc, ◌≡◌, refl, sym, ap, subst, arith, List, [], ◌∷◌, some, inl, inr, ◌==◌, false,
  Option-cases, ◌∙◌,
}
use epli.Entry.{Entry, Kv, set_key, set_val}
use epli.Entry.At.{key_at, val_at}
use epli.Entry.Durable.{
  Block, line, key_offset, val_offset, write_back, exec, Method, put, update, remove, run_method,
  slot, set_key_at, set_val_at, flush_at, stores_at, stores, Steps, start, next, clean, fits_at,
  fits,
}
use epli.Entry.Durable.Lines.{put_at, copy_line-put_at}
use epli.Entry.Durable.Crash.{final, slot_key, put_at_kept, put_at_val, run_method_found}

key_at-put_at :
    (s : List Kv) (i j a b c : ℕ) → key_at (put_at s i (a, b)) j ≡ key_at (put_at s i (a, c)) j
unfolding put_at set_key set_val
key_at-put_at [] i j a b c = refl
key_at-put_at ((x, w) ∷ s) zero zero a b c = refl
key_at-put_at ((x, w) ∷ s) zero (suc j) a b c = refl
key_at-put_at ((x, w) ∷ s) (suc i) zero a b c = refl
key_at-put_at ((x, w) ∷ s) (suc i) (suc j) a b c = key_at-put_at s i j a b c

val_at-put_at :
    (s : List Kv) (i j a b c : ℕ) → val_at (put_at s i (a, c)) j ≡ val_at (put_at s i (b, c)) j
unfolding put_at set_key set_val
val_at-put_at [] i j a b c = refl
val_at-put_at ((x, w) ∷ s) zero zero a b c = refl
val_at-put_at ((x, w) ∷ s) zero (suc j) a b c = refl
val_at-put_at ((x, w) ∷ s) (suc i) zero a b c = refl
val_at-put_at ((x, w) ∷ s) (suc i) (suc j) a b c = val_at-put_at s i j a b c

-- What the flush leaves in the slot.
flushed :
    (s : List Kv) (i a b v w : ℕ)
    → line (key_offset i) == line (val_offset i) ≡ false
    → write_back
        (line (key_offset i))
        (record { seen = put_at s i (a, v); stored = put_at s i (b, w) })
      ≡ record { seen = put_at s i (a, v); stored = put_at s i (a, w) }
unfolding write_back
flushed s i a b v w t =
    ap (λ x. record { seen = put_at s i (a, v); stored = x })
      (copy_line-put_at (line (key_offset i)) i (a, v) (b, w) 0 s i (omega arith)
        ∙ ap (put_at s i) (ground arith))

module _ (s : List Kv) (i a : ℕ) (h : key_at s i ≡ a)
    (t : line (key_offset i) == line (val_offset i) ≡ false) where
  torn_put :
      (k v : ℕ)
      → exec (flush_at i) (exec (set_key_at i k) (exec (set_val_at i v) (clean s)))
        ≡ record { seen = put_at s i (k, v); stored = put_at s i (k, val_at s i) }
  unfolding exec put_at
  torn_put k v =
      ap (λ x. write_back (line (key_offset i)) (record { seen = put_at s i (k, v); stored = x }))
        (sym (put_at_kept s i a h))
      ∙ flushed s i k a v (val_at s i) t

  torn_update :
      (v : ℕ)
      → exec (flush_at i) (exec (set_val_at i v) (clean s))
        ≡ record { seen = put_at s i (a, v); stored = put_at s i (a, val_at s i) }
  unfolding exec
  torn_update v =
      ap (λ x. write_back (line (key_offset i)) x)
        (rw (put_at_val s i a h v, put_at_kept s i a h) refl)
      ∙ flushed s i a a v (val_at s i) t

-- The method has returned; the memory has the keys that it leaves, and the values from before.
pub record Torn (o : Method) (e : Entry) (b : Block) : Type 0 where
  pub returned : Steps (stores o e.kvs) (clean e.kvs) [] b
  pub seen : b.seen ≡ (run_method o e).0.kvs
  pub keys : (j : ℕ) → key_at b.stored j ≡ key_at (run_method o e).0.kvs j
  pub vals : (j : ℕ) → val_at b.stored j ≡ val_at e.kvs j

returned-Torn :
    (o : Method) (e : Entry) (i : ℕ) (b : Block)
    → slot o e.kvs ≡ some i
    → Steps (stores_at o i) (clean e.kvs) [] b
    → b ≡ record {
      seen = put_at e.kvs i (final o (val_at e.kvs i));
      stored = put_at e.kvs i ((final o (val_at e.kvs i)).0, val_at e.kvs i);
    }
    → Torn o e b
unfolding stores
returned-Torn o e i b n h eb = record {
  returned = subst (λ x. Steps x (clean e.kvs) [] b) (rw (n, stores) refl) h;
  seen = rw (eb, run_method_found o e i n) refl;
  keys = λ j. rw (eb, run_method_found o e i n) (key_at-put_at e.kvs i j _ _ _);
  vals = λ j. rw eb (
      val_at-put_at e.kvs i j _ _ _
      ∙ ap (λ x. val_at x j) (put_at_kept e.kvs i _ (slot_key o e.kvs i n)));
}

slot-Torn :
    (o : Method) (e : Entry) (i : ℕ)
    → slot o e.kvs ≡ some i
    → fits_at o i ≡ false
    → (b : Block) × Torn o e b
slot-Torn (put k v) e i n f = (
  _,
  returned-Torn (put k v) e i _ n (next (next (next start)))
      (torn_put e.kvs i 0 (slot_key (put k v) e.kvs i n) f k v),
)
slot-Torn (update k v) e i n f = (
  _,
  returned-Torn (update k v) e i _ n (next (next start))
      (torn_update e.kvs i k (slot_key (update k v) e.kvs i n) f v),
)
slot-Torn (remove k) e i n f = absurd (cc)

-- When what `MaybePut` or `Update` stores stands in another line than the one that it flushes, it can
-- return with the array as it should be for the program, while the memory has the keys of that array and
-- the values of the one before.
pub fits-Torn : (o : Method) (e : Entry) → fits o e.kvs ≡ false → (b : Block) × Torn o e b
unfolding fits
fits-Torn o e f = elim (Option-cases (slot o e.kvs)) [
  | inl n ↦ absurd (cc (rw (n, fits) at f))
  | inr (i, n) ↦ slot-Torn o e i n (rw (n, fits) at f)
]
