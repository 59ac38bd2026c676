-- ===== src/Entry/Durable/Series.antt =====
-- Methods one after the other on one entry, and which slots are safe.
use epli.Prelude.{ℕ, ◌%◌, ◌≡◌, ◌≢◌, refl, subst, arith, List, [], ◌∷◌, some, true}
use epli.Entry.{Entry, Kv}
use epli.Entry.Durable.{
  Block, Instr, Method, put, update, remove, slot, stores, Steps, Calls, none_yet, call, clean,
  fits, run_all, all_fit,
}
use epli.Entry.Durable.Crash.{Crashes, Steps-Crashes}

module _ (e : Entry) where
  -- When the words of every call stand in one line, the memory has each call that has returned.
  pub Calls-clean :
      (os : List Method) (c : Block)
      → all_fit os e ≡ true
      → Calls (clean e.kvs) os c
      → c ≡ clean (run_all os e).kvs
  Calls-clean os c f none_yet = refl
  Calls-clean (o ∷ os) c f (call {c = b} r h) =
      let eb = Calls-clean os b (ground arith) r in
      (Steps-Crashes o (run_all os e) [] c (ground arith)
          (subst (λ x. Steps (stores o x.seen) x [] c) eb h)).finished
        refl

-- `MaybePut`, `Update` and `Remove` run one after another on an entry that the memory has, all that
-- each stores stands in the line that it flushes, and cache lines are written back at any moments. When
-- the machine stops during the last call, each key has in the memory what it had when the calls before
-- it had returned, or the array is the one that the call leaves; and it is that one once it has returned.
pub Calls-Crashes :
    (o : Method) (os : List Method) (e : Entry) (c d : Block) (q : List Instr)
    → all_fit (o ∷ os) e ≡ true
    → Calls (clean e.kvs) os c
    → Steps (stores o c.seen) c q d
    → Crashes o (run_all os e) q d
Calls-Crashes o os e c d q f r h =
    Steps-Crashes o (run_all os e) q d (ground arith)
      (subst (λ x. Steps (stores o x.seen) x q d) (Calls-clean e os c (ground arith) r) h)

-- Every slot but 2, 6 and 10 is in one line.
pub fits_lem : (o : Method) (s : List Kv) (i : ℕ) → slot o s ≡ some i → i % 4 ≢ 2 → fits o s ≡ true
unfolding fits
fits_lem (put k v) s i h n = rw (h, fits) (ground arith)
fits_lem (update k v) s i h n = rw (h, fits) (ground arith)
fits_lem (remove k) s i h n = rw (h, fits) refl
