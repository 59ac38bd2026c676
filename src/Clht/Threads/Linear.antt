-- ===== src/Clht/Threads/Linear.antt =====
-- Runs of `clht_put`, `clht_update` and `clht_remove` on one bin, in any order of their moves, beside
-- the operations that they stand for, one after another.
use epli.Prelude.{ℕ, ◌≡◌, ◌≢◌, arith, List, [], ◌∷◌, Option, none, some}
use epli.Entry.{Kv}
use epli.Clht.Threads.{move, System, call, go, Reach, start, later}
use epli.Clht.Threads.Spec.{Write, put, update, remove, op_key, Map, perform, commits}

abbrev pub settled : Option (Write × ℕ) → List (Write × ℕ) → List (Write × ℕ)
settled none h = h
settled (some c) h = c ∷ h

-- The operations that have taken effect, with what they return, the latest first.
abbrev pub history : {slots : List Kv} {s : System} → Reach slots s → List (Write × ℕ)
history start = []
history (later r (call i rest st)) = history r
history (later {s} r (go i raw full)) =
    settled (commits (s.pc i) (move raw s.bin (s.pc i)).1) (history r)

-- The map after the operations, the last of the list first, and the claim that each returns
-- what it returns alone.
abbrev pub replay : List (Write × ℕ) → Map → Map
replay [] m = m
replay ((o, r) ∷ h) m = (perform o (replay h m)).0

abbrev pub AnswerAlone : List (Write × ℕ) → Map → Type 0
AnswerAlone [] m = Unit
AnswerAlone ((o, r) ∷ h) m = (r ≡ (perform o (replay h m)).1) × AnswerAlone h m

-- An operation on a valid key sees nothing of the invalid one.
module _ (m n : Map) (same : (j : ℕ) → j ≢ 0 → m j ≡ n j) where
  pub perform-same :
      (o : Write)
      → op_key o ≢ 0
      → ((j : ℕ) → j ≢ 0 → (perform o m).0 j ≡ (perform o n).0 j)
        × ((perform o m).1 ≡ (perform o n).1)
  perform-same (put k v) nk =
      (λ j nj. ground (arith, same j nj, same k nk), ground (arith, same k nk))
  perform-same (update k v) nk =
      (λ j nj. ground (arith, same j nj, same k nk), ground (arith, same k nk))
  perform-same (remove k) nk =
      (λ j nj. ground (arith, same j nj, same k nk), ground (arith, same k nk))
