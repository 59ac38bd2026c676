-- ===== src/Epli/Spec.antt =====
-- What the interface promises, told by a map from keys to values.
use epli.Prelude.{ℕ, ◌≤◌, ◌≡◌, ◌≢◌, List, [], ◌∷◌, ◌++◌, Option, none, some, ◌==◌, if◌then◌else◌}
use epli.Clht.Chain.{or_zero}
use epli.Epli.{Op, put, update, get, remove}

abbrev pub Map : Type 0
Map = ℕ → Option ℕ

abbrev pub assign : Map → (key : ℕ) → Option ℕ → Map
assign m k o j = if j == k then o else m j

-- The new value, if there is an old one.
abbrev pub replaced : Option ℕ → (val : ℕ) → Option ℕ
replaced none v = none
replaced (some w) v = some v

unfoldable pub spec_apply : Op → Map → Map × List ℕ
spec_apply (put k v) m = (assign m k (some v), [])
spec_apply (update k v) m = (assign m k (replaced (m k) v), [])
spec_apply (get k) m = (m, or_zero (m k) ∷ [])
spec_apply (remove k) m = (assign m k none, [])

unfoldable pub spec_run : List Op → Map → Map × List ℕ
spec_run [] m = (m, [])
spec_run (op ∷ ops) m =
    let r = spec_apply op m in let rest = spec_run ops r.0 in (rest.0, r.1 ++ rest.1)

-- What a call may ask for: valid keys, and a put of an absent key that is not below `lo`.
unfoldable pub IsAllowed : (lo : ℕ) → Map → Op → Type 0
IsAllowed lo m (put k v) = (k ≢ 0) × (lo ≤ k) × (m k ≡ none)
IsAllowed lo m (update k v) = k ≢ 0
IsAllowed lo m (get k) = k ≢ 0
IsAllowed lo m (remove k) = k ≢ 0

unfoldable pub AreAllowed : (lo : ℕ) → Map → List Op → Type 0
AreAllowed lo m [] = Unit {0}
AreAllowed lo m (op ∷ ops) = IsAllowed lo m op × AreAllowed lo (spec_apply op m).0 ops
