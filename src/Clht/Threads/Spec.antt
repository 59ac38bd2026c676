-- ===== src/Clht/Threads/Spec.antt =====
-- What the writers of one bin promise: a put, an update or a removal of one key of a map, in one go.
-- A move of `clht_put`, `clht_update` or `clht_remove` settles the call, or leaves the map as it is.
use epli.Prelude.{ℕ, ◌≡◌, ◌≢◌, List, Option, none, some, ◌==◌, if◌then◌else◌}
use epli.Entry.{Kv}
use epli.Entry.Slots.{lookup}
use epli.Clht.Threads.{
  Pc, put_scan, put_check, rem_scan, upd_scan, upd_val, rem_val, put_val, put_key, put_link,
  rem_key, unlock, returned,
}

pub data Write : Type 0 where
  put : (k v : ℕ) → Write
  update : (k v : ℕ) → Write
  remove : (k : ℕ) → Write

abbrev pub op_key : Write → ℕ
op_key (put k v) = k
op_key (update k v) = k
op_key (remove k) = k

abbrev pub Map : Type 0
Map = ℕ → Option ℕ

abbrev pub assign : Map → ℕ → Option ℕ → Map
assign m k o j = if j == k then o else m j

-- An operation on the map, alone, and what it returns.
abbrev pub perform : Write → Map → Map × ℕ
perform (put k v) m = elim (m k) [ some w ↦ (m, 0) | none ↦ (assign m k (some v), 1) ]
perform (update k v) m = elim (m k) [ some w ↦ (assign m k (some v), 1) | none ↦ (m, 0) ]
perform (remove k) m = elim (m k) [ some w ↦ (assign m k none, w) | none ↦ (m, 0) ]

-- The call that a thread is in, until it has taken effect.
abbrev pub pending : Pc → Option Write
pending (put_check k v j) = some (put k v)
pending (put_scan k v j e) = some (put k v)
pending (put_val k v i) = some (put k v)
pending (put_key k v i) = some (put k v)
pending (put_link k v) = some (put k v)
pending (upd_scan k v j) = some (update k v)
pending (upd_val k v j) = some (update k v)
pending (rem_scan k j) = some (remove k)
pending (rem_val k j) = some (remove k)
pending (rem_key k j w) = some (remove k)
pending p = none

abbrev pub answered : Option Write → ℕ → Option (Write × ℕ)
answered none r = none
answered (some o) r = some (o, r)

-- The operation takes effect in the move that settles what it returns.
abbrev pub commits : Pc → Pc → Option (Write × ℕ)
commits p (unlock r) = answered (pending p) r
commits p (returned r) = answered (pending p) r
commits p p' = none

abbrev pub Effect : Option (Write × ℕ) → (s s' : List Kv) → Type 0
Effect none s s' = (j : ℕ) → j ≢ 0 → lookup s' j ≡ lookup s j
Effect (some (o, r)) s s' =
    (op_key o ≢ 0)
    × (((j : ℕ) → j ≢ 0 → lookup s' j ≡ (perform o (lookup s)).0 j)
        × (r ≡ (perform o (lookup s)).1))
