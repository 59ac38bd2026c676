-- ===== src/Tests/Durable.antt =====
-- The theorems on the cache lines of an entry, applied to an empty entry, to one whose slot 2 is next, and to a tree.
use epli.Prelude.{ℕ, ◌≡◌, ◌≢◌, ◌⊎◌, ◌==◌, if◌then◌else◌, some, arith, refl, List, [], ◌∷◌}
use epli.Entry.{Entry, Kv, zeroed}
use epli.Entry.Durable.{
  Block, Method, put, update, set_key_at, flush_at, exec, set_val_at, Steps, start, next, back,
  write_back, Calls, none_yet, call, clean, run_all,
}
use epli.Index.{Pairs}
use epli.Tree.{Tree, locate}
use epli.Tree.State.{contents}
use epli.Tree.Load.{recover}
use epli.Tree.Durable.Restart.{recover-Survives}
use epli.Tree.Durable.{Survives, survivor, method-Survives}
use epli.Tests.{list_index, one_pair, one_tree, one_tree-IsTree}
use epli.Entry.Durable.Crash.{Crashes}
use epli.Entry.Durable.Series.{Calls-Crashes}
use epli.Entry.Durable.Torn.{Torn, fits-Torn}

abbrev small_entry : List Kv → Entry
small_entry s = record { next = 0; min_key = 1; flag = 0; kvs = s }

-- The second of two puts has stored its value, and its line has been written back.
abbrev second_put : Block
second_put = write_back 0 (exec (set_val_at 1 70) (clean ((5, 50) ∷ (0, 0) ∷ (0, 0) ∷ [])))

Calls-Crashes_example :
    Crashes
      (put 7 70)
      (run_all (put 5 50 ∷ []) (small_entry ((0, 0) ∷ (0, 0) ∷ (0, 0) ∷ [])))
      (set_key_at 1 7 ∷ flush_at 1 ∷ [])
      second_put
unfolding epli.Entry.Durable.fits epli.Entry.Durable.run_method epli.Entry.Durable.stores exec
Calls-Crashes_example =
    Calls-Crashes (put 7 70) (put 5 50 ∷ []) (small_entry ((0, 0) ∷ (0, 0) ∷ (0, 0) ∷ []))
      (clean ((5, 50) ∷ (0, 0) ∷ (0, 0) ∷ [])) second_put (set_key_at 1 7 ∷ flush_at 1 ∷ []) refl
      (call none_yet (next (next (next start)))) (back 0 (next start))

fits-Torn_example : (b : Block) × Torn (put 7 70) (small_entry ((3, 30) ∷ (5, 50) ∷ (0, 9) ∷ [])) b
unfolding epli.Entry.Durable.fits
fits-Torn_example = fits-Torn (put 7 70) (small_entry ((3, 30) ∷ (5, 50) ∷ (0, 9) ∷ [])) refl

-- `Update` of the key in slot 0 has stored the value in the cache.
abbrev updated : Block
updated = exec (set_val_at 0 51) (clean one_pair)

method-Survives_example :
    Survives list_index one_tree 0
      (update 5 51)
      (flush_at 0 ∷ [])
      (survivor list_index one_tree 4096 updated)
unfolding locate epli.Entry.Durable.fits epli.Entry.Durable.stores exec
method-Survives_example =
    method-Survives list_index one_tree-IsTree (update 5 51) (λ e. omega (arith, e)) (omega arith)
      4096 (flush_at 0 ∷ []) updated refl (λ h. cc) refl (next start)

-- What is left of the tree when the machine starts again.
abbrev left_over : Tree Pairs
left_over = record (survivor list_index one_tree 4096 updated) { index = [] }

recover-Survives_example :
    (u : Tree Pairs) × (recover list_index 3 left_over ≡ some u)
    × (((j : ℕ) → j ≢ 0 → contents list_index u j ≡ contents list_index one_tree j)
        ⊎ ((j : ℕ)
            → j ≢ 0
            → contents list_index u j
              ≡ (if j == 5 then some 51 else contents list_index one_tree j)))
unfolding locate epli.Entry.Durable.fits epli.Entry.Durable.stores exec
recover-Survives_example =
    recover-Survives list_index one_tree-IsTree refl (update 5 51) (λ e. omega (arith, e))
      (omega arith) 4096 (flush_at 0 ∷ []) updated refl (λ h. cc) refl (next start) 3 left_over refl
      refl refl (omega arith)
