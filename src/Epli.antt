-- ===== src/Epli.antt =====
-- `EPLI`, the interface of the program: src/epli.h, as it is built by default, without USE_SWTABLE,
-- so that each method calls the tree; the statuses of the tree are dropped. The build with the
-- SW-Table in front of the tree is in Epli/Cached.
pub mod Spec
pub mod Refines
pub mod Cached
use epli.Prelude.{ℕ, List, [], ◌∷◌, ◌++◌, Option, none, some}
use epli.Index.{Index}
use epli.Tree
use epli.Tree.{Tree}

-- The calls of the four point operations.
pub data Op : Type 0 where
  put : (key val : ℕ) → Op
  update : (key val : ℕ) → Op
  get : (key : ℕ) → Op
  remove : (key : ℕ) → Op

module _ (ix : Index) where
  open ix use {Carrier}

  -- One call: the tree afterwards, and the value that a `Get` delivers. Two rounds are given to an
  -- insertion.
  unfoldable pub apply : Op → Tree Carrier → Option (Tree Carrier × List ℕ)
  apply (put k v) t = elim (Tree.insert ix 2 t k v) [ none ↦ none | some (t', s) ↦ some (t', []) ]
  apply (update k v) t = some ((Tree.update ix t k v).0, [])
  apply (get k) t = some (t, (Tree.get ix t k 0).1 ∷ [])
  apply (remove k) t = some ((Tree.remove ix t k).0, [])

  -- A sequence of calls, and the values that they deliver.
  unfoldable pub run : List Op → Tree Carrier → Option (Tree Carrier × List ℕ)
  run [] t = some (t, [])
  run (op ∷ ops) t = elim (apply op t) [
    | none ↦ none
    | some (t', out) ↦ elim (run ops t') [
      | none ↦ none
      | some (t'', outs) ↦ some (t'', out ++ outs)
    ]
  ]
