-- ===== src/Tree/New.antt =====
-- A tree that has just been set up on an aligned region.
use epli.Prelude.{ℕ, ◌%◌, ◌≡◌, ◌≢◌, refl, arith, [], none, ◌∙◌, false, store_same}
use epli.Entry.{Entry, new_entry}
use epli.Entry.Slots.{lookup-replicate, count-replicate}
use epli.Entry.Methods.{IsValid}
use epli.Index.{Index}
use epli.Nvm.{Alloc, alloc_aligned}
use epli.Nvm.Bump.{alloc_aligned-IsAligned, alloc_aligned-Precedes}
use epli.Tree.{new_tree}
use epli.Tree.State.{IsTree, contents, contents-view}

new_entry-IsValid : (k : ℕ) → IsValid (new_entry k)
unfolding new_entry
new_entry-IsValid k = record {
  slots = refl;
  unique = λ j nj. rw (count-replicate 14 j nj) (omega arith);
}

module _ (ix : Index) (h : ℕ → Entry) (nvm : Alloc) (al : nvm.current_addr % 256 ≡ 0)
    (nz : nvm.current_addr ≢ 0) where
  new_tree-IsTree : IsTree ix (new_tree ix false h nvm) 0
  unfolding new_tree
  new_tree-IsTree =
      let a = alloc_aligned-IsAligned 256 256 nvm (omega arith) in
      let p = alloc_aligned-Precedes 256 256 256 nvm (omega arith) al refl in
      let n = (alloc_aligned 256 256 nvm).0 in
      record {
        later = [];
        stored = ix.pairs-insert ix.empty 0 n (rw ix.pairs-empty) ∙ rw ix.pairs-empty;
        chain =
            rw (store_same h n (new_entry 0))
              (new_entry-IsValid 0, λ j nj lt. absurd (omega arith), unfold new_entry in refl);
        placed_head = (omega (arith, p.1), a.0, omega (arith, a.1));
        placed = tt;
        aligned = p.2;
      }

  -- On an aligned region that is not at address 0 the constructor sets up a tree that satisfies the
  -- invariant and holds no key.
  pub new_tree_lem :
      IsTree ix (new_tree ix false h nvm) 0
      × ((j : ℕ) → j ≢ 0 → contents ix (new_tree ix false h nvm) j ≡ none)
  unfolding new_tree new_tree-IsTree
  new_tree_lem = (
    new_tree-IsTree,
    λ j nj.
        rw (contents-view ix new_tree-IsTree j, store_same h _ (new_entry 0))
          (unfold new_entry in lookup-replicate 14 j nj),
  )
