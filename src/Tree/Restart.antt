-- ===== src/Tree/Restart.antt =====
-- A restart: `DataList::Init` with `recover` set, on the memory that the program left.
use epli.Prelude.{
  ℕ, ◌+◌, ◌%◌, ◌≡◌, ◌≢◌, refl, arith, Bool, true, false, ◌∙◌, ap, store_same, store_other,
}
use epli.Entry.{Entry}
use epli.Nvm.{Alloc, new_alloc, alloc_aligned, reserve}
use epli.Index.{Index}
use epli.Tree.{Tree, entry_size, new_tree, split_entry}
use epli.Tree.Split.{right_half, split_heap-eq}

module _ (ix : Index) where
  open ix use {Carrier}

  -- The frontier after the head entry is taken.
  second_block :
      (recover : Bool) (h : ℕ → Entry) (addr len : ℕ)
      → addr % 256 ≡ 0
      → (alloc_aligned entry_size 256 (new_tree ix recover h (new_alloc addr len)).nvm).0
        ≡ addr + 256
  unfolding new_tree alloc_aligned new_alloc reserve
  second_block true h addr len base = ground arith
  second_block false h addr len base = ground arith

  heap-split_entry :
      (t : Tree Carrier) (a r : ℕ)
      → (alloc_aligned entry_size 256 t.nvm).0 ≡ r
      → r ≢ a
      → (split_entry ix t a).heap r ≡ right_half (t.heap a)
  unfolding split_entry
  heap-split_entry t a r at ne =
      rw (at, split_heap-eq t.heap a r ne)
        (store_other _ a r _ ne ∙ store_same t.heap r (right_half (t.heap a)))

  recovered_heap : (h : ℕ → Entry) (nvm : Alloc) → (new_tree ix true h nvm).heap ≡ h
  unfolding new_tree
  recovered_heap h nvm = refl

  -- The entry at an aligned base is the head, and the first split of a new tree, with the empty index of a
  -- restart or not, puts its new entry 256 bytes behind the base. So the first split after a restart replaces the
  -- entry that the first split before it made, whatever that entry holds.
  pub restart_overwrites :
      (h g : ℕ → Entry) (addr len a b : ℕ)
      → addr % 256 ≡ 0
      → addr + 256 ≢ a
      → addr + 256 ≢ b
      → let first = new_tree ix false h (new_alloc addr len) in
        let again = new_tree ix true g (new_alloc addr len) in
        ((split_entry ix first a).heap (addr + 256) ≡ right_half (first.heap a))
        × ((split_entry ix again b).heap (addr + 256) ≡ right_half (g b))
  restart_overwrites h g addr len a b base nea neb = (
    heap-split_entry (new_tree ix false h (new_alloc addr len)) a (addr + 256)
        (second_block false h addr len base) nea,
    heap-split_entry (new_tree ix true g (new_alloc addr len)) b (addr + 256)
          (second_block true g addr len base) neb
        ∙ ap (λ (f : ℕ → Entry). right_half (f b)) (recovered_heap g (new_alloc addr len)),
  )
