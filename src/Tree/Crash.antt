-- ===== src/Tree/Crash.antt =====
-- `splitEntry` of src/epltree.h when the machine stops between two of its stores. The stores are
-- taken to reach the memory in the order of the source, one after another; the caches and the index
-- are lost, and `Recover` follows the list from the head.
pub mod Links
pub mod Keep
pub mod Lost
use epli.Prelude.{ℕ, ◌+◌, ◌-◌, ◌/◌, ◌==◌, if◌then◌else◌, drop, store}
use epli.Entry.{Entry, kvs_per_entry, zeroed, sort_kvs, copy_kvs, new_entry_from, set_flag}
use epli.Tree.{half, pivot_key, modify}

-- The memory when `stage` stores of a split of the entry at `a` are done, `n` being the new entry. The
-- constructor of the new entry counts as the first; from the fifth on, `setOrderedKVs` has filled the
-- old entry with zero bytes and stored `stage - 5` pairs.
unfoldable pub split_until : (ℕ → Entry) → (a n stage : ℕ) → ℕ → Entry
unfolding modify store
split_until h a n stage =
    let tmp_kvs = sort_kvs (h a).kvs in
    let h1 =
      store h n (new_entry_from (pivot_key (h a)) (drop half tmp_kvs) ((kvs_per_entry + 1) / 2)) in
    let h2 = modify h1 a (λ e. set_flag e 1) in
    let h3 = modify h2 n (λ e. record e { next = (h2 a).next }) in
    let h4 = modify h3 a (λ e. record e { next = n }) in
    if stage == 0
    then h
    else if stage == 1
    then h1
    else if stage == 2
    then h2
    else if stage == 3
    then h3
    else if stage == 4
    then h4
    else modify h4 a (λ e. record e { kvs = copy_kvs zeroed tmp_kvs (stage - 5) })
