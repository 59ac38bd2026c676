-- ===== src/Tree/Split.antt =====
-- What `splitEntry` writes: the two halves of a full entry, and the memory after its six stores.
use mathlib.Core.Path.{fun_ext}
use epli.Prelude.{
  ℕ, zero, suc, ◌+◌, ◌/◌, ◌≤◌, ◌≡◌, ◌≢◌, refl, arith, List, [], ◌∷◌, ◌∙◌, ap, store, length, take,
  drop, get_or, length-drop,
}
use epli.Entry.{
  Kv, Entry, kvs_per_entry, zeroed, sort_kvs, new_entry_from, set_flag, set_ordered_kvs,
}
use epli.Entry.Slots.{lookup, count, lookup-eq-none}
use epli.Entry.Methods.{IsValid}
use epli.Entry.Copy.{
  lookup-copy_zeroed, count-copy_zeroed, length-copy_kvs, count_empty-copy_zeroed,
}
use epli.Entry.Sort.{lookup-sort, count-sort, length-sort, sort-Ascending, Ascending}
use epli.Entry.Sorted.{
  lookup-take, lookup-drop, lookup-pivot, first-lt-pivot, count-take-le, count-drop-le,
}
use epli.Tree.{half, pivot_key, split_heap}
use epli.Tree.Cut.{Cuts}

-- The left half, as the stores leave it.
unfoldable pub left_half : Entry → (n : ℕ) → Entry
unfolding set_flag set_ordered_kvs
left_half e n =
    set_flag (set_ordered_kvs (record (set_flag e 1) { next = n }) (sort_kvs e.kvs) half) 0

unfoldable pub right_half : Entry → Entry
unfolding new_entry_from
right_half e =
    let y = new_entry_from (pivot_key e) (drop half (sort_kvs e.kvs)) ((kvs_per_entry + 1) / 2) in
    record y { next = e.next }

take-all : (n : ℕ) (s : List Kv) → length s ≡ n → take n s ≡ s
take-all zero [] h = refl
take-all zero (x ∷ s) h = absurd (omega arith)
take-all (suc n) [] h = refl
take-all (suc n) (x ∷ s) h = ap (λ (r : List Kv). x ∷ r) (take-all n s (omega arith))

module _ (e : Entry) (valid : IsValid e) (full : count 0 e.kvs ≡ 0) where
  sorted : List Kv
  sorted = sort_kvs e.kvs

  length-sorted : length sorted ≡ kvs_per_entry
  unfolding sorted
  length-sorted = length-sort e.kvs ∙ valid.slots

  sorted-Ascending : Ascending 0 sorted
  unfolding sorted
  sorted-Ascending = sort-Ascending e.kvs (λ k. ground (arith, valid.unique k))

  right-all : take half (drop half sorted) ≡ drop half sorted
  right-all =
      take-all half (drop half sorted) (omega (arith, length-drop half sorted, length-sorted))

  right-long : half ≤ length (drop half sorted)
  right-long = omega (arith, length-drop half sorted, length-sorted)

  -- A full entry with distinct keys is cut at the key in the middle.
  pub halves-Cuts : (n : ℕ) → Cuts e n (pivot_key e) (left_half e n) (right_half e)
  unfolding left_half right_half sorted
  halves-Cuts n =
      let at = length-sorted in
      let up = sorted-Ascending in
      let lt = first-lt-pivot 0 half (sort_kvs e.kvs) up (omega arith) (omega arith) in
      record {
        left_valid = record {
          slots = length-copy_kvs zeroed (sort_kvs e.kvs) half;
          unique = λ k nz.
              rw (count-copy_zeroed (sort_kvs e.kvs) half (omega arith) (omega arith) k nz) (
                omega (
                  arith,
                  count-take-le half k (sort_kvs e.kvs),
                  count-sort e.kvs k,
                  valid.unique k nz,
                ));
        };
        right_valid = record {
          slots = length-copy_kvs zeroed (drop half (sort_kvs e.kvs)) half;
          unique = λ k nz.
              rw
                (
                  count-copy_zeroed (drop half (sort_kvs e.kvs)) half (omega arith) right-long k nz,
                  right-all,
                )
                (omega (
                  arith,
                  count-drop-le half k (sort_kvs e.kvs),
                  count-sort e.kvs k,
                  valid.unique k nz,
                ));
        };
        left_next = refl;
        right_next = refl;
        left = λ j nz. rw (
          lookup-copy_zeroed (sort_kvs e.kvs) half (omega arith) (omega arith) j nz,
          lookup-take 0 half j (sort_kvs e.kvs) up (omega arith),
          lookup-sort e.kvs j,
        );
        right = λ j nz. rw (
          lookup-copy_zeroed (drop half (sort_kvs e.kvs)) half (omega arith) right-long j nz,
          right-all,
          lookup-drop 0 half j (sort_kvs e.kvs) up (omega arith),
          lookup-sort e.kvs j,
        );
        pivot =
            rw
              (
                ← lookup-sort e.kvs (pivot_key e),
                lookup-pivot 0 half (sort_kvs e.kvs) up (omega arith),
              )
              (λ q. cc);
        pivot_pos = omega arith;
        low = (get_or (sort_kvs e.kvs) 0 (0, 0)).0;
        low_pos = λ q.
            let p = lookup-pivot 0 0 (sort_kvs e.kvs) up (omega arith) in
            let o = lookup-sort e.kvs 0 ∙ lookup-eq-none e.kvs 0 full in
            cc (p, o, ap (lookup (sort_kvs e.kvs)) q);
        low_lt = lt;
        low_present =
            rw (← lookup-sort e.kvs _, lookup-pivot 0 0 (sort_kvs e.kvs) up (omega arith))
              (λ q. cc);
      }

pub split_heap-at :
    (h : ℕ → Entry) (a n b : ℕ)
    → n ≢ a
    → split_heap h a n b ≡ store (store h n (right_half (h a))) a (left_half (h a) n) b
unfolding split_heap left_half right_half
split_heap-at h a n b ne = ground arith

pub split_heap-eq :
    (h : ℕ → Entry) (a n : ℕ)
    → n ≢ a
    → split_heap h a n ≡ store (store h n (right_half (h a))) a (left_half (h a) n)
split_heap-eq h a n ne = fun_ext (λ b. split_heap-at h a n b ne)

-- Both halves have an empty slot.
pub halves_roomy :
    (e : Entry) (n : ℕ)
    → IsValid e
    → (count 0 (left_half e n).kvs ≢ 0) × (count 0 (right_half e).kvs ≢ 0)
unfolding left_half right_half sorted
halves_roomy e n valid =
    let len = length-sort e.kvs ∙ valid.slots in
    (
      count_empty-copy_zeroed (sort_kvs e.kvs) half (omega arith) (omega arith) (omega arith),
      count_empty-copy_zeroed (drop half (sort_kvs e.kvs)) half (omega arith)
          (omega (arith, length-drop half (sort_kvs e.kvs))) (omega arith),
    )
