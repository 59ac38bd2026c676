-- ===== src/Tree/Load/Loop.antt =====
-- The loop of `BulkLoad`: it ends within the given fuel, and the entries that it links hold the pairs.
use epli.Prelude.{
  ℕ, zero, suc, ◌+◌, ◌%◌, ◌≤◌, ◌<◌, ◌≡◌, ◌≢◌, refl, arith, List, [], ◌∷◌, some, ◌∙◌, sym, ap,
  or_else, store, store_same, store_other, length, drop, take, take-append-drop, length-drop,
}
use epli.Nvm.{Alloc, alloc_aligned}
use epli.Nvm.Bump.{alloc_aligned-IsAligned, alloc_aligned-Precedes}
use epli.Entry.{Kv, Entry, kvs_per_entry, new_entry_from}
use epli.Entry.Slots.{lookup, lookup-append}
use epli.Entry.Sort.{Ascending}
use epli.Entry.Methods.{IsValid}
use epli.Index.{Pairs, IsSorted}
use epli.Tree.{modify, entry_size}
use epli.Tree.Chain.{Above, Below, NotAmong, IsChain, view}
use epli.Tree.State.{IsPlaced, ArePlaced}
use epli.Tree.Load.{Loaded, at_most_full, load_loop}
use epli.Tree.Load.Block.{bound_after, bound-ge, drop-Ascending, Filled, copied-Filled}

-- What the rounds from `cur` on promise; `rest` are the pairs that were left.
pub record Done (h : ℕ → Entry) (nvm : Alloc) (cur lo m : ℕ) (rest : List Kv) (l : Loaded)
    : Type 0 where
  pub chain : IsChain l.heap lo cur l.index_kvs
  pub reads :
      (j : ℕ)
      → j ≢ 0
      → view l.heap cur l.index_kvs j ≡ or_else (lookup (h cur).kvs j) (lookup rest j)
  pub sorted : IsSorted m l.index_kvs
  pub placed : ArePlaced l.nvm.current_addr l.index_kvs
  pub frontier : nvm.current_addr ≤ l.nvm.current_addr
  pub aligned : l.nvm.current_addr % 256 ≡ 0
  pub frame : (b : ℕ) → b ≢ cur → b < nvm.current_addr → l.heap b ≡ h b
  pub fresh : (b : ℕ) → b < nvm.current_addr → NotAmong b l.index_kvs

-- The entry `cur`, the last one of the list so far.
pub record Ready (h : ℕ → Entry) (nvm : Alloc) (cur lo m : ℕ) : Type 0 where
  pub valid : IsValid (h cur)
  pub above : Above lo (h cur)
  pub below : Below m (h cur)
  pub lo_lt : lo < m
  pub last : (h cur).next ≡ 0
  pub placed : IsPlaced nvm.current_addr cur
  pub aligned : nvm.current_addr % 256 ≡ 0

pub IsSorted-mono : (m n : ℕ) (c : Pairs) → n ≤ m → IsSorted m c → IsSorted n c
IsSorted-mono m n [] le h = tt
IsSorted-mono m n ((j, a) ∷ c) le h = (omega (arith, h.0), h.1)

module _ (h : ℕ → Entry) (nvm : Alloc) (cur lo m k v : ℕ) (rest : List Kv)
    (r : Ready h nvm cur lo m) (up : Ascending m ((k, v) ∷ rest)) where
  abbrev block : ℕ
  block = (alloc_aligned entry_size 256 nvm).0

  abbrev nvm₁ : Alloc
  nvm₁ = (alloc_aligned entry_size 256 nvm).1

  abbrev filled : Entry
  filled = new_entry_from k ((k, v) ∷ rest) (at_most_full (length ((k, v) ∷ rest)))

  abbrev linked : ℕ → Entry
  linked = modify (store h block filled) cur (λ e. record e { next = block })

  abbrev next_bound : ℕ
  next_bound = bound_after k kvs_per_entry ((k, v) ∷ rest)

  block_facts :
      (nvm.current_addr ≤ block)
      × (block % 256 ≡ 0)
      × (nvm₁.current_addr ≡ block + 256)
      × (nvm₁.current_addr % 256 ≡ 0)
  block_facts =
      let al = alloc_aligned-IsAligned 256 256 nvm (omega arith) in
      let pr = alloc_aligned-Precedes 256 256 256 nvm (omega arith) r.aligned refl in
      (al.1, al.0, pr.1, pr.2)

  apart : block ≢ cur
  apart = omega (arith, block_facts.0, r.placed.0)

  linked-block : linked block ≡ filled
  unfolding modify
  linked-block = store_other (store h block filled) cur block _ apart ∙ store_same h block filled

  linked-cur : linked cur ≡ record (h cur) { next = block }
  unfolding modify
  linked-cur =
      store_same (store h block filled) cur _
      ∙ ap (λ (e : Entry). record e { next = block })
          (store_other h block cur filled (λ q. apart (sym q)))

  linked-other : (b : ℕ) → b ≢ cur → b ≢ block → linked b ≡ h b
  unfolding modify
  linked-other b nc nb =
      store_other (store h block filled) cur b _ nc ∙ store_other h block b filled nb

  filled-Filled : Filled k ((k, v) ∷ rest) filled
  unfolding new_entry_from
  filled-Filled =
      copied-Filled k ((k, v) ∷ rest) filled (omega (arith, r.lo_lt, up.0)) (omega arith, up.1) refl

  block-Ready : Ready linked nvm₁ block k next_bound
  unfolding new_entry_from
  block-Ready =
      let f = filled-Filled in
      let b = block_facts in
      record {
        valid = rw linked-block f.valid;
        above = rw linked-block f.above;
        below = rw linked-block f.below;
        lo_lt = bound-ge (suc k) 13 rest up.1;
        last = rw linked-block;
        placed = (omega (arith, b.2), b.1, omega (arith, b.0, r.placed.0));
        aligned = b.3;
      }

  step-Done :
      (l : Loaded)
      → Done linked nvm₁ block k next_bound (drop kvs_per_entry ((k, v) ∷ rest)) l
      → Done h nvm cur lo m ((k, v) ∷ rest) (record l { index_kvs = (k, block) ∷ l.index_kvs })
  step-Done l d =
      let b = block_facts in
      let inside : cur < nvm₁.current_addr = omega (arith, b.2, b.0, r.placed.0) in
      let here : l.heap cur ≡ record (h cur) { next = block } =
        d.frame cur (λ q. apart (sym q)) inside ∙ linked-cur in
      let f = filled-Filled in
      let all = ((k, v) ∷ rest) in
      record {
        chain = rw here (
          record { slots = r.valid.slots; unique = r.valid.unique },
          r.above,
          refl,
          omega (arith, r.lo_lt, up.0),
          λ j le. r.below j (omega (arith, up.0)),
          (λ q. apart (sym q), d.fresh cur inside),
          omega (arith, b.0, r.placed.0),
          d.chain,
        );
        reads = λ j nj.
            rw (here, d.reads j nj, linked-block, f.reads j nj)
              (ap (or_else (lookup (h cur).kvs j)) (
                sym (lookup-append (take kvs_per_entry all) (drop kvs_per_entry all) j)
                ∙ ap (λ (s : List Kv). lookup s j) (take-append-drop kvs_per_entry all)));
        sorted =
            (up.0, IsSorted-mono _ (suc k) l.index_kvs (bound-ge (suc k) 13 rest up.1) d.sorted);
        placed = ((omega (arith, b.2, d.frontier), b.1, omega (arith, b.0, r.placed.0)), d.placed);
        frontier = omega (arith, b.0, b.2, d.frontier);
        aligned = d.aligned;
        frame = λ c nc lt.
            d.frame c (omega (arith, b.0)) (omega (arith, b.0, b.2))
            ∙ linked-other c nc (omega (arith, b.0));
        fresh = λ c lt. (omega (arith, b.0), d.fresh c (omega (arith, b.0, b.2)));
      }

pub load_loop-Done :
    (fuel : ℕ) (h : ℕ → Entry) (nvm : Alloc) (cur lo m : ℕ) (rest : List Kv)
    → length rest < fuel
    → Ready h nvm cur lo m
    → Ascending m rest
    → (l : Loaded) × (load_loop fuel h nvm cur rest ≡ some l) × Done h nvm cur lo m rest l
unfolding load_loop
load_loop-Done zero h nvm cur lo m rest lt r up = absurd (omega arith)
load_loop-Done (suc fuel) h nvm cur lo m [] lt r up = (
  record { heap = h; nvm = nvm; index_kvs = [] },
  refl,
  record {
    chain = (r.valid, r.above, r.last);
    reads = λ j nj. ground arith;
    sorted = tt;
    placed = tt;
    frontier = omega arith;
    aligned = r.aligned;
    frame = λ b n lt'. refl;
    fresh = λ b lt'. tt;
  },
)
load_loop-Done (suc fuel) h nvm cur lo m ((k, v) ∷ rest) lt r up =
    let b = next_bound h nvm cur lo m k v rest r up in
    let (l, run, done) =
      load_loop-Done fuel (linked h nvm cur lo m k v rest r up) (alloc_aligned entry_size 256 nvm).1
        (alloc_aligned entry_size 256 nvm).0 k b (drop kvs_per_entry ((k, v) ∷ rest))
        (omega (arith, length-drop 13 rest)) (block-Ready h nvm cur lo m k v rest r up)
        (drop-Ascending k kvs_per_entry ((k, v) ∷ rest) (omega arith, up.1)) in
    (
      record l { index_kvs = (k, (alloc_aligned entry_size 256 nvm).0) ∷ l.index_kvs },
      rw run,
      step-Done h nvm cur lo m k v rest r up l done,
    )
