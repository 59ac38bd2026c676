-- ===== src/Tree/Methods.antt =====
-- `Get`, `Update` and `Remove` of the tree against the map that the tree holds.
use epli.Prelude.{
  ℕ, ◌≤◌, ◌≡◌, ◌≢◌, arith, Option, none, some, ◌∙◌, sym, ◌==◌, ltb, if◌then◌else◌, store,
  store_self, Bool-cases, inl, inr,
}
use epli.Entry.{Entry, ok, fail}
use epli.Entry.Methods.{
  Writes, get-lookup, update-Writes, remove-Writes, update_absent, remove_absent,
}
use epli.Index.{Index, floor_addr}
use epli.Tree.{Tree, locate, get, update, remove}
use epli.Tree.Chain.{floor-IsValid, write-IsChain, write-view, view_below}
use epli.Tree.State.{IsTree, contents, contents-view, locate-floor, contents-lookup}

module _ (ix : Index) where
  open ix use {Carrier}

  -- `t'` is `t` with `o` under the key `k` and the rest unchanged.
  pub record Updates (t : Tree Carrier) (lo k : ℕ) (o : Option ℕ) (t' : Tree Carrier) : Type 0 where
    pub tree : IsTree ix t' lo
    pub reads : (j : ℕ) → j ≢ 0 → contents ix t' j ≡ (if j == k then o else contents ix t j)

  module _ {t : Tree Carrier} {lo : ℕ} (v : IsTree ix t lo) (k : ℕ) (nz : k ≢ 0) where
    -- In a tree that satisfies the invariant, `Get` of a valid key reads what the data list holds: the
    -- value with STATUS_OK, or 0 with STATUS_FAIL.
    pub get-contents :
        (val : ℕ) → get ix t k val ≡ elim (contents ix t k) [ none ↦ (fail, 0) | some w ↦ (ok, w) ]
    unfolding get
    get-contents val =
        rw (contents-lookup ix v k nz, get)
          (ground (arith, get-lookup (t.heap (locate ix t k)) k val, locate-floor ix v k))

    abbrev target : ℕ
    target = floor_addr t.head v.later k

    abbrev written : Entry → Tree Carrier
    written x = record t { heap = store t.heap target x }

    -- A write of one entry at the key, seen from the tree.
    pub written-Updates :
        (o : Option ℕ) (x : Entry)
        → lo ≤ k
        → Writes (t.heap target) k o x
        → Updates t lo k o (written x)
    written-Updates o x le w =
        let g = write-IsChain t.heap lo t.head v.later k o x v.chain le nz w in
        let v' : IsTree ix (written x) lo = record {
          later = v.later;
          stored = v.stored;
          chain = g;
          placed_head = v.placed_head;
          placed = v.placed;
          aligned = v.aligned;
        } in
        record {
          tree = v';
          reads = λ j nj.
              rw (contents-view ix v' j, contents-view ix v j)
                (write-view t.heap lo t.head v.later k o x j v.chain le nz w nj);
        }

    present-ge : (w : ℕ) → contents ix t k ≡ some w → lo ≤ k
    present-ge w h = elim (Bool-cases (ltb k lo)) [
      | inl e ↦
          absurd
            (ground (arith, contents-view ix v k, view_below t.heap lo t.head v.later k v.chain nz))
      | inr e ↦ ground arith
    ]

    -- In a tree that satisfies the invariant, `Update` of a valid key that it holds answers STATUS_OK,
    -- sets the value, and keeps the other keys and the invariant.
    pub update-Updates :
        (val w : ℕ)
        → contents ix t k ≡ some w
        → (t' : Tree Carrier) × (update ix t k val ≡ (t', ok)) × Updates t lo k (some val) t'
    unfolding update
    update-Updates val w h =
        let at = sym (contents-lookup ix v k nz) ∙ h in
        let (x, run, wr) =
          update-Writes (t.heap target) (floor-IsValid t.heap lo t.head v.later k v.chain) k val nz
            w at in
        (written x, rw (locate-floor ix v k, run), written-Updates (some val) x (present-ge w h) wr)

    -- In a tree that satisfies the invariant, `Remove` of a valid key that it holds answers STATUS_OK,
    -- takes the key out, and keeps the other keys and the invariant.
    pub remove-Updates :
        (w : ℕ)
        → contents ix t k ≡ some w
        → (t' : Tree Carrier) × (remove ix t k ≡ (t', ok)) × Updates t lo k none t'
    unfolding remove
    remove-Updates w h =
        let at = sym (contents-lookup ix v k nz) ∙ h in
        let (x, run, wr) =
          remove-Writes (t.heap target) (floor-IsValid t.heap lo t.head v.later k v.chain) k 0 nz w
            at in
        (written x, rw (locate-floor ix v k, run), written-Updates none x (present-ge w h) wr)

    pub update-none : (val : ℕ) → contents ix t k ≡ none → update ix t k val ≡ (t, fail)
    unfolding update
    update-none val h =
        let at = sym (contents-lookup ix v k nz) ∙ h in
        rw (locate-floor ix v k, update_absent (t.heap target) k val at, store_self t.heap target)

    pub remove-none : contents ix t k ≡ none → remove ix t k ≡ (t, fail)
    unfolding remove
    remove-none h =
        let at = sym (contents-lookup ix v k nz) ∙ h in
        rw (locate-floor ix v k, remove_absent (t.heap target) k at, store_self t.heap target)

    -- In a tree that satisfies the invariant, `Update` and `Remove` of a valid key that it does not
    -- hold answer STATUS_FAIL and change nothing.
    pub writes-none :
        (val : ℕ)
        → contents ix t k ≡ none
        → (update ix t k val ≡ (t, fail)) × (remove ix t k ≡ (t, fail))
    writes-none val h = (update-none val h, remove-none h)
