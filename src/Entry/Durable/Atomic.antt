-- ===== src/Entry/Durable/Atomic.antt =====
-- The slot of a method whose words stand in one line: the pairs that the program sees in it and that the
-- memory has, from the first store to the flush.
use epli.Prelude.{
  ℕ, ◌≡◌, refl, ap, arith, List, [], ◌∷◌, inl, inr, ◌==◌, if◌then◌else◌, true, ◌∙◌, Bool-cases,
}
use epli.Entry.{Kv}
use epli.Entry.At.{val_at}
use epli.Entry.Durable.{
  line, key_offset, copy_line, write_back, Block, Instr, set_key_at, flush_at, exec, Method, put,
  update, remove, stores_at, Steps, start, next, back, fits_at,
}
use epli.Entry.Durable.Lines.{put_at, set_val-put_at, set_key-put_at, merge, copy_line-put_at}

-- `q` is left of the method, the slot holds `c` in the cache and `d` in the memory; `w` was its value.
pub data Stage (i w : ℕ) : Method → List Instr → (c d : Kv) → Type 0 where
  put_ready : {k v : ℕ} → Stage i w (put k v) (stores_at (put k v) i) (0, w) (0, w)
  put_valued :
      {k v : ℕ} (u : ℕ) → Stage i w (put k v) (set_key_at i k ∷ flush_at i ∷ []) (0, v) (0, u)
  put_keyed : {k v : ℕ} (u : ℕ) → Stage i w (put k v) (flush_at i ∷ []) (k, v) (0, u)
  put_back : {k v : ℕ} → Stage i w (put k v) (flush_at i ∷ []) (k, v) (k, v)
  put_done : {k v : ℕ} → Stage i w (put k v) [] (k, v) (k, v)
  update_ready : {k v : ℕ} → Stage i w (update k v) (stores_at (update k v) i) (k, w) (k, w)
  update_valued : {k v : ℕ} → Stage i w (update k v) (flush_at i ∷ []) (k, v) (k, w)
  update_back : {k v : ℕ} → Stage i w (update k v) (flush_at i ∷ []) (k, v) (k, v)
  update_done : {k v : ℕ} → Stage i w (update k v) [] (k, v) (k, v)
  remove_ready : {k : ℕ} → Stage i w (remove k) (stores_at (remove k) i) (k, w) (k, w)
  remove_keyed : {k : ℕ} → Stage i w (remove k) (flush_at i ∷ []) (0, w) (k, w)
  remove_back : {k : ℕ} → Stage i w (remove k) (flush_at i ∷ []) (0, w) (0, w)
  remove_done : {k : ℕ} → Stage i w (remove k) [] (0, w) (0, w)

module _ (i w : ℕ) where
  -- A line may be written back at any stage.
  Stage-back : (o : Method) (q : List Instr) (c d : Kv) → Stage i w o q c d → Stage i w o q c c
  Stage-back o q c d put_ready = put_ready
  Stage-back (put k v) q c d (put_valued u) = put_valued v
  Stage-back o q c d (put_keyed u) = put_back
  Stage-back o q c d put_back = put_back
  Stage-back o q c d put_done = put_done
  Stage-back o q c d update_ready = update_ready
  Stage-back o q c d update_valued = update_back
  Stage-back o q c d update_back = update_back
  Stage-back o q c d update_done = update_done
  Stage-back o q c d remove_ready = remove_ready
  Stage-back o q c d remove_keyed = remove_back
  Stage-back o q c d remove_back = remove_back
  Stage-back o q c d remove_done = remove_done

  val_kept : (k : ℕ) (q : List Instr) (c d : Kv) → Stage i w (remove k) q c d → c.1 ≡ d.1
  val_kept k q c d remove_ready = refl
  val_kept k q c d remove_keyed = refl
  val_kept k q c d remove_back = refl
  val_kept k q c d remove_done = refl

  -- What a line's copy makes of the slot.
  merge_lem :
      (l : ℕ) (o : Method) (q : List Instr) (c d : Kv)
      → fits_at o i ≡ true
      → Stage i w o q c d
      → merge l i c d ≡ (if line (key_offset i) == l then c else d)
  merge_lem l (put k v) q c d f g = ground arith
  merge_lem l (update k v) q c d f g = ground arith
  merge_lem l (remove k) q c d f g = ground (arith, val_kept k q c d g)

-- The array differs in that slot only.
pub data InSlot (s : List Kv) (i : ℕ) (o : Method) (q : List Instr) : Block → Type 0 where
  in_slot :
      (c d : Kv)
      → Stage i (val_at s i) o q c d
      → InSlot s i o q (record { seen = put_at s i c; stored = put_at s i d })

module _ (s : List Kv) (i : ℕ) where
  pub in_slot_lem :
      (o : Method) (q : List Instr) (a b : List Kv) (c d : Kv)
      → a ≡ put_at s i c
      → b ≡ put_at s i d
      → Stage i (val_at s i) o q c d
      → InSlot s i o q (record { seen = a; stored = b })
  in_slot_lem o q a b c d ea eb g = rw (ea, eb) (in_slot c d g)

  -- The copy of a line takes the slot with it, or leaves it.
  copied :
      (o : Method) (q : List Instr) (l : ℕ) (c d : Kv)
      → fits_at o i ≡ true
      → Stage i (val_at s i) o q c d
      → copy_line l 0 (put_at s i c) (put_at s i d)
        ≡ put_at s i (if line (key_offset i) == l then c else d)
  copied o q l c d f g =
      copy_line-put_at l i c d 0 s i (omega arith) ∙ ap (put_at s i) (merge_lem i _ l o q c d f g)

  InSlot-write_back :
      (o : Method) (q : List Instr) (l : ℕ) (b : Block)
      → fits_at o i ≡ true
      → InSlot s i o q b
      → InSlot s i o q (write_back l b)
  unfolding write_back
  InSlot-write_back o q l b f (in_slot c d g) = elim (Bool-cases (line (key_offset i) == l)) [
    | inl h ↦
        in_slot_lem o q _ _ c c refl (copied o q l c d f g ∙ ground (arith, h))
          (Stage-back i _ o q c d g)
    | inr h ↦ in_slot_lem o q _ _ c d refl (copied o q l c d f g ∙ ground (arith, h)) g
  ]

  -- The flush itself takes it.
  InSlot-flush :
      (o : Method) (q r : List Instr) (c d : Kv)
      → fits_at o i ≡ true
      → Stage i (val_at s i) o q c d
      → Stage i (val_at s i) o r c c
      → InSlot s i o r (exec (flush_at i) (record { seen = put_at s i c; stored = put_at s i d }))
  unfolding exec write_back
  InSlot-flush o q r c d f g h =
      in_slot_lem o r _ _ c c refl (copied o q (line (key_offset i)) c d f g ∙ ground arith) h

  InSlot-exec :
      (o : Method) (x : Instr) (q : List Instr) (b : Block)
      → fits_at o i ≡ true
      → InSlot s i o (x ∷ q) b
      → InSlot s i o q (exec x b)
  unfolding exec
  InSlot-exec (put k v) x q b f (in_slot c d put_ready) =
      in_slot_lem (put k v) q _ _ _ _ (set_val-put_at s i v _) refl (put_valued _)
  InSlot-exec (put k v) x q b f (in_slot c d (put_valued u)) =
      in_slot_lem (put k v) q _ _ _ _ (set_key-put_at s i k _) refl (put_keyed u)
  InSlot-exec o x q b f (in_slot c d (put_keyed u)) =
      InSlot-flush o _ q c d f (put_keyed u) put_done
  InSlot-exec o x q b f (in_slot c d put_back) = InSlot-flush o _ q c d f put_back put_done
  InSlot-exec (update k v) x q b f (in_slot c d update_ready) =
      in_slot_lem (update k v) q _ _ _ _ (set_val-put_at s i v _) refl update_valued
  InSlot-exec o x q b f (in_slot c d update_valued) =
      InSlot-flush o _ q c d f update_valued update_done
  InSlot-exec o x q b f (in_slot c d update_back) = InSlot-flush o _ q c d f update_back update_done
  InSlot-exec (remove k) x q b f (in_slot c d remove_ready) =
      in_slot_lem (remove k) q _ _ _ _ (set_key-put_at s i 0 _) refl remove_keyed
  InSlot-exec o x q b f (in_slot c d remove_keyed) =
      InSlot-flush o _ q c d f remove_keyed remove_done
  InSlot-exec o x q b f (in_slot c d remove_back) = InSlot-flush o _ q c d f remove_back remove_done

  pub Steps-InSlot :
      (o : Method) (b : Block)
      → fits_at o i ≡ true
      → InSlot s i o (stores_at o i) b
      → (q : List Instr) (c : Block) → Steps (stores_at o i) b q c
      → InSlot s i o q c
  Steps-InSlot o b f g q c start = g
  Steps-InSlot o b f g q c (next {i = x} {c = d} h) =
      InSlot-exec o x q d f (Steps-InSlot o b f g (x ∷ q) d h)
  Steps-InSlot o b f g q c (back {c = d} l h) =
      InSlot-write_back o q l d f (Steps-InSlot o b f g q d h)
