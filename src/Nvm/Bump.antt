-- ===== src/Nvm/Bump.antt =====
-- What the blocks handed out by the allocator promise: alignment, disjointness, giving back.
use native.Mathlib.Nat.{mod-add-mod, add-mod, mod_self, mod-lt, add-zero}
use epli.Prelude.{ℕ, ◌+◌, ◌-◌, ◌%◌, ◌^◌, ◌≤◌, ◌<◌, ◌≡◌, ◌≢◌, arith, ◌==◌, Bool-cases, inl, inr}
use epli.Nvm.{Alloc, alloc, reserve, alloc_aligned, free}

-- The first block ends at or before the second.
abbrev pub Precedes : (p m q : ℕ) → Type 0
Precedes p m q = p + m ≤ q

pub reserve_facts :
    (addr align : ℕ)
    → 0 < align
    → ((addr + reserve addr align) % align ≡ 0)
      × (reserve addr align < align)
      × (addr % align ≢ 0 → 0 < reserve addr align)
      × (addr % align ≡ 0 → reserve addr align ≡ 0)
unfolding reserve
reserve_facts addr align pos =
    let lt = mod-lt addr pos in
    let wrap : (addr + (align - addr % align)) % align ≡ 0 =
      rw (← mod-add-mod addr align (align - addr % align))
        (let e : addr % align + (align - addr % align) ≡ align = omega arith in rw (e, mod_self)) in
    elim (Bool-cases (addr % align == 0)) [
      | inl e ↦ rw e (ground arith, pos, ground arith, ground arith)
      | inr e ↦ rw e (wrap, ground arith, ground arith, ground arith)
    ]

-- For a positive alignment, a block of `alloc_aligned` starts at a multiple of the alignment, at or after the old frontier,
-- and skips less than one alignment.
pub alloc_aligned-IsAligned :
    (size align : ℕ) (a : Alloc)
    → 0 < align
    → ((alloc_aligned size align a).0 % align ≡ 0)
      × (a.current_addr ≤ (alloc_aligned size align a).0)
      × ((alloc_aligned size align a).0 < a.current_addr + align)
unfolding alloc_aligned
alloc_aligned-IsAligned size align a pos =
    let f = reserve_facts a.current_addr align pos in (f.0, omega arith, omega arith)

-- From an aligned frontier and with a size that is a multiple of the alignment, the block ends at
-- the new frontier, which is aligned again; so the next block, of any size, does not overlap it.
pub alloc_aligned-Precedes :
    (m n align : ℕ) (a : Alloc)
    → 0 < align
    → a.current_addr % align ≡ 0
    → m % align ≡ 0
    → let r = alloc_aligned m align a in
      Precedes r.0 m (alloc_aligned n align r.1).0
      × (r.1.current_addr ≡ r.0 + m)
      × (r.1.current_addr % align ≡ 0)
unfolding alloc_aligned
alloc_aligned-Precedes m n align a pos h k =
    let f = reserve_facts a.current_addr align pos in
    let z = f.3 h in
    (omega arith, omega arith, rw (add-mod a.current_addr m align, h, k, add-zero) (ground arith))

-- From a frontier that is not aligned, a block of at least one alignment is overlapped by the next
-- block of `alloc`, since the frontier does not move past the bytes that were skipped.
pub alloc_aligned_overlaps :
    (size next align : ℕ) (a : Alloc)
    → 0 < align
    → align ≤ size
    → a.current_addr % align ≢ 0
    → let r = alloc_aligned size align a in
      (r.0 ≤ (alloc next r.1).0) × ((alloc next r.1).0 < r.0 + size)
unfolding alloc_aligned alloc
alloc_aligned_overlaps size next align a pos h n =
    let f = reserve_facts a.current_addr align pos in let p = f.2 n in (omega arith, omega arith)

-- Freeing the block that `alloc` has just handed out restores the allocator, where the frontier is not
-- address 0 and the counter and the size are 64-bit numbers.
pub free-alloc :
    (size : ℕ) (a : Alloc)
    → a.current_addr ≢ 0
    → a.used < 2 ^ 64
    → size < 2 ^ 64
    → free (alloc size a).0 size (alloc size a).1 ≡ a
unfolding alloc free
free-alloc size a nz u s = ground arith
