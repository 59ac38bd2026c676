-- ===== src/Nvm.antt =====
-- The persistent memory layer: include/util/nvm/nvm_alloc.h (the variant without USE_MEM) and
-- src/pmem.h. An address is a number, and 0 is the null pointer. The mapped file is not modelled:
-- `pmem_map_file`, `pmem_unmap` and the console output are calls of other libraries.
pub mod Bump
pub mod Flush
use epli.Prelude.{
  ℕ, zero, suc, ◌+◌, ◌-◌, ◌*◌, ◌/◌, ◌%◌, ◌^◌, List, [], ◌∷◌, ltb, ◌==◌, if◌then◌else◌,
}

-- The allocator's fields. The lock is held during each call, so a call is one step.
pub record Alloc : Type 0 where
  pub pmem_addr : ℕ
  pub current_addr : ℕ
  pub mapped_len : ℕ
  pub used : ℕ
  pub freed : ℕ

-- What the constructor does with the address and the length that the mapping returned.
unfoldable pub new_alloc : (addr len : ℕ) → Alloc
new_alloc addr len = record {
  pmem_addr = addr;
  current_addr = addr;
  mapped_len = len;
  used = 0;
  freed = 0;
}

-- `alloc(size)`. The assertion on `mapped_len_` is compiled out (-DNDEBUG).
unfoldable pub alloc : ℕ → Alloc → ℕ × Alloc
alloc size a = (
  a.current_addr,
  record a { used = (a.used + size) % 2 ^ 64; current_addr = a.current_addr + size },
)

-- The bytes skipped to reach a multiple of `align`.
unfoldable pub reserve : (addr align : ℕ) → ℕ
reserve addr align = if addr % align == 0 then 0 else align - addr % align

-- `alloc_aligned(size, align)`: `current_addr_` moves by `size` alone, not by `reserve + size`.
unfoldable pub alloc_aligned : (size align : ℕ) → Alloc → ℕ × Alloc
unfolding reserve
alloc_aligned size align a =
    let r = reserve a.current_addr align in
    (
      a.current_addr + r,
      record a { used = (a.used + (size + r)) % 2 ^ 64; current_addr = a.current_addr + size },
    )

-- `Free(p, size)` gives back the last block only; any other block is counted as freed.
unfoldable pub free : (p size : ℕ) → Alloc → Alloc
free p size a =
    if p == 0
    then a
    else if p + size == a.current_addr
    then record a { current_addr = p; used = (a.used + 2 ^ 64 - size) % 2 ^ 64 }
    else record a { freed = (a.freed + size) % 2 ^ 64 }

-- `Mem_persist` adds the bytes to the global `pmem_size`, one cache line at the least.
unfoldable pub mem_persist : (len pmem_size : ℕ) → ℕ
mem_persist len pmem_size =
    if ltb len 64 then (pmem_size + 64) % 2 ^ 64 else (pmem_size + len) % 2 ^ 64

-- The address of the cache line that `clflush` writes back: `data & ~(CACHE_LINE_SIZE - 1)`.
unfoldable pub cache_line : ℕ → ℕ
cache_line p = p / 64 * 64

-- The loop of `_nvm_perisist`: the cache lines that are written back, in order.
unfoldable pub persist_loop : (fuel ptr stop : ℕ) → List ℕ
unfolding cache_line
persist_loop zero ptr stop = []
persist_loop (suc fuel) ptr stop =
    let rest = persist_loop fuel (ptr + 64) stop in
    if ltb ptr stop then cache_line ptr ∷ rest else []

-- `_nvm_perisist(data, len)`. The loop runs once for each line, so `len + 64` rounds are enough.
unfoldable pub nvm_persist : (p len : ℕ) → List ℕ
unfolding persist_loop
nvm_persist p len = persist_loop (len + 64) (cache_line p) (p + len)
