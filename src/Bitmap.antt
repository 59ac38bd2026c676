-- ===== src/Bitmap.antt =====
-- The volatile data beside an entry in the builds with USE_BITMAP and USE_FGPT: `ffs_short`,
-- `hashcode1B`, `EntryPointer` and `MetaData` of src/entry.h. A `uint16_t` keeps its low 16 bits.
pub mod Bits
pub mod Pointer
pub mod Tree
pub mod Agree
pub mod Insert
pub mod Methods
pub mod Lost
pub mod Scan
use Prim.Native.Nat.{bit_or, bit_xor}
use epli.Prelude.{
  ℕ, zero, suc, ◌+◌, ◌-◌, ◌*◌, ◌/◌, ◌%◌, ◌^◌, List, [], ◌∷◌, Bool, not, ◌==◌, if◌then◌else◌, get_or,
  set, replicate,
}
use epli.Entry.{Kv, kvs_per_entry}

-- `hashcode1B`
unfoldable pub hashcode1b : ℕ → ℕ
hashcode1b x =
    let a = bit_xor x (x / 2 ^ 32) in
    let b = bit_xor a (a / 2 ^ 16) in let c = bit_xor b (b / 2 ^ 8) in c % 2 ^ 8

-- A step of `ffs_short`: the low `w` bits are skipped if they are 0.
abbrev pub skip_zeros : (w : ℕ) → ℕ × ℕ → ℕ × ℕ
skip_zeros w (x, num) = if x % 2 ^ w == 0 then (x / 2 ^ w, num + w) else (x, num)

-- `ffs_short`
unfoldable pub ffs_short : ℕ → ℕ
ffs_short x =
    let r = skip_zeros 2 (skip_zeros 4 (skip_zeros 8 (x, 1))) in
    if r.0 % 2 == 0 then r.1 + 1 else r.1

-- `set_bitmap(pos)`
unfoldable pub set_bitmap : (bitmap pos : ℕ) → ℕ
set_bitmap b pos = bit_or b (2 ^ pos) % 2 ^ 16

-- `find_first_zero()`: the complement is cut to 16 bits by the call.
unfoldable pub find_first_zero : ℕ → ℕ
find_first_zero b = ffs_short (2 ^ 16 - 1 - b) - 1

-- `reset_half_bitmap()`
abbrev pub half_bitmap : ℕ
half_bitmap = 0x007F

-- The loop of `reset_n_bitmap`.
unfoldable pub set_bits_below : (n bitmap : ℕ) → ℕ
unfolding set_bitmap
set_bits_below zero b = b
set_bits_below (suc n) b = set_bits_below n (set_bitmap b n)

-- `reset_n_bitmap(n)`
unfoldable pub reset_n_bitmap : (n bitmap : ℕ) → ℕ
unfolding set_bits_below
reset_n_bitmap n b = if n == kvs_per_entry then 0x3FFF else set_bits_below n b

-- The low bytes of a number, the lowest first.
unfoldable pub low_bytes : (n x : ℕ) → List ℕ
low_bytes zero x = []
low_bytes (suc n) x = x % 2 ^ 8 ∷ low_bytes n (x / 2 ^ 8)

unfoldable pub read_bytes : List ℕ → ℕ
read_bytes [] = 0
read_bytes (b ∷ bs) = b + 2 ^ 8 * read_bytes bs

-- `EntryPointer::Setup(entry)`: six bytes of the distance from the base.
unfoldable pub setup : (base entry : ℕ) → List ℕ
unfolding low_bytes
setup base entry = low_bytes 6 ((entry + 2 ^ 64 - base) % 2 ^ 64)

-- `EntryPointer::pointer()`
unfoldable pub pointer : (base : ℕ) → List ℕ → ℕ
unfolding read_bytes
pointer base p = (read_bytes p + base) % 2 ^ 64

-- `EntryPointer::HasSetup()`: an odd first byte is a null pointer.
unfoldable pub has_setup : List ℕ → Bool
has_setup p = not (get_or p 0 1 % 2 == 1)

pub record MetaData : Type 0 where
  pub bitmap : ℕ
  pub fgpt : List ℕ
  pub entry_pointer : List ℕ

-- `MetaData(entry)`: the bytes are set to 0, then the pointer is stored.
unfoldable pub new_meta : (base entry : ℕ) → MetaData
unfolding setup
new_meta base entry = record {
  bitmap = 0;
  fgpt = replicate kvs_per_entry 0;
  entry_pointer = setup base entry;
}

-- The loop of `set_n_fgpt(kvs, size)`, from position `pos` on.
unfoldable pub set_n_fgpt : (fgpt : List ℕ) → List Kv → (pos size : ℕ) → List ℕ
unfolding hashcode1b
set_n_fgpt f s pos zero = f
set_n_fgpt f [] pos (suc n) = f
set_n_fgpt f ((k, v) ∷ s) pos (suc n) = set_n_fgpt (set f pos (hashcode1b k)) s (pos + 1) n

-- `set_fgpt(pos, key_hash)`
abbrev pub set_fgpt : List ℕ → (pos key_hash : ℕ) → List ℕ
set_fgpt f pos key_hash = set f pos key_hash
