-- ===== src/Bitmap/Pointer.antt =====
-- Six bytes are enough for the distance of an entry from the base of the region.
use epli.Prelude.{ℕ, ◌+◌, ◌-◌, ◌%◌, ◌^◌, ◌≤◌, ◌<◌, ◌≡◌, arith, true}
use epli.Bitmap.{low_bytes, read_bytes, setup, pointer, has_setup}

read_bytes-low_bytes : (x : ℕ) → x < 2 ^ 48 → read_bytes (low_bytes 6 x) ≡ x
unfolding read_bytes low_bytes
read_bytes-low_bytes x lt = omega arith

-- An entry at most 2 ^ 48 bytes above the base is read back from the six bytes that `Setup` stores, and
-- if its distance from the base is even, the pointer counts as set up.
pub pointer-setup :
    (base entry : ℕ)
    → base ≤ entry
    → entry < base + 2 ^ 48
    → entry < 2 ^ 64
    → (pointer base (setup base entry) ≡ entry)
      × ((entry - base) % 2 ≡ 0 → has_setup (setup base entry) ≡ true)
unfolding pointer setup
pointer-setup base entry le near small =
    let d : (entry + 2 ^ 64 - base) % 2 ^ 64 ≡ entry - base = omega arith in
    (
      rw (d, read_bytes-low_bytes (entry - base) (omega arith)) (omega arith),
      λ even. rw d (unfold has_setup low_bytes in ground arith),
    )
