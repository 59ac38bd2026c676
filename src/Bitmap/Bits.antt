-- ===== src/Bitmap/Bits.antt =====
-- The bits of a bitmap, and what the operations on it do to each bit.
use Prim.Native.Nat.{bit_or}
use epli.Prelude.{
  ℕ, zero, suc, ◌+◌, ◌-◌, ◌*◌, ◌/◌, ◌%◌, ◌^◌, ◌≤◌, ◌<◌, ◌≡◌, ◌≢◌, refl, arith, ◌==◌, if◌then◌else◌,
  bit_or-digits, Bool-cases, ==→eq, ltb, inl, inr, ◌∙◌, ap, sym,
}
use epli.Bitmap.{ffs_short, set_bitmap, find_first_zero, skip_zeros}
use native.Mathlib.Nat.{
  pow-suc, mod-lt, mod-eq_of_lt, div-add-mod, mul-add-mod_self_left, mod-mod_of_dvd, dvd-mul_right,
  div-div-eq-div-mul, one-le-pow,
}

-- The digit at a position.
unfoldable pub bit : (pos x : ℕ) → ℕ
bit zero x = x % 2
bit (suc j) x = bit j (x / 2)

bit-lt : (j x : ℕ) → bit j x < 2
unfolding bit
bit-lt zero x = omega arith
bit-lt (suc j) x = bit-lt j (x / 2)

bit-zero : (j : ℕ) → bit j 0 ≡ 0
unfolding bit
bit-zero zero = refl
bit-zero (suc j) = bit-zero j

bit_or-zero : (n x : ℕ) → x ≤ n → bit_or x 0 ≡ x
bit_or-zero n zero le = refl
bit_or-zero zero (suc x) le = absurd (omega arith)
bit_or-zero (suc n) (suc x) le =
    omega (arith, bit_or-digits (suc x) 0, bit_or-zero n (suc x / 2) (omega arith))

two_pow_or : (x p : ℕ) → bit_or x (2 ^ suc p) ≡ bit_or (x / 2) (2 ^ p) * 2 + x % 2
two_pow_or x p =
    let half : 2 ^ suc p / 2 ≡ 2 ^ p = omega (arith, pow-suc 2 p) in
    let even : 2 ^ suc p % 2 ≡ 0 = omega (arith, pow-suc 2 p) in
    let step = rw (half, even) at (bit_or-digits x (2 ^ suc p)) in omega (arith, step)

-- One bit is set.
bit-bit_or : (j p x : ℕ) → bit j (bit_or x (2 ^ p)) ≡ (if j == p then 1 else bit j x)
unfolding bit
bit-bit_or zero zero x = omega (arith, bit_or-digits x 1)
bit-bit_or zero (suc p) x = ground (arith, bit_or-digits x (2 ^ suc p), pow-suc 2 p)
bit-bit_or (suc j) zero x =
    let e : bit_or x 1 / 2 ≡ x / 2 =
      omega (arith, bit_or-digits x 1, bit_or-zero (x / 2) (x / 2) (omega arith)) in
    ap (bit j) e ∙ ground arith
bit-bit_or (suc j) (suc p) x =
    let e : bit_or x (2 ^ suc p) / 2 ≡ bit_or (x / 2) (2 ^ p) = omega (arith, two_pow_or x p) in
    ap (bit j) e ∙ (bit-bit_or j p (x / 2) ∙ ground arith)

half_mod : (m x : ℕ) → 0 < m → x % (2 * m) / 2 ≡ x / 2 % m
half_mod m x pos =
    let q = x / (2 * m) in
    let r = x % (2 * m) in
    let parts : m * q * 2 + r ≡ x = grind (arith, div-add-mod x (2 * m)) in
    let low : r < 2 * m = mod-lt x (omega arith) in
    let top : x / 2 ≡ m * q + r / 2 = omega (arith, parts) in
    rw top (sym (mul-add-mod_self_left m q (r / 2) ∙ mod-eq_of_lt (omega (arith, low))))

-- The low digits stay when a number is cut.
bit-mod : (j w x : ℕ) → j < w → bit j (x % 2 ^ w) ≡ bit j x
unfolding bit
bit-mod j zero x lt = absurd (omega arith)
bit-mod zero (suc w) x lt =
    let e : 2 ^ suc w ≡ 2 * 2 ^ w = omega (arith, pow-suc 2 w) in
    rw e (mod-mod_of_dvd 2 x (dvd-mul_right 2 (2 ^ w)))
bit-mod (suc j) (suc w) x lt =
    let e : 2 ^ suc w ≡ 2 * 2 ^ w = omega (arith, pow-suc 2 w) in
    rw e (
      ap (bit j) (half_mod (2 ^ w) x (one-le-pow w 2 (omega arith)))
      ∙ bit-mod j w (x / 2) (omega arith))

-- `set_bitmap` sets the bit at its position and leaves the other bits alone.
pub bit-set_bitmap :
    (b pos j : ℕ) → j < 16 → bit j (set_bitmap b pos) ≡ (if j == pos then 1 else bit j b)
unfolding set_bitmap
bit-set_bitmap b pos j lt = bit-mod j 16 (bit_or b (2 ^ pos)) lt ∙ bit-bit_or j pos b

-- The number of the first digit that is 1 is `n`.
abbrev pub FirstOne : (x n : ℕ) → Type 0
FirstOne x n = (bit n x ≡ 1) × ((j : ℕ) → j < n → bit j x ≡ 0)

pub bit-skip : (w j x : ℕ) → bit (w + j) x ≡ bit j (x / 2 ^ w)
unfolding bit
bit-skip zero j x =
    let e : 0 + j ≡ j = omega arith in
    let q : x ≡ x / 2 ^ 0 = omega arith in ap (λ (n : ℕ). bit n x) e ∙ ap (bit j) q
bit-skip (suc w) j x =
    let e : suc w + j ≡ suc (w + j) = omega arith in
    let d : x / 2 / 2 ^ w ≡ x / 2 ^ suc w =
      div-div-eq-div-mul x 2 (2 ^ w)
      ∙ let p : 2 * 2 ^ w ≡ 2 ^ suc w = omega (arith, pow-suc 2 w) in ap (λ (n : ℕ). x / n) p in
    ap (λ (n : ℕ). bit n x) e ∙ (bit-skip w j (x / 2) ∙ ap (bit j) d)

bit_below : (w j x : ℕ) → x % 2 ^ w ≡ 0 → j < w → bit j x ≡ 0
bit_below w j x h lt = sym (bit-mod j w x lt) ∙ (ap (bit j) h ∙ bit-zero j)

-- Zeros at the low end are skipped.
FirstOne-skip : (w x n : ℕ) → x % 2 ^ w ≡ 0 → FirstOne (x / 2 ^ w) n → FirstOne x (w + n)
FirstOne-skip w x n h (one, zeros) = (
  bit-skip w n x ∙ one,
  λ j lt. elim (Bool-cases (ltb j w)) [
    | inl e ↦ bit_below w j x h (ground arith)
    | inr e ↦
        let back : w + (j - w) ≡ j = ground arith in
        ap (λ (i : ℕ). bit i x) (sym back) ∙ (bit-skip w (j - w) x ∙ zeros (j - w) (ground arith))
  ],
)

-- What is left to do: `num` has been counted, and `x` has a 1 among its low `2 * w` bits.
abbrev Rest : (x₀ x num : ℕ) → Type 0
Rest x₀ x num = (0 < num) × ((n : ℕ) → FirstOne x n → FirstOne x₀ (num - 1 + n))

skip-Rest :
    (w x₀ : ℕ) (s : ℕ × ℕ)
    → Rest x₀ s.0 s.1
    → (s.0 % 2 ^ w ≡ 0 → s.0 / 2 ^ w % 2 ^ w ≢ 0)
    → Rest x₀ (skip_zeros w s).0 (skip_zeros w s).1 × ((skip_zeros w s).0 % 2 ^ w ≢ 0)
skip-Rest w x₀ (x, num) (pos, rest) some_one = elim (Bool-cases (x % 2 ^ w == 0)) [
  | inl e ↦ rw e (
    (
      omega arith,
      λ n f.
          let back : num - 1 + (w + n) ≡ num + w - 1 + n = omega arith in
          rw (← back) (rest (w + n) (FirstOne-skip w x n (==→eq _ 0 e) f)),
    ),
    some_one (==→eq _ 0 e),
  )
  | inr e ↦ rw e ((pos, rest), ground arith)
]

-- The last step.
last-FirstOne :
    (x₀ : ℕ) (s : ℕ × ℕ)
    → Rest x₀ s.0 s.1
    → s.0 % 4 ≢ 0
    → let r = if s.0 % 2 == 0 then s.1 + 1 else s.1 in (0 < r) × FirstOne x₀ (r - 1)
last-FirstOne x₀ (x, num) (pos, rest) some_one = elim (Bool-cases (x % 2 == 0)) [
  | inl e ↦
      let second : FirstOne x 1 = (
        unfold bit in ground arith,
        λ j lt. let z : j ≡ 0 = omega arith in rw z (unfold bit in ground arith),
      ) in
      rw e
        (omega arith, let n : num - 1 + 1 ≡ num + 1 - 1 = omega arith in rw (← n) (rest 1 second))
  | inr e ↦
      let first : FirstOne x 0 = (unfold bit in ground arith, λ j lt. absurd (omega arith)) in
      rw e (pos, let n : num - 1 + 0 ≡ num - 1 = omega arith in rw (← n) (rest 0 first))
]

-- `ffs_short` of a number that is not 0 in its low 16 bits is one more than the position of its first 1.
pub ffs_short-FirstOne : (x : ℕ) → x % 2 ^ 16 ≢ 0 → (0 < ffs_short x) × FirstOne x (ffs_short x - 1)
unfolding ffs_short
ffs_short-FirstOne x some_one =
    let start : Rest x x 1 = (omega arith, λ n f. let e : 1 - 1 + n ≡ n = omega arith in rw e f) in
    let (r8, n8) = skip-Rest 8 x (x, 1) start (λ e z. omega (arith, some_one)) in
    let s8 = skip_zeros 8 (x, 1) in
    let (r4, n4) = skip-Rest 4 x s8 r8 (λ e z. omega (arith, n8)) in
    let s4 = skip_zeros 4 s8 in
    let (r2, n2) = skip-Rest 2 x s4 r4 (λ e z. omega (arith, n4)) in
    last-FirstOne x (skip_zeros 2 s4) r2 (λ e. omega (arith, n2))

bit-high : (j w x : ℕ) → x < 2 ^ w → w ≤ j → bit j x ≡ 0
unfolding bit
bit-high j zero x lt le = let z : x ≡ 0 = omega arith in rw z (bit-zero j)
bit-high zero (suc w) x lt le = absurd (omega arith)
bit-high (suc j) (suc w) x lt le = bit-high j w (x / 2) (omega (arith, pow-suc 2 w)) (omega arith)

bit-complement : (j w x : ℕ) → x < 2 ^ w → j < w → bit j (2 ^ w - 1 - x) ≡ 1 - bit j x
unfolding bit
bit-complement j zero x lt le = absurd (omega arith)
bit-complement zero (suc w) x lt le = omega (arith, pow-suc 2 w)
bit-complement (suc j) (suc w) x lt le =
    let e : (2 ^ suc w - 1 - x) / 2 ≡ 2 ^ w - 1 - x / 2 = omega (arith, pow-suc 2 w) in
    ap (bit j) e ∙ bit-complement j w (x / 2) (omega (arith, pow-suc 2 w)) (omega arith)

-- In a 16-bit bitmap with a bit that is 0, `find_first_zero` is the position of the first such bit.
pub find_first_zero_lem :
    (b : ℕ)
    → b < 2 ^ 16 - 1
    → (find_first_zero b < 16)
      × (bit (find_first_zero b) b ≡ 0)
      × ((j : ℕ) → j < find_first_zero b → bit j b ≡ 1)
unfolding find_first_zero
find_first_zero_lem b lt =
    let x = 2 ^ 16 - 1 - b in
    let f = (ffs_short-FirstOne x (omega arith)).1 in
    let one = f.0 in
    let zeros = f.1 in
    let i = ffs_short x - 1 in
    let inside : i < 16 = elim (Bool-cases (ltb i 16)) [
      | inl e ↦ ground arith
      | inr e ↦ absurd (omega (arith, one, bit-high i 16 x (omega arith) (ground arith)))
    ] in
    (
      inside,
      omega (arith, one, bit-complement i 16 b (omega arith) inside, bit-lt i b),
      λ j l.
          omega (arith, zeros j l, bit-complement j 16 b (omega arith) (omega arith), bit-lt j b),
    )

-- With all 16 bits set it is 15.
pub find_first_zero-full : find_first_zero (2 ^ 16 - 1) ≡ 15
unfolding find_first_zero ffs_short
find_first_zero-full = refl
