-- ===== src/Clht/Smear.antt =====
-- The six steps of `pow2roundup` set all the bits below the highest one.
use Prim.Native.Nat.{bit_or, max}
use native.Mathlib.Nat.{pow-suc, pow-le-pow_right, div-le_self}
use epli.Prelude.{
  ℕ, zero, suc, ◌+◌, ◌-◌, ◌*◌, ◌/◌, ◌^◌, ◌≤◌, ◌<◌, ◌≡◌, ◌≢◌, refl, arith, ltb, bit_or-digits,
  Bool-cases, inl, inr, false, ◌==◌,
}
use epli.Bitmap.Bits.{bit, bit-skip}
use epli.Clht.{entries_per_bucket}
use epli.Clht.Resize.{smear, smear_all, pow2roundup, growth}
use epli.Clht.Growth.{smear_all-bounds, above}

bit-or : (j a b : ℕ) → bit j (bit_or a b) ≡ max (bit j a) (bit j b)
unfolding bit
bit-or zero a b = omega (arith, bit_or-digits a b)
bit-or (suc j) a b =
    let half : bit_or a b / 2 ≡ bit_or (a / 2) (b / 2) = omega (arith, bit_or-digits a b) in
    rw half (bit-or j (a / 2) (b / 2))

bit-le : (j x : ℕ) → bit j x ≤ 1
unfolding bit
bit-le zero x = omega arith
bit-le (suc j) x = bit-le j (x / 2)

bit-top : (w x : ℕ) → 2 ^ w ≤ x → x < 2 ^ suc w → bit w x ≡ 1
unfolding bit
bit-top zero x le lt = let e : x ≡ 1 = omega arith in rw e refl
bit-top (suc w) x le lt =
    bit-top w (x / 2) (omega (arith, pow-suc 2 w)) (omega (arith, pow-suc 2 (suc w)))

-- The bits from `i` on below `t` are 1.
abbrev Ones : (i t x : ℕ) → Type 0
Ones i t x = (j : ℕ) → i ≤ j → j < t → bit j x ≡ 1

smear-Ones : (s t x : ℕ) → Ones (t - s) t x → Ones (t - 2 * s) t (smear s x)
unfolding smear
smear-Ones s t x ones j le lt =
    let or = bit-or j x (x / 2 ^ s) in
    elim (Bool-cases (ltb j (t - s))) [
      | inr e ↦ omega (arith, or, ones j (ground arith) lt, bit-le j (x / 2 ^ s))
      | inl e ↦
          omega (arith, or, bit-skip s j x, ones (s + j) (ground arith) (ground arith), bit-le j x)
    ]

all-Ones : (t y : ℕ) → y < 2 ^ t → Ones 0 t y → y ≡ 2 ^ t - 1
unfolding bit
all-Ones zero y lt ones = omega arith
all-Ones (suc t) y lt ones =
    let half =
      all-Ones t (y / 2) (omega (arith, pow-suc 2 t))
        (λ j le l. ones (suc j) (omega arith) (omega arith)) in
    omega (arith, half, ones zero (omega arith) (omega arith), pow-suc 2 t)

-- A number of at most 64 bits that is not 0 becomes 2 ^ t - 1 for its number `t` of bits.
smear_all-ones : (w x : ℕ) → w < 64 → 2 ^ w ≤ x → x < 2 ^ suc w → smear_all x ≡ 2 ^ suc w - 1
unfolding smear_all
smear_all-ones w x small le lt =
    let t = suc w in
    let top : Ones (t - 1) t x = λ j a b. let e : j ≡ w = omega arith in rw e (bit-top w x le lt) in
    let o1 = smear-Ones 1 t x top in
    let o2 = smear-Ones 2 t _ o1 in
    let o4 = smear-Ones 4 t _ o2 in
    let o8 = smear-Ones 8 t _ o4 in
    let o16 = smear-Ones 16 t _ o8 in
    let o32 = smear-Ones 32 t _ o16 in
    all-Ones t (smear_all x) (smear_all-bounds t x lt).1 (λ j a b. o32 j (omega arith) b)

-- The highest bit of a number that is not 0.
top_bit : (n x : ℕ) → x ≢ 0 → x ≤ n → (w : ℕ) × (x < 2 ^ suc w) × (2 ^ w ≤ x)
top_bit n x nz le =
    let (t, lt, ge) = above n x nz le in
    elim (Bool-cases (t == 0)) [
      | inl e ↦ let z : t ≡ 0 = ground arith in absurd (let one = rw z at lt in omega arith)
      | inr e ↦
          let back : t ≡ suc (t - 1) = ground arith in
          let lt' = rw back at lt in
          let ge' = rw back at ge in (t - 1, lt', omega (arith, ge', pow-suc 2 (t - 1)))
    ]

pub exponent-lt : (w u : ℕ) → 2 ^ w < 2 ^ u → w < u
exponent-lt w u lt = elim (Bool-cases (ltb w u)) [
  | inl e ↦ ground arith
  | inr e ↦
      absurd (omega (arith, pow-le-pow_right {n = 2} (omega arith) {i = u} {j = w} (ground arith)))
]

-- For a number from 1 to 2 ^ 63, `pow2roundup` is the least power of two that is not below the number.
pub pow2roundup_lem :
    (x : ℕ)
    → 0 < x
    → x ≤ 2 ^ 63
    → (t : ℕ) × (pow2roundup x ≡ 2 ^ t) × (x ≤ 2 ^ t) × ((u : ℕ) → x ≤ 2 ^ u → 2 ^ t ≤ 2 ^ u)
unfolding pow2roundup
pow2roundup_lem x pos small = elim (Bool-cases (x == 1)) [
  | inl e ↦
      let one : x ≡ 1 = ground arith in
      rw one
        (0, omega (arith, smear_all-bounds 0 0 (omega arith)), omega arith, λ u le. omega arith)
  | inr e ↦
      let (w, lt, le) = top_bit (x - 1) (x - 1) (ground arith) (omega arith) in
      let few : w < 63 = exponent-lt w 63 (omega arith) in
      let none : (x == 0) ≡ false = ground arith in
      let wide : 2 ^ suc w ≤ 2 ^ 63 =
        pow-le-pow_right {n = 2} (omega arith) {i = suc w} {j = 63} (omega arith) in
      (
        suc w,
        rw (none, smear_all-ones w (x - 1) (omega arith) le lt) (omega (arith, wide, pow-suc 2 w)),
        omega arith,
        λ u h.
            pow-le-pow_right {n = 2} (omega arith) {i = suc w} {j = u}
              (exponent-lt w u (omega arith)),
      )
]

-- A table grows by a power of two.
pub growth-power : (size n : ℕ) → 100 * size < 2 ^ 62 → (t : ℕ) × (growth size n ≡ 2 ^ t)
unfolding growth
growth-power size n small =
    let d = n * entries_per_bucket * 40 in
    let q = 100 * size / d in
    let some_power : (t : ℕ) × (pow2roundup q ≡ 2 ^ t) = elim (Bool-cases (q == 0)) [
      | inl e ↦ let z : q ≡ 0 = ground arith in (0, rw z (unfold pow2roundup in refl))
      | inr e ↦
          let (t, at, le, least) =
            pow2roundup_lem q (ground arith) (omega (arith, div-le_self (100 * size) d)) in
          (t, at)
    ] in
    elim (Bool-cases (pow2roundup q == 1)) [
      | inl e ↦ (1, rw e refl)
      | inr e ↦ let (t, at) = some_power in (t, rw e at)
    ]
