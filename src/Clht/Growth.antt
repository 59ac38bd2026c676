-- ===== src/Clht/Growth.antt =====
-- `pow2roundup`, and how much a table grows.
use Prim.Native.Nat.{bit_or}
use native.Mathlib.Nat.{pow-suc, div-le_self, div-add-mod, mod-lt, mul-le-mul_right}
use epli.Prelude.{
  ℕ, zero, suc, ◌+◌, ◌-◌, ◌*◌, ◌/◌, ◌^◌, ◌≤◌, ◌<◌, ◌≡◌, ◌≢◌, arith, ◌==◌, bit_or-digits, Bool-cases,
  inl, inr,
}
use epli.Clht.{entries_per_bucket}
use epli.Clht.Resize.{smear, smear_all, pow2roundup, growth}

left-le-bit_or : (n a b : ℕ) → a ≤ n → a ≤ bit_or a b
left-le-bit_or zero a b le = omega arith
left-le-bit_or (suc n) a b le = elim (Bool-cases (a == 0)) [
  | inl e ↦ ground arith
  | inr e ↦ omega (arith, bit_or-digits a b, left-le-bit_or n (a / 2) (b / 2) (ground arith))
]

bit_or-lt : (w a b : ℕ) → a < 2 ^ w → b < 2 ^ w → bit_or a b < 2 ^ w
bit_or-lt zero a b la lb =
    let p : a ≡ 0 = omega arith in let q : b ≡ 0 = omega arith in rw (p, q) (omega arith)
bit_or-lt (suc w) a b la lb = omega (
  arith,
  bit_or-digits a b,
  bit_or-lt w (a / 2) (b / 2) (omega (arith, pow-suc 2 w)) (omega (arith, pow-suc 2 w)),
)

smear-le : (s x : ℕ) → x ≤ smear s x
unfolding smear
smear-le s x = left-le-bit_or x x (x / 2 ^ s) (omega arith)

smear-lt : (w s x : ℕ) → x < 2 ^ w → smear s x < 2 ^ w
unfolding smear
smear-lt w s x lt = bit_or-lt w x (x / 2 ^ s) lt (omega (arith, div-le_self x (2 ^ s)))

-- The power of two above a number.
pub above : (n x : ℕ) → x ≢ 0 → x ≤ n → (t : ℕ) × (x < 2 ^ t) × (2 ^ t ≤ 2 * x)
above zero x nz le = absurd (omega arith)
above (suc n) x nz le = elim (Bool-cases (x == 1)) [
  | inl e ↦ (1, ground arith, ground arith)
  | inr e ↦
      let (t, lt, le') = above n (x / 2) (ground arith) (ground arith) in
      (suc t, omega (arith, pow-suc 2 t), omega (arith, pow-suc 2 t))
]

pub smear_all-bounds : (w x : ℕ) → x < 2 ^ w → (x ≤ smear_all x) × (smear_all x < 2 ^ w)
unfolding smear_all
smear_all-bounds w x lt =
    let a = smear 1 x in
    let b = smear 2 a in
    let c = smear 4 b in
    let d = smear 8 c in
    let e = smear 16 d in
    (
      omega (
        arith,
        smear-le 1 x,
        smear-le 2 a,
        smear-le 4 b,
        smear-le 8 c,
        smear-le 16 d,
        smear-le 32 e,
      ),
      smear-lt w 32 e
          (smear-lt w 16 d (smear-lt w 8 c (smear-lt w 4 b (smear-lt w 2 a (smear-lt w 1 x lt))))),
    )

-- The power of two is not below the number, and not above twice the number or 1.
pub pow2roundup-bounds :
    (x : ℕ) → x < 2 ^ 62 → (x ≤ pow2roundup x) × (0 < pow2roundup x) × (pow2roundup x ≤ 2 * x + 1)
unfolding pow2roundup
pow2roundup-bounds x small = elim (Bool-cases (x == 0)) [
  | inl e ↦ ground arith
  | inr e ↦ elim (Bool-cases (x == 1)) [
    | inl e' ↦
        let z : x ≡ 1 = ground arith in rw z (omega (arith, smear_all-bounds 0 0 (omega arith)))
    | inr e' ↦
        let (t, lt, le) = above (x - 1) (x - 1) (ground arith) (omega arith) in
        let b = smear_all-bounds t (x - 1) lt in
        rw e (
          omega (arith, b.0, b.1, lt, le),
          omega (arith, b.0, b.1, lt, le),
          omega (arith, b.0, b.1, lt, le),
        )
  ]
]

grown :
    (size n e q by : ℕ)
    → n < 2 ^ 30
    → size < 2 ^ 20
    → 3 * e ≤ size
    → 120 * (q * n) ≤ 100 * size
    → 100 * size < 120 * (q * n) + 120 * n
    → q ≤ by
    → 2 ≤ by
    → by ≤ 2 * q + 2
    → 0 < n
    → (e < by * n) × (by * n < 2 ^ 32) × (by * n ≤ 2 * size + 2 * n)
grown size n e q by few small added low high le two top pos =
    let a : q * n ≤ by * n = mul-le-mul_right n le in
    let b : 2 * n ≤ by * n = mul-le-mul_right n two in
    let c : by * n ≤ (2 * q + 2) * n = mul-le-mul_right n top in
    let d : (2 * q + 2) * n ≡ 2 * (q * n) + 2 * n = grind arith in
    (omega (arith, a, b), omega (arith, c, d), omega (arith, c, d))

-- A table of `n` buckets with `size` pairs grows to more buckets than `size` pairs can add, and to less
-- than 2 ^ 32, and at most to the sum of both, doubled.
pub growth-bounds :
    (size n e : ℕ)
    → 0 < n
    → n < 2 ^ 30
    → size < 2 ^ 20
    → 3 * e ≤ size
    → (e < growth size n * n)
      × (growth size n * n < 2 ^ 32)
      × (growth size n * n ≤ 2 * size + 2 * n)
unfolding growth
growth-bounds size n e pos few small added =
    let d = n * entries_per_bucket * 40 in
    let q = 100 * size / d in
    let by = pow2roundup q in
    let size_eq = div-add-mod (100 * size) d in
    let rest = mod-lt (100 * size) {m = d} (omega arith) in
    let product : d * q ≡ 120 * (q * n) = grind arith in
    let wide : d ≡ 120 * n = omega arith in
    let bounds = pow2roundup-bounds q (omega (arith, div-le_self (100 * size) d)) in
    elim (Bool-cases (by == 1)) [
      | inl e ↦ rw e (
          grown size n _ q 2 few small added (omega arith) (omega arith) (ground arith)
            (omega arith) (omega arith) pos)
      | inr e ↦ rw e (
          grown size n _ q by few small added (omega arith) (omega arith) (omega arith)
            (ground arith) (omega arith) pos)
    ]
