-- ===== src/Bits.antt =====
-- `|` and `&` of the C programs at fields of bits: a word of low bits, and one above it.
use Prim.Native.Nat.{digits, min, max, bit_and-bitwise, bit_or-bitwise}
use native.Mathlib.Nat.{pow-suc, le_refl}
use advance_virtualization_a.Prelude.{
  ℕ, zero, suc, ◌+◌, ◌*◌, ◌/◌, ◌%◌, ◌^◌, ◌≤◌, ◌<◌, ◌≡◌, refl, ap, ◌∙◌, bit_and, bit_or, arith,
}

-- The digits of the two operations, for any number of digits that suffices.
abbrev or_digits : ℕ → ℕ → ℕ → ℕ
or_digits = digits (λ b. b) max

abbrev and_digits : ℕ → ℕ → ℕ → ℕ
and_digits = digits (λ _. 0) min

double-field : (q k : ℕ) → q * 2 ^ suc k ≡ 2 * (q * 2 ^ k)
double-field q k = omega (arith, ap (λ (t : ℕ). q * t) (pow-suc 2 k))

or_digits-zero : (n a : ℕ) → a ≤ n → or_digits n a 0 ≡ a
or_digits-zero zero zero le = refl
or_digits-zero zero (suc a) le = absurd (omega arith)
or_digits-zero (suc n) zero le = refl
or_digits-zero (suc n) (suc a) le = omega (arith, or_digits-zero n (suc a / 2) (omega arith))

or_digits-fields : (k n a q r : ℕ) → a ≡ q * 2 ^ k → a ≤ n → r < 2 ^ k → or_digits n a r ≡ a + r
or_digits-fields zero n a q r e le lt =
    let none_left : r ≡ 0 = omega arith in rw none_left (omega (arith, or_digits-zero n a le))
or_digits-fields (suc k) zero zero q r e le lt = omega arith
or_digits-fields (suc k) zero (suc a) q r e le lt = absurd (omega arith)
or_digits-fields (suc k) (suc n) zero q r e le lt = omega arith
or_digits-fields (suc k) (suc n) (suc a) q r e le lt =
    let half : suc a / 2 ≡ q * 2 ^ k = omega (arith, double-field q k) in
    let even : suc a % 2 ≡ 0 = omega (arith, double-field q k) in
    let small : r / 2 < 2 ^ k = omega (arith, pow-suc 2 k) in
    omega (arith, or_digits-fields k n (suc a / 2) q (r / 2) half (omega arith) small)

-- `(q << k) | r` is a sum where `r` has k bits.
pub bit_or-fields : (k q r : ℕ) → r < 2 ^ k → bit_or (q * 2 ^ k) r ≡ q * 2 ^ k + r
bit_or-fields k q r lt =
    bit_or-bitwise (q * 2 ^ k) r
    ∙ or_digits-fields k (q * 2 ^ k) (q * 2 ^ k) q r refl (le_refl _) lt

and_digits-zero : (n a : ℕ) → and_digits n a 0 ≡ 0
and_digits-zero zero a = refl
and_digits-zero (suc n) zero = refl
and_digits-zero (suc n) (suc a) = omega (arith, and_digits-zero n (suc a / 2))

and_digits-low :
    (k n a m h l : ℕ) → a ≡ h * 2 ^ k + l → l < 2 ^ k → m + 1 ≡ 2 ^ k → a ≤ n → and_digits n a m ≡ l
and_digits-low zero n a m h l e lt mask le =
    let no_mask : m ≡ 0 = omega arith in rw no_mask (omega (arith, and_digits-zero n a))
and_digits-low (suc k) zero zero m h l e lt mask le = omega arith
and_digits-low (suc k) zero (suc a) m h l e lt mask le = absurd (omega arith)
and_digits-low (suc k) (suc n) zero m h l e lt mask le = omega arith
and_digits-low (suc k) (suc n) (suc a) m h l e lt mask le =
    let p = pow-suc 2 k in
    let d = double-field h k in
    let half : suc a / 2 ≡ h * 2 ^ k + l / 2 = omega (arith, d) in
    let small : l / 2 < 2 ^ k = omega (arith, p) in
    let shorter : m / 2 + 1 ≡ 2 ^ k = omega (arith, p) in
    let digit : min (suc a % 2) (m % 2) ≡ l % 2 = omega (arith, d, p) in
    omega (
      arith,
      digit,
      and_digits-low k n (suc a / 2) (m / 2) h (l / 2) half small shorter (omega arith),
    )

and_digits-high :
    (k j n a m h l : ℕ)
    → a ≡ h * 2 ^ k + l
    → l < 2 ^ k
    → h < 2 ^ j
    → m + 2 ^ k ≡ 2 ^ j * 2 ^ k
    → a ≤ n
    → and_digits n a m ≡ h * 2 ^ k
and_digits-high zero j n a m h l e lt hlt mask le =
    omega (arith, and_digits-low j n a m 0 h (omega arith) hlt (omega arith) le)
and_digits-high (suc k) j zero zero m h l e lt hlt mask le = omega arith
and_digits-high (suc k) j zero (suc a) m h l e lt hlt mask le = absurd (omega arith)
and_digits-high (suc k) j (suc n) zero m h l e lt hlt mask le = omega arith
and_digits-high (suc k) j (suc n) (suc a) m h l e lt hlt mask le =
    let p = pow-suc 2 k in
    let d = double-field h k in
    let dm = double-field (2 ^ j) k in
    let half : suc a / 2 ≡ h * 2 ^ k + l / 2 = omega (arith, d) in
    let small : l / 2 < 2 ^ k = omega (arith, p) in
    let shorter : m / 2 + 2 ^ k ≡ 2 ^ j * 2 ^ k = omega (arith, p, dm) in
    let digit : min (suc a % 2) (m % 2) ≡ 0 = omega (arith, p, dm) in
    omega (
      arith,
      d,
      digit,
      and_digits-high k j n (suc a / 2) (m / 2) h (l / 2) half small hlt shorter (omega arith),
    )

-- `x & ~(2^k - 1)`, in words of j + k bits, is the word above the k low bits.
pub bit_and-high :
    (k j a m h l : ℕ)
    → a ≡ h * 2 ^ k + l
    → l < 2 ^ k
    → h < 2 ^ j
    → m + 2 ^ k ≡ 2 ^ j * 2 ^ k
    → bit_and a m ≡ h * 2 ^ k
bit_and-high k j a m h l e lt hlt mask =
    bit_and-bitwise a m ∙ and_digits-high k j a a m h l e lt hlt mask (le_refl _)

and_digits-mask :
    (k n m a h l : ℕ) → a ≡ h * 2 ^ k + l → l < 2 ^ k → m + 1 ≡ 2 ^ k → m ≤ n → and_digits n m a ≡ l
and_digits-mask zero zero zero a h l e lt mask le = omega arith
and_digits-mask zero (suc n) zero a h l e lt mask le = omega arith
and_digits-mask zero n (suc m) a h l e lt mask le = absurd (omega arith)
and_digits-mask (suc k) n zero a h l e lt mask le = absurd (omega (arith, pow-suc 2 k))
and_digits-mask (suc k) zero (suc m) a h l e lt mask le = absurd (omega arith)
and_digits-mask (suc k) (suc n) (suc m) a h l e lt mask le =
    let p = pow-suc 2 k in
    let d = double-field h k in
    let half : a / 2 ≡ h * 2 ^ k + l / 2 = omega (arith, d) in
    let small : l / 2 < 2 ^ k = omega (arith, p) in
    let shorter : suc m / 2 + 1 ≡ 2 ^ k = omega (arith, p) in
    let digit : min (suc m % 2) (a % 2) ≡ l % 2 = omega (arith, d, p) in
    omega (
      arith,
      digit,
      and_digits-mask k n (suc m / 2) (a / 2) h (l / 2) half small shorter (omega arith),
    )

-- `(2^k - 1) & x`, the mask first.
pub bit_and-mask : (k m a h l : ℕ) → a ≡ h * 2 ^ k + l → l < 2 ^ k → m + 1 ≡ 2 ^ k → bit_and m a ≡ l
bit_and-mask k m a h l e lt mask =
    bit_and-bitwise m a ∙ and_digits-mask k m m a h l e lt mask (le_refl _)
