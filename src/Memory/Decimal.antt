-- ===== src/Memory/Decimal.antt =====
-- `%u` and `%lld` of `printf`: decimal digits, with a reader that shows that they name the number.
use advance_virtualization_a.Prelude.{
  ℕ, zero, suc, ◌+◌, ◌-◌, ◌*◌, ◌/◌, ◌%◌, ◌^◌, ◌≤◌, ◌<◌, ◌≡◌, refl, inl, inr, List, [], ◌∷◌, ◌++◌,
  arith, ltb, if◌then◌else◌, length, length-append, Bool-cases,
}
use native.Mathlib.Nat.{pow-suc}
use advance_virtualization_a.Memory.Laws.{HasNoNul, HasNoNul-append}

-- The last `fuel` digits of a number, without leading zeros.
unfoldable pub digits : ℕ → ℕ → List ℕ
digits zero n = []
digits (suc fuel) n =
    let more = digits fuel (n / 10) in
    if ltb n 10 then (48 + n) ∷ [] else more ++ (48 + n % 10) ∷ []

-- `%u` of a `uint32_t`: ten digits are enough.
unfoldable pub show_u32 : ℕ → List ℕ
unfolding digits
show_u32 n = digits 10 n

-- `%lld` of a 64-bit pattern; its absolute value has at most nineteen digits.
unfoldable pub show_i64 : ℕ → List ℕ
unfolding digits
show_i64 n =
    if ltb n 9223372036854775808 then digits 20 n else 45 ∷ digits 20 (18446744073709551616 - n)

-- The number that a text of digits names.
unfoldable pub read_digits : ℕ → List ℕ → ℕ
read_digits acc [] = acc
read_digits acc (c ∷ cs) = read_digits (acc * 10 + (c - 48)) cs

read_digits-snoc :
    (acc : ℕ) (cs : List ℕ) (c : ℕ)
    → read_digits acc (cs ++ c ∷ []) ≡ read_digits acc cs * 10 + (c - 48)
unfolding read_digits
read_digits-snoc acc [] c = refl
read_digits-snoc acc (d ∷ cs) c = read_digits-snoc (acc * 10 + (d - 48)) cs c

div-lt-pow : (f n : ℕ) → n < 10 ^ suc f → n / 10 < 10 ^ f
div-lt-pow f n h = omega (arith, pow-suc 10 f)

pub read_digits-digits : (fuel n : ℕ) → 0 < fuel → n < 10 ^ fuel → read_digits 0 (digits fuel n) ≡ n
unfolding digits read_digits
read_digits-digits zero n p h = elim p [ ]
read_digits-digits (suc zero) n p h = ground arith
read_digits-digits (suc (suc f)) n p h =
    let ih = read_digits-digits (suc f) (n / 10) (omega arith) (div-lt-pow (suc f) n h) in
    elim (Bool-cases (ltb n 10)) [
      | inl small ↦ ground arith
      | inr big ↦ rw (big, read_digits-snoc) (omega (arith, ih))
    ]

-- The decimal text of a `uint32_t` reads back as the number.
pub read_digits-show_u32 : (n : ℕ) → n < 4294967296 → read_digits 0 (show_u32 n) ≡ n
unfolding show_u32
read_digits-show_u32 n h = read_digits-digits 10 n (omega arith) (omega arith)

length-digits : (fuel n : ℕ) → length (digits fuel n) ≤ fuel
unfolding digits
length-digits zero n = omega arith
length-digits (suc f) n =
    ground (arith, length-append (digits f (n / 10)) ((48 + n % 10) ∷ []), length-digits f (n / 10))

pub length-show_u32 : (n : ℕ) → length (show_u32 n) ≤ 10
unfolding show_u32
length-show_u32 n = length-digits 10 n

digits-HasNoNul : (fuel n : ℕ) → HasNoNul (digits fuel n)
unfolding digits
digits-HasNoNul zero n = tt
digits-HasNoNul (suc f) n = elim (Bool-cases (ltb n 10)) [
  | inl small ↦ rw small (omega arith, tt)
  | inr big ↦
      rw big (HasNoNul-append (digits f (n / 10)) _ (digits-HasNoNul f (n / 10)) (omega arith, tt))
]

pub show_u32-HasNoNul : (n : ℕ) → HasNoNul (show_u32 n)
unfolding show_u32
show_u32-HasNoNul n = digits-HasNoNul 10 n
