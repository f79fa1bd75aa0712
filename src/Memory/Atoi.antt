-- ===== src/Memory/Atoi.antt =====
-- `atoi` of the C library, and that it reads back what `%d` prints.
use advance_virtualization_a.Prelude.{
  Option, none, some, ℕ, zero, suc, ◌+◌, ◌-◌, ◌*◌, ◌/◌, ◌<◌, ◌≡◌, refl, true, inl, inr, Bool, ◌&&◌,
  ◌||◌, List, [], ◌∷◌, ◌++◌, ℤ, pos, negsuc, arith, ltb, leb, ◌==◌, if◌then◌else◌, Bool-cases,
}
use advance_virtualization_a.Memory.Decimal.{digits, show_u32, read_digits, read_digits-show_u32}

abbrev pub is_space : ℕ → Bool
is_space c = c == 32 || leb 9 c && leb c 13

abbrev pub is_digit : ℕ → Bool
is_digit c = leb 48 c && leb c 57

-- The number that the digits at the start of a text name.
unfoldable pub leading_digits : ℕ → List ℕ → ℕ
leading_digits acc [] = acc
leading_digits acc (c ∷ cs) =
    let rest = leading_digits (acc * 10 + (c - 48)) cs in if is_digit c then rest else acc

abbrev pub negated : ℕ → ℤ
negated zero = pos 0
negated (suc n) = negsuc n

after_space : List ℕ → ℤ
unfolding leading_digits
after_space [] = pos 0
after_space (c ∷ cs) =
    if c == 45
    then negated (leading_digits 0 cs)
    else (if c == 43 then pos (leading_digits 0 cs) else pos (leading_digits 0 (c ∷ cs)))

-- White space, a sign, digits.
number_of : List ℕ → ℤ
unfolding after_space
number_of [] = pos 0
number_of (c ∷ cs) = let rest = number_of cs in if is_space c then rest else after_space (c ∷ cs)

abbrev is_int : ℤ → Bool
is_int (pos n) = ltb n 0x8000_0000
is_int (negsuc n) = ltb n 0x8000_0000

-- The number that the text begins with; `none` for one outside of `int`, where C leaves the result
-- undefined.
unfoldable pub atoi : List ℕ → Option ℤ
unfolding number_of
atoi cs = let n = number_of cs in if is_int n then some n else none

-- A text of digits.
abbrev pub AllDigits : List ℕ → Type 0
AllDigits [] = Unit
AllDigits (c ∷ cs) = (is_digit c ≡ true) × AllDigits cs

AllDigits-append : (xs ys : List ℕ) → AllDigits xs → AllDigits ys → AllDigits (xs ++ ys)
AllDigits-append [] ys hx hy = hy
AllDigits-append (x ∷ xs) ys hx hy = (hx.0, AllDigits-append xs ys hx.1 hy)

pub digits-AllDigits : (fuel n : ℕ) → AllDigits (digits fuel n)
unfolding digits
digits-AllDigits zero n = tt
digits-AllDigits (suc fuel) n = elim (Bool-cases (ltb n 10)) [
  | inl small ↦ rw small (ground arith, tt)
  | inr big ↦ rw big (
      AllDigits-append (digits fuel (n / 10)) _ (digits-AllDigits fuel (n / 10)) (ground arith, tt))
]

leading_digits-AllDigits :
    (acc : ℕ) (cs : List ℕ) → AllDigits cs → leading_digits acc cs ≡ read_digits acc cs
unfolding leading_digits read_digits
leading_digits-AllDigits acc [] h = refl
leading_digits-AllDigits acc (c ∷ cs) h =
    rw h.0 (leading_digits-AllDigits (acc * 10 + (c - 48)) cs h.1)

number_of-AllDigits : (cs : List ℕ) → AllDigits cs → number_of cs ≡ pos (read_digits 0 cs)
unfolding number_of read_digits
number_of-AllDigits [] h = refl
number_of-AllDigits (c ∷ cs) h = ground (arith, leading_digits-AllDigits 0 (c ∷ cs) h)

-- The decimal text that `%d` prints of an `int` which is not negative is read by `atoi` as that number.
pub atoi-show_u32 : (n : ℕ) → n < 2147483648 → atoi (show_u32 n) ≡ some (pos n)
unfolding atoi show_u32
atoi-show_u32 n lt =
    let e : number_of (show_u32 n) ≡ pos n =
      rw
        (
          number_of-AllDigits (show_u32 n) (digits-AllDigits 10 n),
          read_digits-show_u32 n (omega arith),
        )
        refl in
    rw e (ground arith)
