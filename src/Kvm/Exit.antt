-- ===== src/Kvm/Exit.antt =====
-- A step of a program that may end it: by `exit(1)`, or by an access through a null pointer or
-- outside of an object, which C leaves undefined.
use advance_virtualization_a.Prelude.{◌≡◌, refl, Bool, true, false}

pub data Result {ℓ} (A : Type ℓ) : Type ℓ where
  exit_1 undefined : Result A
  ok : A → Result A

infixl 5 ◌>>=◌
infixl 5 ◌>>◌
-- A step, and the rest of the program.
abbrev pub ◌>>=◌ {ℓ κ} :
    {A : Type ℓ} {B : Type κ} (step : Result A) (rest : A → Result B) → Result B
exit_1 >>= rest = exit_1
undefined >>= rest = undefined
ok value >>= rest = rest value

-- `if (failed) { perror(…); exit(1); }`
abbrev pub exit_if : (failed : Bool) → Result (Unit {0})
exit_if false = ok tt
exit_if true = exit_1

abbrev pub ◌>>◌ {κ} : {B : Type κ} (step : Result (Unit {0})) (rest : Result B) → Result B
step >> rest = step >>= (λ done. rest)

-- The steps of a successful sequence.
pub >>=-eq-ok {ℓ κ} :
    {A : Type ℓ} {B : Type κ} (step : Result A) (rest : A → Result B) {b : B}
    → (step >>= rest) ≡ ok b
    → (a : A) × (step ≡ ok a) × (rest a ≡ ok b)
>>=-eq-ok (ok a) rest h = (a, refl, h)
>>=-eq-ok exit_1 rest h = cc
>>=-eq-ok undefined rest h = cc
