-- ===== src/Examples/MatrixGuests.antt =====
-- The programs of part2 with their guests, on runs of a few quanta.
use advance_virtualization_a.Prelude.{ℕ, ◌+◌, ◌≡◌, refl, List, [], ◌∷◌, ◌++◌, ℤ, pos, arith}
use advance_virtualization_a.SimpleKvm.{exit_unknown}
use advance_virtualization_a.Matrix.Sched.{chosen, runs_of}
use advance_virtualization_a.Matrix.Quota
use advance_virtualization_a.Matrix.Alternate
use advance_virtualization_a.Matrix.OnIo
use advance_virtualization_a.Matrix.MatrixA
use advance_virtualization_a.Matrix.Guests.{guest1_a, guest2_a, pair, loaded, returns}
use advance_virtualization_a.Matrix.Guests.Shares.{quota_exits, alternate_exits, periods-shared}
use advance_virtualization_a.Matrix.Guests.Printed.{out_lines, output-guests}

abbrev nothing : ℕ → ℕ
nothing vm = 0

abbrev fds : ℕ → ℤ
fds vm = pos (vm + 4)

output-guests_example :
    MatrixA.output fds
      (returns OnIo.round
        (pair guest1_a guest2_a)
        nothing
        (5 ∷ 3 ∷ 4 ∷ 3 ∷ [])
        loaded
        (Quota.start (λ _. exit_unknown)))
      (Quota.start (λ _. exit_unknown))
    ≡ out_lines (pos 4) 0x10 0
      ++ out_lines (pos 5) 0x11 0
      ++ out_lines (pos 4) 0x10 1
      ++ out_lines (pos 5) 0x11 65535
output-guests_example =
    output-guests fds nothing (5 ∷ 3 ∷ 4 ∷ 3 ∷ []) (λ _. exit_unknown)
      (omega arith, (omega arith, (omega arith, (omega arith, tt))))

-- Quanta of very different lengths.
abbrev quanta : List ℕ
quanta = 1000000 ∷ 7 ∷ 0 ∷ 12 ∷ 3 ∷ 5 ∷ 99 ∷ 1 ∷ 1 ∷ 2 ∷ []

periods-shared_example :
    let s = Quota.start (λ _. exit_unknown) in
    (runs_of 0 (chosen Quota.round (quota_exits nothing quanta s) s) ≡ 7)
    × (runs_of 1 (chosen Quota.round (quota_exits nothing quanta s) s) ≡ 3)
    × (runs_of 0 (chosen Alternate.round (alternate_exits nothing quanta s) s) ≡ 5)
    × (runs_of 1 (chosen Alternate.round (alternate_exits nothing quanta s) s) ≡ 5)
periods-shared_example = periods-shared nothing 1 quanta (λ _. exit_unknown) refl
