-- ===== src/Examples/Schedules.antt =====
-- The schedulers of matrix.c and matrix-b.c over longer runs, with the timer's signals.
use advance_virtualization_a.Prelude.{
  ℕ, ℤ, pos, negsuc, ◌+◌, ◌%◌, ◌≤◌, ◌≡◌, refl, false, [], ◌∷◌, arith, replicate, List,
}
use advance_virtualization_a.SimpleKvm.{exit_intr, exit_io, exit_mmio, exit_unknown}
use advance_virtualization_a.Matrix.Sched.{Sched, KvmExit, tick, chosen, runs_of}
use advance_virtualization_a.Matrix.Quota
use advance_virtualization_a.Matrix.Alternate
use advance_virtualization_a.Matrix.Starvation.{in_turn, second_starves}
use advance_virtualization_a.Matrix.Fairness.{both_served}
use advance_virtualization_a.Matrix.Output.{Return}
use advance_virtualization_a.Matrix.Signals.{
  System, Reach, start, later, expires, exits, runs_again, interrupts, handles_interrupted,
  calls_sigwait, sigwait_returns,
}
use advance_virtualization_a.Matrix.Signals.Quanta.{half_lost}
use advance_virtualization_a.Matrix.Signals.Turns.{Reach-turn}

abbrev at_start : Sched
at_start = record { turn = 0; count = 0; reasons = λ _. exit_unknown }

abbrev io : KvmExit
io = record { failed = false; reason = exit_io }

abbrev mmio : KvmExit
mmio = record { failed = false; reason = exit_mmio }

-- Nine I/O exits, and the signal.
abbrev busy : List KvmExit
busy = replicate 9 io

second_starves_example :
    runs_of 1
      (chosen Quota.round (in_turn (busy ∷ busy ∷ busy ∷ [])) (Quota.start (λ _. exit_unknown)))
    ≡ 0
second_starves_example = second_starves (busy ∷ busy ∷ busy ∷ []) (λ _. exit_unknown) (ground arith)

both_served_example :
    1 ≤ runs_of 1 (chosen Alternate.round (io ∷ mmio ∷ io ∷ tick ∷ mmio ∷ []) at_start)
unfolding Alternate.ticks
both_served_example =
    both_served 1 (io ∷ mmio ∷ io ∷ tick ∷ []) mmio at_start (omega arith) (omega arith)
      (ground arith) (omega arith)

-- Two expirations of the timer and one quantum, with an I/O exit in it.
one_quantum :
    (s : System) × Reach Alternate.round false at_start s × (s.quanta ≡ 1) × (s.expired ≡ 2)
unfolding Alternate.round
one_quantum =
    let entered = later start (runs_again refl (λ _. refl)) in
    let at_io = later entered (exits io refl refl refl) in
    let again = later at_io (runs_again refl (λ _. refl)) in
    let expired = later again expires in
    let stopped = later expired (interrupts refl refl refl) in
    let handled = later stopped (handles_interrupted refl refl refl) in
    let waits = later handled (calls_sigwait refl (λ _. refl)) in
    let expired_again = later waits expires in
    (_, later expired_again (sigwait_returns refl refl), refl, refl)

half_lost_example : one_quantum.0.quanta + one_quantum.0.quanta ≤ one_quantum.0.expired + 1
half_lost_example = half_lost Alternate.round one_quantum.1

Reach-turn_example : one_quantum.0.sched.turn ≡ one_quantum.0.quanta % 2
unfolding one_quantum
Reach-turn_example = Reach-turn false at_start (omega arith) one_quantum.1

abbrev vm_fd : ℕ → ℤ
vm_fd vm = pos (vm + 4)

abbrev io_return : Return
io_return = record { ret = pos 0; reason = exit_io; port = 0xE9; data_value = 1 }

abbrev tick_return : Return
tick_return = record { ret = negsuc 3; reason = exit_intr; port = 0; data_value = 0 }
