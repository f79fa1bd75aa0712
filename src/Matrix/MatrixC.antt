-- ===== src/Matrix/MatrixC.antt =====
-- matrix.c: the guests share the time by quota.
use advance_virtualization_a.Prelude.{true, ℕ, List, [], ◌∷◌, ℤ}
use advance_virtualization_a.SimpleKvm.{ExitReason}
use advance_virtualization_a.Kvm.{Result}
use advance_virtualization_a.Matrix.Sched.{Sched, KvmExit}
use advance_virtualization_a.Matrix.Quota
use advance_virtualization_a.Matrix.Vm.{Vm, Vcpu, ResetAnswers}
use advance_virtualization_a.Matrix.Program
use advance_virtualization_a.Matrix.Output
use advance_virtualization_a.Matrix.Output.{Return, Line}
use advance_virtualization_a.Matrix.Program.{
  sigaction_sigusr1, timer_create_monotonic, timer_settime, set_signal_mask, Call, RunEnd, Program,
  Files, Answers, Fresh, MainEnd,
}

-- The set-up of the timer: SIGUSR1 each second, and the signal masks of the two guests.
abbrev pub set_up_timer : Vcpu → Vcpu → List Call
set_up_timer vcpu1 vcpu2 =
    sigaction_sigusr1
    ∷ timer_create_monotonic
    ∷ timer_settime 1 0 1 0
    ∷ set_signal_mask vcpu1.vcpu_fd 8
    ∷ set_signal_mask vcpu2.vcpu_fd 8
    ∷ []

abbrev pub matrix : Program
matrix = record {
  set_up = set_up_timer;
  round = Quota.round;
  binary_file1 = "guest1.bin";
  binary_file2 = "guest2.bin";
}

-- `kvm_run_vm` and `main` of the program.
abbrev pub kvm_run_vm :
    List KvmExit
    → (ℕ → ExitReason)
    → ResetAnswers
    → ResetAnswers
    → Vm
    → Vm
    → Result (List Call × RunEnd)
kvm_run_vm = Program.kvm_run_vm matrix

abbrev pub main :
    List KvmExit
    → (ℕ → ExitReason)
    → Files
    → Answers
    → Answers
    → Fresh
    → Fresh
    → ℤ
    → ℤ
    → Result MainEnd
main = Program.main matrix

-- What `kvm_run_vm` prints, given the `vm_fd` of each guest.
abbrev pub output : (ℕ → ℤ) → List Return → Sched → List Line
output = Output.output true Quota.round (λ _ s. s)
