-- ===== src/Matrix/MatrixB.antt =====
-- matrix-b.c as a whole; the rounds of its loop are those of Alternate.
use advance_virtualization_a.Prelude.{true, ℕ, Option, List, [], ◌∷◌, ℤ}
use advance_virtualization_a.Memory.{Ram}
use advance_virtualization_a.SimpleKvm.{ExitReason}
use advance_virtualization_a.Kvm.{Result}
use advance_virtualization_a.Matrix.Sched.{Sched, KvmExit}
use advance_virtualization_a.Matrix.Alternate
use advance_virtualization_a.Matrix.Vm as Structs
use advance_virtualization_a.Matrix.Vm.{CreateAnswers, VcpuAnswers, ResetAnswers}
use advance_virtualization_a.Matrix.Load
use advance_virtualization_a.Matrix.Signals
use advance_virtualization_a.Matrix.Program
use advance_virtualization_a.Matrix.Output
use advance_virtualization_a.Matrix.Output.{Return, Line}
use advance_virtualization_a.Matrix.Program.{
  sigaction_sigusr1, timer_create_monotonic, timer_settime, set_signal_mask, Call, RunEnd, Program,
  Files, Answers, Fresh, MainEnd,
}

-- The program's own copies of the structures of matrix.c, field for field.
abbrev pub Vm : Type 0
Vm = Structs.Vm

abbrev pub Vcpu : Type 0
Vcpu = Structs.Vcpu

-- The set-up of the timer: SIGUSR1 each second, and the signal masks of the two guests.
abbrev pub set_up_timer : Vcpu → Vcpu → List Call
set_up_timer vcpu1 vcpu2 =
    sigaction_sigusr1
    ∷ timer_create_monotonic
    ∷ timer_settime 1 0 1 0
    ∷ set_signal_mask vcpu1.vcpu_fd 8
    ∷ set_signal_mask vcpu2.vcpu_fd 8
    ∷ []

abbrev pub matrix_b : Program
matrix_b = record {
  set_up = set_up_timer;
  round = Alternate.round;
  binary_file1 = "guest1-b.bin";
  binary_file2 = "guest2-b.bin";
}

-- The handler of SIGUSR1, empty as that of matrix.c.
abbrev timer_handler : Sched → Sched
timer_handler = Signals.timer_handler

-- The program's own copies of the functions that it shares with matrix.c, word for word.
abbrev kvm_init : ℤ → ℤ → Vm → Vm → Result (Vm × Vm)
kvm_init = Structs.kvm_init

abbrev kvm_create_vm : CreateAnswers → Vm → ℕ → ℤ × Vm
kvm_create_vm = Structs.kvm_create_vm

abbrev load_binary : ℤ → List (List ℕ) → Ram → Result Ram
load_binary = Load.load_binary

abbrev kvm_init_vcpu : VcpuAnswers → Vcpu → ℕ → Option Vcpu
kvm_init_vcpu = Structs.kvm_init_vcpu

abbrev kvm_reset_vcpu : ResetAnswers → Vcpu → Result Vcpu
kvm_reset_vcpu = Structs.kvm_reset_vcpu

abbrev kvm_cpu_thread : List KvmExit → (ℕ → ExitReason) → ResetAnswers → Vm → Result RunEnd
kvm_cpu_thread = Program.kvm_cpu_thread

abbrev kvm_clean_vm : Vm → List Call
kvm_clean_vm = Program.kvm_clean_vm

abbrev kvm_clean_vcpu : Vcpu → List Call
kvm_clean_vcpu = Program.kvm_clean_vcpu

abbrev kvm_clean : Vm → List Call
kvm_clean = Program.kvm_clean

-- `kvm_run_vm` and `main` of the program.
abbrev pub kvm_run_vm :
    List KvmExit
    → (ℕ → ExitReason)
    → ResetAnswers
    → ResetAnswers
    → Vm
    → Vm
    → Result (List Call × RunEnd)
kvm_run_vm = Program.kvm_run_vm matrix_b

abbrev pub main :
    List KvmExit
    → (ℕ → ExitReason)
    → Files
    → Answers
    → Answers
    → Fresh
    → Fresh
    → ℤ
    → ℤ
    → Result MainEnd
main = Program.main matrix_b

-- What `kvm_run_vm` prints, given the `vm_fd` of each guest.
abbrev pub output : (ℕ → ℤ) → List Return → Sched → List Line
output = Output.output true Alternate.round (λ _ s. s)
