-- ===== src/Matrix/MatrixA.antt =====
-- matrix-a.c: the guests take turns at each I/O exit, and there is no timer.
use advance_virtualization_a.Prelude.{
  false, ℕ, ◌+◌, ◌%◌, ◌<◌, ◌≡◌, ◌≢◌, Option, List, [], ◌∷◌, ℤ, negsuc, arith,
}
use advance_virtualization_a.Memory.{Ram}
use advance_virtualization_a.SimpleKvm.{ExitReason, exit_io, exit_intr}
use advance_virtualization_a.Kvm.{Result}
use advance_virtualization_a.Matrix.Sched.{Sched, KvmExit, exit_1}
use advance_virtualization_a.Matrix.OnIo
use advance_virtualization_a.Matrix.OnIo.{pass_turn}
use advance_virtualization_a.Matrix.Vm as Structs
use advance_virtualization_a.Matrix.Vm.{CreateAnswers, VcpuAnswers, ResetAnswers}
use advance_virtualization_a.Matrix.Load
use advance_virtualization_a.Matrix.Program
use advance_virtualization_a.Matrix.Output
use advance_virtualization_a.Matrix.Output.{
  Return, Line, exit_of, failure_lines, run_failed, return_value,
}
use advance_virtualization_a.Matrix.Program.{Call, RunEnd, Program, Files, Answers, Fresh, MainEnd}

abbrev pub matrix_a : Program
matrix_a = record {
  set_up = λ _ _. [];
  round = OnIo.round;
  binary_file1 = "guest1-a.bin";
  binary_file2 = "guest2-a.bin";
}

-- The program's own copies of the structures of matrix.c, field for field.
abbrev pub Vm : Type 0
Vm = Structs.Vm

abbrev pub Vcpu : Type 0
Vcpu = Structs.Vcpu

-- The program's own copies of the functions that it shares with matrix.c, word for word.
abbrev kvm_init : ℤ → ℤ → Vm → Vm → Result (Vm × Vm)
kvm_init = Structs.kvm_init

abbrev kvm_create_vm : CreateAnswers → Vm → ℕ → ℤ × Vm
kvm_create_vm = Structs.kvm_create_vm

abbrev load_binary : ℤ → List (List ℕ) → Ram → Result Ram
load_binary = Load.load_binary

abbrev kvm_init_vcpu : VcpuAnswers → Vcpu → ℕ → Option Vcpu
kvm_init_vcpu = Structs.kvm_init_vcpu

abbrev kvm_reset_vcpu : ResetAnswers → Vcpu → Result Vcpu
kvm_reset_vcpu = Structs.kvm_reset_vcpu

abbrev kvm_cpu_thread : List KvmExit → (ℕ → ExitReason) → ResetAnswers → Vm → Result RunEnd
kvm_cpu_thread = Program.kvm_cpu_thread

abbrev kvm_clean_vm : Vm → List Call
kvm_clean_vm = Program.kvm_clean_vm

abbrev kvm_clean_vcpu : Vcpu → List Call
kvm_clean_vcpu = Program.kvm_clean_vcpu

abbrev kvm_clean : Vm → List Call
kvm_clean = Program.kvm_clean

-- `kvm_run_vm` and `main` of the program.
abbrev pub kvm_run_vm :
    List KvmExit
    → (ℕ → ExitReason)
    → ResetAnswers
    → ResetAnswers
    → Vm
    → Vm
    → Result (List Call × RunEnd)
kvm_run_vm = Program.kvm_run_vm matrix_a

abbrev pub main :
    List KvmExit
    → (ℕ → ExitReason)
    → Files
    → Answers
    → Answers
    → Fresh
    → Fresh
    → ℤ
    → ℤ
    → Result MainEnd
main = Program.main matrix_a

-- What `kvm_run_vm` prints, given the `vm_fd` of each guest.
abbrev pub output : (ℕ → ℤ) → List Return → Sched → List Line
output = Output.output false OnIo.round pass_turn

-- With the turn at one of the two guests, a failed KVM_RUN whose page says I/O, where the page of the
-- other guest does not say INTR, ends the program with messages that name the other guest.
pub failed_io-names_other :
    (vm_fd : ℕ → ℤ) (s : Sched) (port data_value n : ℕ)
    → s.turn < 2
    → s.reasons ((s.turn + 1) % 2) ≢ exit_intr
    → let r : Return = record {
      ret = negsuc n;
      reason = exit_io;
      port = port;
      data_value = data_value;
    } in
      (OnIo.round (exit_of r) s ≡ exit_1)
      × (failure_lines false OnIo.round pass_turn vm_fd r s
          ≡ run_failed (vm_fd ((s.turn + 1) % 2))
            ∷ return_value (vm_fd ((s.turn + 1) % 2)) (negsuc n)
            ∷ [])
unfolding OnIo.round failure_lines
failed_io-names_other vm_fd s port data_value n lt other = ground arith
