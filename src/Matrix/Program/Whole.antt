-- ===== src/Matrix/Program/Whole.antt =====
-- `main` of matrix.c, matrix-a.c and matrix-b.c by what the kernel answers.
use advance_virtualization_a.Prelude.{
  ℕ, ◌≡◌, ◌↔◌, refl, sym, ◌∙◌, false, some, arith, List, [], ◌∷◌, ◌++◌, ℤ, pos, is_negative,
}
use advance_virtualization_a.Kvm.{ok}
use advance_virtualization_a.SimpleKvm.{ExitReason}
use advance_virtualization_a.Matrix.Sched.{Sched, KvmExit, left, run_loop}
use advance_virtualization_a.Matrix.Vm.{Vm, Vcpu}
use advance_virtualization_a.Matrix.MatrixA.{matrix_a}
use advance_virtualization_a.Matrix.MatrixB.{matrix_b}
use advance_virtualization_a.Matrix.MatrixC.{matrix}
use advance_virtualization_a.Matrix.Program.{
  Call, sigaction_sigusr1, timer_create_monotonic, timer_settime, set_signal_mask, close_fd, unmap,
  free_struct, Program, Files, Answers, Fresh, returned, main, releases, with_vcpu,
}
use advance_virtualization_a.Matrix.Program.Completes.{at_start, Completed, main-Completed_iff}
use advance_virtualization_a.Matrix.Program.OneGuest.{
  Succeeds, Holds, made, vcpu_made, reset-made, IsSetUp-Holds, IsSetUp-Succeeds, Succeeds-IsSetUp,
}

pub data Which : Type 0 where
  by_quota on_io by_quantum : Which

abbrev pub program_of : Which → Program
program_of by_quota = matrix
program_of on_io = matrix_a
program_of by_quantum = matrix_b

-- The calls before the loop: matrix.c and matrix-b.c arm a timer of one second, and give both virtual
-- processors a signal mask.
abbrev pub calls_before : Which → ℤ → ℤ → List Call
calls_before on_io fd1 fd2 = []
calls_before _ fd1 fd2 =
    sigaction_sigusr1
    ∷ timer_create_monotonic
    ∷ timer_settime 1 0 1 0
    ∷ set_signal_mask fd1 8
    ∷ set_signal_mask fd2 8
    ∷ []

-- All that the kernel has handed out is given back; the one descriptor of the device twice.
module _ {file1 file2 : ℤ × List (List ℕ)} {a1 a2 : Answers} {f1 f2 : Fresh} where
  abbrev pub calls_after : ℤ → Succeeds file1 a1 f1 → Succeeds file2 a2 f2 → List Call
  calls_after dev_fd s1 s2 =
      close_fd a1.create.create_vm
      ∷ unmap s1.ram_start 512000000
      ∷ close_fd a2.create.create_vm
      ∷ unmap s2.ram_start 512000000
      ∷ unmap s1.run s1.run_size
      ∷ close_fd a1.vcpu.create_vcpu
      ∷ unmap s2.run s2.run_size
      ∷ close_fd a2.vcpu.create_vcpu
      ∷ close_fd dev_fd
      ∷ free_struct
      ∷ close_fd dev_fd
      ∷ free_struct
      ∷ []

  -- The calls of the releases and of the set-up, for structures that hold what the kernel has answered.
  module _ (dev_fd : ℤ) (s1 : Succeeds file1 a1 f1) (s2 : Succeeds file2 a2 f2) (vm1 vm2 : Vm)
      (vcpu1 vcpu2 reset1 reset2 : Vcpu) (h1 : Holds file1 a1 f1 dev_fd s1 vm1 vcpu1 reset1)
      (h2 : Holds file2 a2 f2 dev_fd s2 vm2 vcpu2 reset2) where
    releases-eq : releases vm1 vm2 vcpu1 vcpu2 ≡ calls_after dev_fd s1 s2
    releases-eq = ground (arith, h1, h2)

    set_up-eq :
        (which : Which)
        → (program_of which).set_up reset1 reset2
          ≡ calls_before which a1.vcpu.create_vcpu a2.vcpu.create_vcpu
    set_up-eq by_quota = rw (h1.reset_fd_eq, h2.reset_fd_eq) refl
    set_up-eq on_io = refl
    set_up-eq by_quantum = rw (h1.reset_fd_eq, h2.reset_fd_eq) refl

    calls-eq :
        (which : Which)
        → (program_of which).set_up reset1 reset2 ++ releases vm1 vm2 vcpu1 vcpu2
          ≡ calls_before which a1.vcpu.create_vcpu a2.vcpu.create_vcpu ++ calls_after dev_fd s1 s2
    calls-eq which = rw (set_up-eq which, releases-eq) refl

module _ (which : Which) (exits : List KvmExit) (reasons : ℕ → ExitReason) (files : Files)
    (a1 a2 : Answers) (f1 f2 : Fresh) (dev_fd version : ℤ) where
  abbrev file1 : ℤ × List (List ℕ)
  file1 = files (program_of which).binary_file1

  abbrev file2 : ℤ × List (List ℕ)
  file2 = files (program_of which).binary_file2

  -- All that a complete run needs of the kernel and of the guests' exits, and the calls that it makes.
  pub record Completes (calls : List Call) : Type 0 where
    pub is_opened : is_negative dev_fd ≡ false
    pub is_version : version ≡ pos 12
    pub guest1 : Succeeds file1 a1 f1
    pub guest2 : Succeeds file2 a2 f2
    pub last : Sched
    pub is_left : run_loop (program_of which).round exits (at_start reasons) ≡ left last
    pub calls_eq :
        calls
        ≡ calls_before which a1.vcpu.create_vcpu a2.vcpu.create_vcpu
          ++ calls_after dev_fd guest1 guest2

  Completed-Completes :
      (calls : List Call)
      → Completed (program_of which) exits reasons files a1 a2 f1 f2 dev_fd version calls
      → Completes calls
  Completed-Completes calls c =
      let s1 = IsSetUp-Succeeds file1 a1 f1 dev_fd c.vm1 c.vcpu1 c.reset1 c.set_up1 in
      let s2 = IsSetUp-Succeeds file2 a2 f2 dev_fd c.vm2 c.vcpu2 c.reset2 c.set_up2 in
      let h1 = IsSetUp-Holds file1 a1 f1 dev_fd c.vm1 c.vcpu1 c.reset1 s1 c.set_up1 in
      let h2 = IsSetUp-Holds file2 a2 f2 dev_fd c.vm2 c.vcpu2 c.reset2 s2 c.set_up2 in
      record {
        is_opened = c.is_opened;
        is_version = c.is_version;
        guest1 = s1;
        guest2 = s2;
        last = c.last;
        is_left = c.is_left;
        calls_eq =
            c.calls_eq
            ∙ calls-eq dev_fd s1 s2 c.vm1 c.vm2 c.vcpu1 c.vcpu2 c.reset1 c.reset2 h1 h2 which;
      }

  Completes-Completed :
      (calls : List Call)
      → Completes calls
      → Completed (program_of which) exits reasons files a1 a2 f1 f2 dev_fd version calls
  Completes-Completed calls c =
      let u1 = Succeeds-IsSetUp file1 a1 f1 dev_fd c.guest1 in
      let u2 = Succeeds-IsSetUp file2 a2 f2 dev_fd c.guest2 in
      let vcpu1 = vcpu_made file1 a1 f1 dev_fd c.guest1 in
      let vcpu2 = vcpu_made file2 a2 f2 dev_fd c.guest2 in
      let vm1 = with_vcpu (made file1 a1 f1 dev_fd).1 (some vcpu1) in
      let vm2 = with_vcpu (made file2 a2 f2 dev_fd).1 (some vcpu2) in
      let reset1 = (reset-made file1 a1 f1 dev_fd vcpu1 c.guest1).0 in
      let reset2 = (reset-made file2 a2 f2 dev_fd vcpu2 c.guest2).0 in
      let h1 = IsSetUp-Holds file1 a1 f1 dev_fd vm1 vcpu1 reset1 c.guest1 u1 in
      let h2 = IsSetUp-Holds file2 a2 f2 dev_fd vm2 vcpu2 reset2 c.guest2 u2 in
      record {
        vm1 = vm1;
        vm2 = vm2;
        vcpu1 = vcpu1;
        vcpu2 = vcpu2;
        reset1 = reset1;
        reset2 = reset2;
        last = c.last;
        is_opened = c.is_opened;
        is_version = c.is_version;
        set_up1 = u1;
        set_up2 = u2;
        is_left = c.is_left;
        calls_eq =
            c.calls_eq
            ∙ sym (calls-eq dev_fd c.guest1 c.guest2 vm1 vm2 vcpu1 vcpu2 reset1 reset2 h1 h2 which);
      }

  -- matrix.c, matrix-a.c and matrix-b.c: `main` returns 0 exactly if the device opens with version 12
  -- of the interface; for both guests the kernel makes the machine, maps and sets the RAM, makes, maps and
  -- resets the virtual processor, and the binary opens and fits into the RAM; and the loop is left. By then
  -- it has made these calls, in this order: in matrix.c and matrix-b.c the timer of one second and both
  -- signal masks; then it has closed both machines and unmapped their RAM, unmapped and closed both
  -- virtual processors with the sizes that the kernel gave, and for each guest closed the device and freed
  -- the structure.
  pub main-returns_iff :
      (calls : List Call)
      → (main (program_of which) exits reasons files a1 a2 f1 f2 dev_fd version
          ≡ ok (returned (pos 0) calls))
        ↔ Completes calls
  main-returns_iff calls =
      let (from, to) =
        main-Completed_iff (program_of which) exits reasons files a1 a2 f1 f2 dev_fd version
          calls in
      (λ e. Completed-Completes calls (from e), λ c. to (Completes-Completed calls c))
