-- ===== src/Matrix/Program/Completes.antt =====
-- When `main` of the three programs returns 0, and the calls that it has made by then.
use advance_virtualization_a.Prelude.{
  ℕ, ◌≡◌, ◌↔◌, refl, sym, ◌∙◌, false, Option, some, List, ◌++◌, ℤ, pos, is_negative, same_int_iff,
  arith,
}
use advance_virtualization_a.Memory.{Ram}
use advance_virtualization_a.SimpleKvm.{ExitReason}
use advance_virtualization_a.Matrix.Load.{load_binary}
use advance_virtualization_a.Kvm.{Result, ok, >>=-eq-ok}
use advance_virtualization_a.Matrix.Sched.{Sched, KvmExit, LoopEnd, left, running, died, run_loop}
use advance_virtualization_a.Matrix.Vm.{
  Vm, Vcpu, kvm_init, kvm_create_vm, kvm_init_vcpu, kvm_reset_vcpu, ResetAnswers,
}
use advance_virtualization_a.Matrix.Program.{
  ram_size, Call, Program, Files, Answers, Fresh, MainEnd, returned, main, run_guests, release,
  releases, deref, finished, still_running, after_loop, created, kvm_run_vm, with_vcpu, RunEnd,
}

-- The structure of a guest once the device is open.
abbrev pub with_device : ℤ → Vm → Vm
with_device dev_fd vm = record vm { dev_fd = dev_fd; kvm_version = pos 12 }

abbrev pub at_start : (ℕ → ExitReason) → Sched
at_start reasons = record { turn = 0; count = 0; reasons = reasons }

-- One guest is set up: created as `vm`, with its binary loaded and a virtual processor `vcpu`, which
-- KVM has reset.
pub record IsSetUp (file : ℤ × List (List ℕ)) (a : Answers) (f : Fresh) (dev_fd : ℤ) (vm : Vm)
    (vcpu reset : Vcpu) : Type 0 where
  pub is_created : is_negative (kvm_create_vm a.create (with_device dev_fd f.vm) ram_size).0 ≡ false
  pub is_vm :
      vm ≡ with_vcpu (kvm_create_vm a.create (with_device dev_fd f.vm) ram_size).1 (some vcpu)
  pub is_loaded : (ram : Ram) × (load_binary file.0 file.1 f.ram ≡ ok ram)
  pub has_vcpu : kvm_init_vcpu a.vcpu f.vcpu 0 ≡ some vcpu
  pub is_reset : kvm_reset_vcpu a.reset vcpu ≡ ok reset

after_loop-finished : (e : LoopEnd) → after_loop e ≡ ok finished → (s : Sched) × (e ≡ left s)
unfolding after_loop
after_loop-finished (running s) h = ground arith
after_loop-finished (left s) h = (s, refl)
after_loop-finished died h = ground arith

-- The releases are made once the loop has ended, and need both virtual processors.
release-eq-ok :
    (before : List Call) (end : RunEnd) (vm1 vm2 : Vm) {calls : List Call}
    → release before end vm1 vm2 ≡ ok (returned (pos 0) calls)
    → (vcpu1 vcpu2 : Vcpu) × (vm1.vcpus ≡ some vcpu1)
      × (vm2.vcpus ≡ some vcpu2)
      × (end ≡ finished)
      × (calls ≡ before ++ releases vm1 vm2 vcpu1 vcpu2)
unfolding release
release-eq-ok before still_running vm1 vm2 h = ground arith
release-eq-ok before finished vm1 vm2 h =
    let (vcpu1, e1, h1) = >>=-eq-ok (deref vm1.vcpus) _ h in
    let (vcpu2, e2, h2) = >>=-eq-ok (deref vm2.vcpus) _ h1 in
    (vcpu1, vcpu2, ground arith, ground arith, refl, ground arith)

module _ (program : Program) (exits : List KvmExit) (reasons : ℕ → ExitReason) where
  kvm_run_vm-eq-ok :
      (reset1 reset2 : ResetAnswers) (vm1 vm2 : Vm) {calls : List Call} {end : RunEnd}
      → kvm_run_vm program exits reasons reset1 reset2 vm1 vm2 ≡ ok (calls, end)
      → (vcpu1 vcpu2 r1 r2 : Vcpu) × (vm1.vcpus ≡ some vcpu1)
        × (vm2.vcpus ≡ some vcpu2)
        × (kvm_reset_vcpu reset1 vcpu1 ≡ ok r1)
        × (kvm_reset_vcpu reset2 vcpu2 ≡ ok r2)
        × (after_loop (run_loop program.round exits (at_start reasons)) ≡ ok end)
        × (calls ≡ program.set_up r1 r2)
  unfolding kvm_run_vm
  kvm_run_vm-eq-ok reset1 reset2 vm1 vm2 h =
      let (vcpu1, e1, h1) = >>=-eq-ok (deref vm1.vcpus) _ h in
      let (r1, reset1_ok, h2) = >>=-eq-ok (kvm_reset_vcpu reset1 vcpu1) _ h1 in
      let (vcpu2, e2, h3) = >>=-eq-ok (deref vm2.vcpus) _ h2 in
      let (r2, reset2_ok, h4) = >>=-eq-ok (kvm_reset_vcpu reset2 vcpu2) _ h3 in
      let (end, ends, h5) =
        >>=-eq-ok (after_loop (run_loop program.round exits (at_start reasons))) _ h4 in
      (
        vcpu1,
        vcpu2,
        r1,
        r2,
        ground arith,
        ground arith,
        reset1_ok,
        reset2_ok,
        ground arith,
        ground arith,
      )

-- A complete run: the device opens in version 12, both guests are set up, the loop is left, and the
-- calls from the loop's set-up on are those of the set-up and all releases.
pub record Completed (program : Program) (exits : List KvmExit) (reasons : ℕ → ExitReason)
    (files : Files) (a1 a2 : Answers) (f1 f2 : Fresh) (dev_fd version : ℤ) (calls : List Call)
    : Type 0 where
  pub vm1 : Vm
  pub vm2 : Vm
  pub vcpu1 : Vcpu
  pub vcpu2 : Vcpu
  pub reset1 : Vcpu
  pub reset2 : Vcpu
  pub last : Sched
  pub is_opened : is_negative dev_fd ≡ false
  pub is_version : version ≡ pos 12
  pub set_up1 : IsSetUp (files program.binary_file1) a1 f1 dev_fd vm1 vcpu1 reset1
  pub set_up2 : IsSetUp (files program.binary_file2) a2 f2 dev_fd vm2 vcpu2 reset2
  pub is_left : run_loop program.round exits (at_start reasons) ≡ left last
  pub calls_eq : calls ≡ program.set_up reset1 reset2 ++ releases vm1 vm2 vcpu1 vcpu2

created-eq-zero :
    (r : ℤ × Vm) (go_on : Vm → Result MainEnd) {calls : List Call}
    → created r go_on ≡ ok (returned (pos 0) calls)
    → (is_negative r.0 ≡ false) × (go_on r.1 ≡ ok (returned (pos 0) calls))
unfolding created
created-eq-zero r go_on h = ground arith

pub kvm_init-eq-ok :
    (dev_fd version : ℤ) (vm1 vm2 : Vm) (p : Vm × Vm)
    → kvm_init dev_fd version vm1 vm2 ≡ ok p
    → (is_negative dev_fd ≡ false)
      × (version ≡ pos 12)
      × (p ≡ (with_device dev_fd vm1, with_device dev_fd vm2))
unfolding kvm_init
kvm_init-eq-ok dev_fd version vm1 vm2 p h = (
  ground arith,
  (same_int_iff version (pos 12)).0 (ground arith),
  ground (arith, same_int_iff version (pos 12)),
)

Option-inj : {A : Type 0} {a b : A} → some a ≡ some b → a ≡ b
Option-inj e = cc

calls-eq :
    (vm1 vm2 : Vm) {o1 o2 : Option Vcpu} {v1 v2 w1 w2 : Vcpu} {before set_up calls : List Call}
    → o1 ≡ some v1
    → o1 ≡ some w1
    → o2 ≡ some v2
    → o2 ≡ some w2
    → before ≡ set_up
    → calls ≡ before ++ releases vm1 vm2 w1 w2
    → calls ≡ set_up ++ releases vm1 vm2 v1 v2
calls-eq vm1 vm2 e1 e1' e2 e2' e h =
    let first = Option-inj (sym e1' ∙ e1) in
    let second = Option-inj (sym e2' ∙ e2) in
    h ∙ (λ i. e i ++ releases vm1 vm2 (first i) (second i))

module _ (program : Program) (exits : List KvmExit) (reasons : ℕ → ExitReason) (files : Files)
    (a1 a2 : Answers) (f1 f2 : Fresh) (dev_fd version : ℤ) where
  main-Completed :
      {calls : List Call}
      → main program exits reasons files a1 a2 f1 f2 dev_fd version ≡ ok (returned (pos 0) calls)
      → Completed program exits reasons files a1 a2 f1 f2 dev_fd version calls
  unfolding main run_guests
  main-Completed h =
      let guest1 = with_device dev_fd f1.vm in
      let guest2 = with_device dev_fd f2.vm in
      let (p, inits, h1) = >>=-eq-ok (kvm_init dev_fd version f1.vm f2.vm) _ h in
      let (is_opened, is_version, e) = kvm_init-eq-ok dev_fd version f1.vm f2.vm p inits in
      let r1 = kvm_create_vm a1.create guest1 ram_size in
      let r2 = kvm_create_vm a2.create guest2 ram_size in
      let go = run_guests program exits reasons files a1 a2 f1 f2 in
      let (created1, h2) = created-eq-zero r1 (λ vm1. created r2 (go vm1)) (rw e at h1) in
      let (created2, h3) = created-eq-zero r2 (go r1.1) h2 in
      let (fd1, file1) = files program.binary_file1 in
      let (fd2, file2) = files program.binary_file2 in
      let (ram1, loads1, h4) = >>=-eq-ok (load_binary fd1 file1 f1.ram) _ h3 in
      let (ram2, loads2, h5) = >>=-eq-ok (load_binary fd2 file2 f2.ram) _ h4 in
      let vm1 = with_vcpu r1.1 (kvm_init_vcpu a1.vcpu f1.vcpu 0) in
      let vm2 = with_vcpu r2.1 (kvm_init_vcpu a2.vcpu f2.vcpu 0) in
      let ((before, end), runs, h6) =
        >>=-eq-ok (kvm_run_vm program exits reasons a1.reset a2.reset vm1 vm2) _ h5 in
      let (vcpu1, vcpu2, reset1, reset2, has1, has2, resets1, resets2, loop, set_up) =
        kvm_run_vm-eq-ok program exits reasons a1.reset a2.reset vm1 vm2 runs in
      let (vcpu1', vcpu2', has1', has2', fin, calls_eq) = release-eq-ok before end vm1 vm2 h6 in
      let (last, is_left) =
        after_loop-finished (run_loop program.round exits (at_start reasons)) (rw fin at loop) in
      record {
        vm1 = with_vcpu r1.1 (some vcpu1);
        vm2 = with_vcpu r2.1 (some vcpu2);
        vcpu1 = vcpu1;
        vcpu2 = vcpu2;
        reset1 = reset1;
        reset2 = reset2;
        last = last;
        is_opened = is_opened;
        is_version = is_version;
        set_up1 = record {
          is_created = created1;
          is_vm = refl;
          is_loaded = (ram1, loads1);
          has_vcpu = has1;
          is_reset = resets1;
        };
        set_up2 = record {
          is_created = created2;
          is_vm = refl;
          is_loaded = (ram2, loads2);
          has_vcpu = has2;
          is_reset = resets2;
        };
        is_left = is_left;
        calls_eq = calls-eq vm1 vm2 has1 has1' has2 has2' set_up calls_eq;
      }

  Completed-main :
      {calls : List Call}
      → Completed program exits reasons files a1 a2 f1 f2 dev_fd version calls
      → main program exits reasons files a1 a2 f1 f2 dev_fd version ≡ ok (returned (pos 0) calls)
  unfolding main run_guests kvm_init created kvm_run_vm release after_loop
  Completed-main c = ground (arith, c.set_up1, c.set_up2)

  pub main-Completed_iff :
      (calls : List Call)
      → (main program exits reasons files a1 a2 f1 f2 dev_fd version ≡ ok (returned (pos 0) calls))
        ↔ Completed program exits reasons files a1 a2 f1 f2 dev_fd version calls
  main-Completed_iff calls = (main-Completed, Completed-main)
