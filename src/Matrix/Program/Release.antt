-- ===== src/Matrix/Program/Release.antt =====
-- What the `main` of the three programs releases, and what it does with a null pointer.
use advance_virtualization_a.Prelude.{
  ℕ, ◌+◌, ◌≤◌, ◌≡◌, true, false, List, [], ◌∷◌, ◌++◌, ℤ, pos, is_negative, same_int, ◌∙◌,
  if◌then◌else◌, arith,
}
use advance_virtualization_a.Memory.{Ram}
use advance_virtualization_a.SimpleKvm.{ExitReason}
use advance_virtualization_a.Matrix.Load.{load_binary}
use advance_virtualization_a.Kvm.{Result, ok, undefined, >>=-eq-ok}
use advance_virtualization_a.Matrix.Sched.{KvmExit}
use advance_virtualization_a.Matrix.Vm.{
  Vm, Vcpu, kvm_init, CreateAnswers, kvm_create_vm, kvm_init_vcpu,
}
use advance_virtualization_a.Matrix.Program.{
  ram_size, Call, close_fd, Program, Files, Answers, Fresh, MainEnd, returned, main, run_guests,
  release, releases, deref, finished, still_running, created, kvm_run_vm, with_vcpu, RunEnd,
}

abbrev closes_once : ℤ → Call → ℕ
closes_once fd (close_fd d) = if same_int fd d then 1 else 0
closes_once fd _ = 0

-- How often the descriptor is closed.
unfoldable pub closes : ℤ → List Call → ℕ
closes fd [] = 0
closes fd (call ∷ calls) = closes_once fd call + closes fd calls

same_int_refl : (a : ℤ) → same_int a a ≡ true
same_int_refl a = ground arith

closes-append : (fd : ℤ) (xs ys : List Call) → closes fd (xs ++ ys) ≡ closes fd xs + closes fd ys
unfolding closes
closes-append fd [] ys = omega arith
closes-append fd (call ∷ xs) ys = omega (arith, closes-append fd xs ys)

-- Both structures hold the one descriptor of the device.
abbrev HoldBoth : ℤ → Vm → Vm → Type 0
HoldBoth fd vm1 vm2 = (vm1.dev_fd ≡ fd) × (vm2.dev_fd ≡ fd)

releases-closes :
    (fd : ℤ) (vm1 vm2 : Vm) (vcpu1 vcpu2 : Vcpu)
    → HoldBoth fd vm1 vm2
    → 2 ≤ closes fd (releases vm1 vm2 vcpu1 vcpu2)
unfolding closes
releases-closes fd vm1 vm2 vcpu1 vcpu2 both = ground (arith, same_int_refl fd)

after-closes :
    (fd : ℤ) (before rest : List Call) → 2 ≤ closes fd rest → 2 ≤ closes fd (before ++ rest)
after-closes fd before rest two = omega (arith, closes-append fd before rest)

release-closes :
    (fd : ℤ) (before : List Call) (end : RunEnd) (vm1 vm2 : Vm) {calls : List Call}
    → HoldBoth fd vm1 vm2
    → release before end vm1 vm2 ≡ ok (returned (pos 0) calls)
    → 2 ≤ closes fd calls
unfolding release
release-closes fd before still_running vm1 vm2 both h = ground arith
release-closes fd before finished vm1 vm2 both h =
    let (vcpu1, _, h1) = >>=-eq-ok (deref vm1.vcpus) _ h in
    let (vcpu2, _, h2) = >>=-eq-ok (deref vm2.vcpus) _ h1 in
    let rest = releases vm1 vm2 vcpu1 vcpu2 in
    let two = after-closes fd before rest (releases-closes fd vm1 vm2 vcpu1 vcpu2 both) in
    ground arith

kvm_create_vm-dev_fd :
    (a : CreateAnswers) (vm : Vm) (size : ℕ) → (kvm_create_vm a vm size).1.dev_fd ≡ vm.dev_fd
unfolding kvm_create_vm
kvm_create_vm-dev_fd a vm size = ground arith

kvm_init-HoldBoth :
    (dev_fd version : ℤ) (vm1 vm2 : Vm) (p : Vm × Vm)
    → kvm_init dev_fd version vm1 vm2 ≡ ok p
    → HoldBoth dev_fd p.0 p.1
unfolding kvm_init
kvm_init-HoldBoth dev_fd version vm1 vm2 p h = ground arith

created-eq-ok :
    (r : ℤ × Vm) (go_on : Vm → Result MainEnd) {calls : List Call}
    → created r go_on ≡ ok (returned (pos 0) calls)
    → go_on r.1 ≡ ok (returned (pos 0) calls)
unfolding created
created-eq-ok r go_on h = ground arith

module _ (program : Program) (exits : List KvmExit) (reasons : ℕ → ExitReason) (files : Files)
    (a1 a2 : Answers) (f1 f2 : Fresh) where
  abbrev guests : Vm → Vm → Result MainEnd
  guests = run_guests program exits reasons files a1 a2 f1 f2

  run_guests-closes :
      (fd : ℤ) (vm1 vm2 : Vm) {calls : List Call}
      → HoldBoth fd vm1 vm2
      → guests vm1 vm2 ≡ ok (returned (pos 0) calls)
      → 2 ≤ closes fd calls
  unfolding run_guests
  run_guests-closes fd vm1 vm2 both h =
      let (fd1, file1) = files program.binary_file1 in
      let (fd2, file2) = files program.binary_file2 in
      let (ram1, _, h1) = >>=-eq-ok (load_binary fd1 file1 f1.ram) _ h in
      let (ram2, _, h2) = >>=-eq-ok (load_binary fd2 file2 f2.ram) _ h1 in
      let vm1' = with_vcpu vm1 (kvm_init_vcpu a1.vcpu f1.vcpu 0) in
      let vm2' = with_vcpu vm2 (kvm_init_vcpu a2.vcpu f2.vcpu 0) in
      let ((before, end), _, h3) =
        >>=-eq-ok (kvm_run_vm program exits reasons a1.reset a2.reset vm1' vm2') _ h2 in
      release-closes fd before end vm1' vm2' both h3

  -- A run of `main`, of any of the three programs, that returns 0 has closed the descriptor of
  -- /dev/kvm, which it opened once, at least twice.
  pub main-closes_dev_twice :
      (dev_fd version : ℤ) {calls : List Call}
      → main program exits reasons files a1 a2 f1 f2 dev_fd version ≡ ok (returned (pos 0) calls)
      → 2 ≤ closes dev_fd calls
  unfolding main
  main-closes_dev_twice dev_fd version h =
      let (p, inits, h1) = >>=-eq-ok (kvm_init dev_fd version f1.vm f2.vm) _ h in
      let (held1, held2) = kvm_init-HoldBoth dev_fd version f1.vm f2.vm p inits in
      let r1 = kvm_create_vm a1.create p.0 ram_size in
      let r2 = kvm_create_vm a2.create p.1 ram_size in
      let h2 = created-eq-ok r1 (λ vm1. created r2 (guests vm1)) h1 in
      let h3 = created-eq-ok r2 (guests r1.1) h2 in
      run_guests-closes dev_fd r1.1 r2.1
        (
          kvm_create_vm-dev_fd a1.create p.0 ram_size ∙ held1,
          kvm_create_vm-dev_fd a2.create p.1 ram_size ∙ held2,
        )
        h3

  module _ {ram1 ram2 : Ram}
      (loaded1 : load_binary (files program.binary_file1).0 (files program.binary_file1).1 f1.ram
        ≡ ok ram1)
      (loaded2 : load_binary (files program.binary_file2).0 (files program.binary_file2).1 f2.ram
        ≡ ok ram2)
      (failed : is_negative a1.vcpu.create_vcpu ≡ true) where
    run_guests-null : (vm1 vm2 : Vm) → guests vm1 vm2 ≡ undefined
    unfolding run_guests kvm_run_vm kvm_init_vcpu
    run_guests-null vm1 vm2 = ground arith

    -- Where the guests are created and both binaries loaded, but KVM_CREATE_VCPU fails for the
    -- first guest, each of the three programs goes through a null pointer: `main` does not test
    -- what `kvm_init_vcpu` returns.
    pub main-null_vcpu :
        (dev_fd : ℤ)
        → is_negative dev_fd ≡ false
        → is_negative
            (kvm_create_vm a1.create
              (record f1.vm { dev_fd = dev_fd; kvm_version = pos 12 })
              ram_size).0
          ≡ false
        → is_negative
            (kvm_create_vm a2.create
              (record f2.vm { dev_fd = dev_fd; kvm_version = pos 12 })
              ram_size).0
          ≡ false
        → main program exits reasons files a1 a2 f1 f2 dev_fd (pos 12) ≡ undefined
    unfolding main kvm_init created
    main-null_vcpu dev_fd opened created1 created2 =
        let vm1 = record f1.vm { dev_fd = dev_fd; kvm_version = pos 12 } in
        let vm2 = record f2.vm { dev_fd = dev_fd; kvm_version = pos 12 } in
        ground (
          arith,
          run_guests-null (kvm_create_vm a1.create vm1 ram_size).1
              (kvm_create_vm a2.create vm2 ram_size).1,
        )
