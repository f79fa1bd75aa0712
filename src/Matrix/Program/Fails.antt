-- ===== src/Matrix/Program/Fails.antt =====
-- When `main` of the three programs returns -1.
use advance_virtualization_a.Prelude.{
  ℕ, ◌≡◌, ◌⊎◌, ◌↔◌, inl, inr, true, false, List, [], ℤ, pos, negsuc, is_negative, Bool-cases, arith,
  sym, ◌∙◌, ap,
}
use advance_virtualization_a.SimpleKvm.{ExitReason}
use advance_virtualization_a.Kvm.{Result, ok, >>=-eq-ok}
use advance_virtualization_a.Matrix.Sched.{KvmExit}
use advance_virtualization_a.Matrix.Load.{load_binary}
use advance_virtualization_a.Matrix.Vm.{Vm, kvm_init, kvm_create_vm, kvm_init_vcpu}
use advance_virtualization_a.Matrix.Program.{
  ram_size, Call, Program, Files, Answers, Fresh, MainEnd, returned, main, run_guests, release,
  RunEnd, finished, still_running, deref, created, kvm_run_vm, with_vcpu,
}
use advance_virtualization_a.Matrix.Program.Completes.{with_device, kvm_init-eq-ok}

release-ne-minus_one :
    (before : List Call) (end : RunEnd) (vm1 vm2 : Vm) {calls : List Call} {n : ℕ}
    → ¬ (release before end vm1 vm2 ≡ ok (returned (negsuc n) calls))
unfolding release
release-ne-minus_one before still_running vm1 vm2 h = ground arith
release-ne-minus_one before finished vm1 vm2 h =
    let (vcpu1, e1, h1) = >>=-eq-ok (deref vm1.vcpus) _ h in
    let (vcpu2, e2, h2) = >>=-eq-ok (deref vm2.vcpus) _ h1 in ground arith

created-minus_one :
    (r : ℤ × Vm) (go_on : Vm → Result MainEnd) {calls : List Call} {n : ℕ}
    → created r go_on ≡ ok (returned (negsuc n) calls)
    → ((is_negative r.0 ≡ true) × (calls ≡ []) × (n ≡ 0))
      ⊎ ((is_negative r.0 ≡ false) × (go_on r.1 ≡ ok (returned (negsuc n) calls)))
unfolding created
created-minus_one r go_on h = elim (Bool-cases (is_negative r.0)) [
  | inl failed ↦ inl (failed, ground arith, ground arith)
  | inr fine ↦ inr (fine, rw fine at h)
]

module _ (program : Program) (exits : List KvmExit) (reasons : ℕ → ExitReason) (files : Files)
    (a1 a2 : Answers) (f1 f2 : Fresh) (dev_fd version : ℤ) where
  abbrev create1 : ℤ
  create1 = (kvm_create_vm a1.create (with_device dev_fd f1.vm) ram_size).0

  abbrev create2 : ℤ
  create2 = (kvm_create_vm a2.create (with_device dev_fd f2.vm) ram_size).0

  run_guests-ne-minus_one :
      (vm1 vm2 : Vm) {calls : List Call} {n : ℕ}
      → ¬ (
          run_guests program exits reasons files a1 a2 f1 f2 vm1 vm2
          ≡ ok (returned (negsuc n) calls))
  unfolding run_guests
  run_guests-ne-minus_one vm1 vm2 h =
      let (fd1, file1) = files program.binary_file1 in
      let (fd2, file2) = files program.binary_file2 in
      let (ram1, _, h1) = >>=-eq-ok (load_binary fd1 file1 f1.ram) _ h in
      let (ram2, _, h2) = >>=-eq-ok (load_binary fd2 file2 f2.ram) _ h1 in
      let vm1' = with_vcpu vm1 (kvm_init_vcpu a1.vcpu f1.vcpu 0) in
      let vm2' = with_vcpu vm2 (kvm_init_vcpu a2.vcpu f2.vcpu 0) in
      let ((before, end), _, h3) =
        >>=-eq-ok (kvm_run_vm program exits reasons a1.reset a2.reset vm1' vm2') _ h2 in
      release-ne-minus_one before end vm1' vm2' h3

  -- Why `main` returns a negative value: a guest is not created, and the second only if the first is.
  abbrev pub NotCreated : Type 0
  NotCreated =
      (is_negative dev_fd ≡ false)
      × (version ≡ pos 12)
      × ((is_negative create1 ≡ true)
          ⊎ ((is_negative create1 ≡ false) × (is_negative create2 ≡ true)))

  main-NotCreated :
      {calls : List Call} {n : ℕ}
      → main program exits reasons files a1 a2 f1 f2 dev_fd version ≡ ok (returned (negsuc n) calls)
      → NotCreated × (n ≡ 0) × (calls ≡ [])
  unfolding main
  main-NotCreated h =
      let (p, inits, h1) = >>=-eq-ok (kvm_init dev_fd version f1.vm f2.vm) _ h in
      let (is_opened, is_version, e) = kvm_init-eq-ok dev_fd version f1.vm f2.vm p inits in
      let r1 = kvm_create_vm a1.create (with_device dev_fd f1.vm) ram_size in
      let r2 = kvm_create_vm a2.create (with_device dev_fd f2.vm) ram_size in
      let go = run_guests program exits reasons files a1 a2 f1 f2 in
      elim (created-minus_one r1 (λ vm1. created r2 (go vm1)) (rw e at h1)) [
        | inl (failed, none_made, zero_code) ↦
            ((is_opened, is_version, inl failed), zero_code, none_made)
        | inr (made, h2) ↦ elim (created-minus_one r2 (go r1.1) h2) [
          | inl (failed, none_made, zero_code) ↦
              ((is_opened, is_version, inr (made, failed)), zero_code, none_made)
          | inr (_, h3) ↦ absurd (run_guests-ne-minus_one r1.1 r2.1 h3)
        ]
      ]

  NotCreated-main :
      NotCreated
      → main program exits reasons files a1 a2 f1 f2 dev_fd version ≡ ok (returned (negsuc 0) [])
  unfolding main kvm_init created
  NotCreated-main (is_opened, is_version, inl failed) = ground arith
  NotCreated-main (is_opened, is_version, inr (made, failed)) = ground arith

  -- The `main` of each of the three programs returns -1 exactly if the device opens with version
  -- 12 of the interface, and the first guest, or else the second, cannot be created; it has then
  -- released nothing, neither the device nor what has been made of the guests.
  pub main-not_created_iff :
      (calls : List Call)
      → (main program exits reasons files a1 a2 f1 f2 dev_fd version
          ≡ ok (returned (negsuc 0) calls))
        ↔ (NotCreated × (calls ≡ []))
  main-not_created_iff calls = (
    λ h. let (why, _, none_made) = main-NotCreated h in (why, none_made),
    λ (why, none_made). NotCreated-main why ∙ ap (λ c. ok (returned (negsuc 0) c)) (sym none_made),
  )
