-- ===== src/SimpleKvm/Success.antt =====
-- When `run_vm` and `main` of simple-kvm.c report success.
use advance_virtualization_a.Prelude.{
  ℕ, zero, suc, ◌+◌, ◌≤◌, ◌≡◌, ◌↔◌, ◌⊎◌, refl, Option, none, some, List, [], ◌∷◌, arith,
}
use advance_virtualization_a.Memory.{of_le_bytes, load, read_ram}
use advance_virtualization_a.Kvm.{Result, ok, exit_1, undefined, ◌>>=◌}
use advance_virtualization_a.SimpleKvm.State.{
  Host, KvmEnv, resume, halted, exit_failure, out_of_bounds, Step,
}
use advance_virtualization_a.SimpleKvm.Exits.{print, handle_exit}
use advance_virtualization_a.SimpleKvm.Run.{
  RunResult, run_failed, exited, RunOutcome, returned, check_result, with_bytes, run_vm,
}
use advance_virtualization_a.SimpleKvm.Modes.{ModeAnswers, Entered}
use advance_virtualization_a.SimpleKvm.Main.{
  Mode, read_options, real_mode, vm_init, vcpu_init, Vm, Vcpu, MainAnswers, main, mem_size,
  compared, run_mode, run_entered, enter, status_of, run_chosen, main_with, banner, exited_with,
  fresh_host,
}

-- `rax` and the bytes from 0x400 on hold 42.
pub record HasResult (rax : Option ℕ) (sz : ℕ) (h : Host) : Type 0 where
  pub in_rax : rax ≡ some 42
  pub inside : 0x400 + sz ≤ h.mem.size
  pub in_memory : of_le_bytes (load h.mem.bytes 0x400 sz) ≡ 42

-- Once the guest has halted, the result is 1 exactly if `rax` is 42 and the `sz` bytes from 0x400 on, which
-- lie in memory, are 42 as a number.
pub check_result-one_iff :
    (rax : Option ℕ) (sz : ℕ) (h h' : Host)
    → (check_result rax sz h ≡ returned 1 h') ↔ (HasResult rax sz h × (h ≡ h'))
unfolding check_result read_ram
check_result-one_iff rax sz h h' = ground arith

-- A run that returns has halted.
run_vm-returned :
    (env : KvmEnv) (rax : Option ℕ) (sz : ℕ) (results : List RunResult) (h h' : Host) (n : ℕ)
    → run_vm env rax sz results h ≡ returned n h'
    → (h₁ : Host) × (check_result rax sz h₁ ≡ returned n h')
unfolding run_vm
run_vm-returned env rax sz [] h h' n e = ground arith
run_vm-returned env rax sz (run_failed ∷ results) h h' n e = ground arith
run_vm-returned env rax sz (exited bytes run ∷ results) h h' n e =
    after (handle_exit env run (with_bytes bytes h))
      (λ h₁. run_vm-returned env rax sz results h₁ h' n) e
  where
    after :
        (s : Step)
        → ((h₁ : Host)
            → run_vm env rax sz results h₁ ≡ returned n h'
            → (h₂ : Host) × (check_result rax sz h₂ ≡ returned n h'))
        → (elim s [
          | resume h₁ _ ↦ run_vm env rax sz results h₁
          | halted h₁ ↦ check_result rax sz h₁
          | exit_failure h₁ ↦ RunOutcome.exit_1 h₁
          | out_of_bounds ↦ RunOutcome.undefined
        ])
          ≡ returned n h'
        → (h₂ : Host) × (check_result rax sz h₂ ≡ returned n h')
    after (resume h₁ _) ih e₁ = ih h₁ e₁
    after (halted h₁) ih e₁ = (h₁, e₁)
    after (exit_failure h₁) ih e₁ = ground arith
    after out_of_bounds ih e₁ = ground arith

check_result-bit :
    (rax : Option ℕ) (sz : ℕ) (h h' : Host) (n : ℕ)
    → check_result rax sz h ≡ returned n h'
    → (n ≡ 0) ⊎ (n ≡ 1)
unfolding check_result
check_result-bit rax sz h h' n e = ground arith

-- A run in a mode that gives 1 has the result in place.
run_mode-one :
    (env : KvmEnv) (rax : Option ℕ) (results : List RunResult) (answers : ModeAnswers) (h h' : Host)
    (mode : Mode) (n : ℕ)
    → run_mode env rax results answers h mode ≡ returned (suc n) h'
    → (n ≡ 0) × HasResult rax (compared mode) h'
unfolding run_mode
run_mode-one env rax results answers h h' mode n e =
    go (enter mode answers (print (banner mode) h)) e
  where
    go :
        (r : Result Entered)
        → run_entered (run_vm env rax (compared mode) results) (print (banner mode) h) r
          ≡ returned (suc n) h'
        → (n ≡ 0) × HasResult rax (compared mode) h'
    go (ok entered) e₁ =
        let (h₁, e₂) = run_vm-returned env rax (compared mode) results entered.host h' (suc n) e₁ in
        let one : n ≡ 0 = omega (arith, check_result-bit rax (compared mode) h₁ h' (suc n) e₂) in
        let (result, same) = (check_result-one_iff rax (compared mode) h₁ h').0 (rw one at e₂) in
        (one, rw same at result)
    go exit_1 e₁ = ground arith
    go undefined e₁ = ground arith

module _ (a : MainAnswers) (opts : List ℕ) where
  -- The run in a mode, in the virtual machine that was set up.
  abbrev pub run_in : Mode → Vm → RunOutcome
  run_in mode vm =
      run_mode (record a.translate { mem_base = vm.mem }) a.rax a.results (a.modes mode) fresh_host
        mode

  -- What stands behind an exit status of 0: the options name a mode, the virtual machine and its CPU
  -- are set up, and the run in that mode gives 1, with the guest's result in place.
  pub record Succeeds : Type 0 where
    pub mode : Mode
    pub vm : Vm
    pub vcpu : Vcpu
    pub host : Host
    pub chosen : read_options real_mode opts ≡ some mode
    pub has_vm : vm_init a.vm mem_size ≡ ok vm
    pub has_vcpu : vcpu_init a.vcpu ≡ ok vcpu
    pub ran : run_in mode vm ≡ returned 1 host
    pub has_result : HasResult a.rax (compared mode) host

  module _ (mode : Mode) (vm : Vm) (vcpu : Vcpu) (chosen : read_options real_mode opts ≡ some mode)
      (has_vm : vm_init a.vm mem_size ≡ ok vm) (has_vcpu : vcpu_init a.vcpu ≡ ok vcpu) where
    returned-Succeeds :
        (n : ℕ) (h : Host)
        → run_in mode vm ≡ returned n h
        → status_of (returned n h) ≡ exited_with 0
        → Succeeds
    unfolding main
    returned-Succeeds zero h runs status = cc
    returned-Succeeds (suc n) h runs status =
        let (one, result) = run_mode-one _ _ _ _ _ h mode n runs in
        record {
          mode = mode;
          vm = vm;
          vcpu = vcpu;
          host = h;
          chosen = chosen;
          has_vm = has_vm;
          has_vcpu = has_vcpu;
          ran = rw one at runs;
          has_result = result;
        }

    run-Succeeds : (r : RunOutcome) → run_in mode vm ≡ r → status_of r ≡ exited_with 0 → Succeeds
    unfolding main
    run-Succeeds (returned n h) runs status = returned-Succeeds n h runs status
    run-Succeeds (RunOutcome.pending _) runs status = cc
    run-Succeeds (RunOutcome.exit_1 _) runs status = cc
    run-Succeeds RunOutcome.undefined runs status = cc

  set_up-Succeeds :
      (mode : Mode)
      → read_options real_mode opts ≡ some mode
      → (vm : Result Vm) → vm_init a.vm mem_size ≡ vm
      → (vcpu : Result Vcpu) → vcpu_init a.vcpu ≡ vcpu
      → run_chosen a mode (vm >>= λ v. vcpu >>= λ c. ok (v, c)) ≡ exited_with 0
      → Succeeds
  unfolding main
  set_up-Succeeds mode chosen (ok vm) has_vm (ok vcpu) has_vcpu status =
      run-Succeeds mode vm vcpu chosen has_vm has_vcpu _ refl status
  set_up-Succeeds mode chosen (ok vm) has_vm exit_1 has_vcpu status = cc
  set_up-Succeeds mode chosen (ok vm) has_vm undefined has_vcpu status = cc
  set_up-Succeeds mode chosen exit_1 has_vm _ has_vcpu status = cc
  set_up-Succeeds mode chosen undefined has_vm _ has_vcpu status = cc

  chosen-Succeeds :
      (o : Option Mode) → read_options real_mode opts ≡ o → main_with a o ≡ exited_with 0 → Succeeds
  unfolding main
  chosen-Succeeds none chosen status = cc
  chosen-Succeeds (some mode) chosen status =
      set_up-Succeeds mode chosen (vm_init a.vm mem_size) refl (vcpu_init a.vcpu) refl status

  main-Succeeds : main a opts ≡ exited_with 0 → Succeeds
  unfolding main
  main-Succeeds status = chosen-Succeeds (read_options real_mode opts) refl status

  -- Once all is set up, a run that gives 1 makes the program exit with 0.
  pub run_in-exits :
      {mode : Mode} {vm : Vm} {vcpu : Vcpu} {h : Host}
      → read_options real_mode opts ≡ some mode
      → vm_init a.vm mem_size ≡ ok vm
      → vcpu_init a.vcpu ≡ ok vcpu
      → run_in mode vm ≡ returned 1 h
      → main a opts ≡ exited_with 0
  unfolding main
  run_in-exits chosen has_vm has_vcpu ran = rw chosen (rw has_vm (rw has_vcpu (rw ran refl)))

  Succeeds-main : Succeeds → main a opts ≡ exited_with 0
  Succeeds-main s = run_in-exits s.chosen s.has_vm s.has_vcpu s.ran

  -- The program exits with status 0 exactly if its options name a mode, the virtual machine and its CPU
  -- are set up, and the run in that mode gives 1, with 42 in `rax` and in the bytes from 0x400 on of
  -- the memory that the run leaves.
  pub main-succeeds_iff : (main a opts ≡ exited_with 0) ↔ Succeeds
  main-succeeds_iff = (main-Succeeds, Succeeds-main)
