-- ===== src/SimpleKvm/RealGuest/Whole.antt =====
-- simple-kvm.c with guest16.s as its guest: a whole run in the real mode.
use advance_virtualization_a.Prelude.{ℕ, suc, ◌+◌, ◌≤◌, ◌≡◌, refl, ap, some, List, [], ◌∷◌, arith}
use advance_virtualization_a.Memory.{u32, load-store, Bytes, of_le_bytes}
use advance_virtualization_a.Kvm.{Sregs, ok}
use advance_virtualization_a.SimpleKvm.State.{KvmEnv, exit_hlt, io_in, KvmRun, Host}
use advance_virtualization_a.SimpleKvm.Exits.{print, handle_exit}
use advance_virtualization_a.SimpleKvm.Run.{exited, returned, run_vm, with_bytes}
use advance_virtualization_a.SimpleKvm.Modes.{Entered}
use advance_virtualization_a.SimpleKvm.Main.{
  real_mode, enter, read_options, vm_init, vcpu_init, Vm, Vcpu, MainAnswers, main, mem_size, banner,
  fresh_host, exited_with, run_mode,
}
use advance_virtualization_a.SimpleKvm.Starts.{enter_lem}
use advance_virtualization_a.SimpleKvm.Success.{check_result-one_iff, run_in, run_in-exits}
use advance_virtualization_a.SimpleKvm.RealGuest.{
  guest16, assemble, RealCpu, run_real, started_cpu, with_42, ended, run_real-guest16,
}

-- The exit of HLT: its page has nothing that the hypervisor reads.
abbrev pub hlt_exit : KvmRun
hlt_exit = record {
  exit_reason = exit_hlt;
  io_direction = io_in;
  io_port = 0;
  io_size = 0;
  io_data = λ _. 0;
}

-- The kernel's answers in a run in which the guest halts and has left `m` and the registers `c`.
abbrev pub halted_with : MainAnswers → Bytes × RealCpu → MainAnswers
halted_with a (m, c) = record a { results = exited m hlt_exit ∷ []; rax = some c.rax }

-- The hypervisor when the guest has halted.
abbrev after_guest : Host → Host
after_guest h = record (with_bytes (with_42 h.mem.bytes) h) {
  total_exits = u32 (h.total_exits + 1);
}

run_vm-guest16 :
    (env : KvmEnv) (h : Host)
    → 0x402 ≤ h.mem.size
    → run_vm env (some 42) 2 (exited (with_42 h.mem.bytes) hlt_exit ∷ []) h
      ≡ returned 1 (after_guest h)
unfolding run_vm handle_exit of_le_bytes
run_vm-guest16 env h room = (check_result-one_iff (some 42) 2 (after_guest h) (after_guest h)).1 (
  record {
    in_rax = refl;
    inside = room;
    in_memory = ap of_le_bytes (load-store h.mem.bytes 0x400 (42 ∷ 0 ∷ []));
  },
  refl,
)

module _ (a : MainAnswers) (opts : List ℕ) (vm : Vm) (vcpu : Vcpu) (got : Sregs) (e : Entered)
    (fuel : ℕ) where
  -- The program simple-kvm.c without an option, or with -r last, where the kernel sets everything up, the
  -- data segment starts at 0, and the guest's program is guest16.s: once the processor has executed
  -- three instructions, the guest has halted, with 42 in RAX and in the two bytes at 0x400; with this
  -- exit of KVM_RUN the run gives 1 and the program exits with status 0. It has printed the mode's line
  -- alone and counted one exit, and of the memory that the guest started with nothing else has changed.
  pub main-runs_guest16 :
      read_options real_mode opts ≡ some real_mode
      → vm_init a.vm mem_size ≡ ok vm
      → vcpu_init a.vcpu ≡ ok vcpu
      → (a.modes real_mode).get_sregs ≡ some got
      → (a.modes real_mode).image ≡ assemble guest16
      → enter real_mode (a.modes real_mode) (print (banner real_mode) fresh_host) ≡ ok e
      → e.sregs.ds.base ≡ 0
      → let kernel = halted_with a (ended e.host.mem.bytes) in
        (h : Host) × (run_real e.sregs.cs.base e.sregs.ds.base
            (suc (suc (suc fuel)))
            e.host.mem.bytes
            (started_cpu e.regs)
          ≡ some (ended e.host.mem.bytes))
        × (run_in kernel opts real_mode vm ≡ returned 1 h)
        × (h.mem.bytes ≡ with_42 e.host.mem.bytes)
        × (h.stdout ≡ banner real_mode)
        × (h.total_exits ≡ 1)
        × (main kernel opts ≡ exited_with 0)
  unfolding run_mode assemble
  main-runs_guest16 chosen has_vm has_vcpu gets image enters ds =
      let (_, cleared, at_0, loaded, room, host_eq, size) =
        enter_lem real_mode (a.modes real_mode) got (print (banner real_mode) fresh_host) e gets
          enters in
      let cs_eq : e.sregs.cs.base ≡ 0 = omega (arith, at_0) in
      let ip_eq : e.regs.rip ≡ 0 = omega (arith, at_0) in
      let env = record (a.translate) { mem_base = vm.mem } in
      let ran : run_in (halted_with a (ended e.host.mem.bytes)) opts real_mode vm
          ≡ returned 1 (after_guest e.host) =
        rw (run_mode, enters) (run_vm-guest16 env e.host (rw size (omega arith))) in
      (
        after_guest e.host,
        rw (cs_eq, ds, ip_eq, cleared.rax)
            (run_real-guest16 fuel e.host.mem.bytes (rw image at loaded)),
        ran,
        refl,
        ap (λ h. h.stdout) host_eq,
        ap (λ h. u32 (h.total_exits + 1)) host_eq,
        run_in-exits (halted_with a (ended e.host.mem.bytes)) opts chosen has_vm has_vcpu ran,
      )
