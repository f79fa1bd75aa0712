-- ===== src/Guest/Traced/Whole.antt =====
-- simple-kvm.c with guest.c as its guest: a whole run.
use advance_virtualization_a.Prelude.{
  ℕ, ◌+◌, ◌≤◌, ◌<◌, ◌≡◌, ◌≢◌, refl, ap, ◌∙◌, some, List, [], ◌∷◌, ◌++◌, arith,
}
use advance_virtualization_a.Memory.{u32, Bytes, read_string}
use advance_virtualization_a.Kvm.{ok}
use advance_virtualization_a.SimpleKvm.{
  exit_hlt, io_out, KvmRun, KvmEnv, Host, RunResult, exited, returned, halted, handle_exit, run_vm,
  check_result, with_bytes, print,
}
use advance_virtualization_a.SimpleKvm.Modes.{
  ModeAnswers, Entered, enter_real_mode, enter_protected_mode, enter_paged_32bit_mode,
  enter_long_mode,
}
use advance_virtualization_a.SimpleKvm.Main.{
  Mode, real_mode, protected_mode, paged_32bit_mode, long_mode, enter, compared, read_options,
  vm_init, vcpu_init, Vm, Vcpu, MainAnswers, main, mem_size, banner, fresh_host, exited_with,
  run_mode,
}
use advance_virtualization_a.SimpleKvm.Success.{check_result-one_iff, run_in, run_in-exits}
use advance_virtualization_a.Guest.Machine.{Machine}
use advance_virtualization_a.Guest.Calls.{Arrays}
use advance_virtualization_a.Guest.ByType.{IsLaidOut}
use advance_virtualization_a.Guest.Start.{start}
use advance_virtualization_a.Guest.Start.Steps.{IsAt}
use advance_virtualization_a.Guest.Start.Output.{said, spoken, start_lem}
use advance_virtualization_a.Guest.Traced.{Matches, IsTraced}
use advance_virtualization_a.Guest.Traced.Programs.{start-IsTraced}

-- The exit of HLT.
abbrev hlt_exit : Bytes → KvmRun
hlt_exit page = record {
  exit_reason = exit_hlt;
  io_direction = io_out;
  io_port = 0;
  io_size = 0;
  io_data = page;
}

-- How KVM_RUN comes back from the start of the guest to its first HLT, which stands behind `_start`.
abbrev pub exits_to_hlt : Machine → List RunResult
exits_to_hlt m = m.exits ++ exited m.host.mem.bytes (hlt_exit m.io_page) ∷ []

-- The guest before its first instruction.
abbrev pub booted : Host → Bytes → Machine
booted h page = record { host = h; io_page = page; turn = 0; exits = [] }

-- The hypervisor as `run_vm` finds it: no exit counted yet.
pub record IsFresh (h : Host) (out : List ℕ) : Type 0 where
  pub no_ins : h.exits_due_to_io_in ≡ 0
  pub no_outs : h.exits_due_to_io_out ≡ 0
  pub no_exits : h.total_exits ≡ 0
  pub out_eq : h.stdout ≡ out

module _ (env : KvmEnv) (s : Arrays) (str : ℕ) (text : List ℕ) (long_size : ℕ) where
  run_vm-halted :
      (bytes : Bytes) (run : KvmRun) (h k : Host) (rest : List RunResult)
      → handle_exit env run (with_bytes bytes h) ≡ halted k
      → run_vm env (some 42) long_size (exited bytes run ∷ rest) h
        ≡ check_result (some 42) long_size k
  unfolding run_vm check_result
  run_vm-halted bytes run h k rest e = rw (run_vm, e) refl

  hlt-halted :
      (page : Bytes) (k : Host)
      → handle_exit env (hlt_exit page) k
        ≡ halted (record k { total_exits = u32 (k.total_exits + 1) })
  unfolding handle_exit
  hlt-halted page k = refl

  halts :
      (m : Machine) (h : Host) (rest : List RunResult)
      → Matches h m
      → m.host.total_exits ≡ 30
      → check_result (some 42) long_size m.host ≡ returned 1 m.host
      → (h' : Host) × (run_vm env
            (some 42)
            long_size
            (exited m.host.mem.bytes (hlt_exit m.io_page) ∷ rest)
            h
          ≡ returned 1 h')
        × (h'.stdout ≡ m.host.stdout)
        × (h'.exits_due_to_io_in ≡ m.host.exits_due_to_io_in)
        × (h'.exits_due_to_io_out ≡ m.host.exits_due_to_io_out)
        × (h'.total_exits ≡ 31)
  halts m h rest same total checked =
      let h' : Host = record (m.host) { total_exits = u32 (m.host.total_exits + 1) } in
      let result = ((check_result-one_iff (some 42) long_size m.host m.host).0 checked).0 in
      let again =
        (check_result-one_iff (some 42) long_size h' h').1
          (record { in_rax = refl; inside = result.inside; in_memory = result.in_memory }, refl) in
      let halts_at = ap (handle_exit env (hlt_exit m.io_page)) same ∙ hlt-halted m.io_page m.host in
      (
        h',
        run_vm-halted m.host.mem.bytes (hlt_exit m.io_page) h h' rest halts_at ∙ again,
        refl,
        refl,
        refl,
        rw total refl,
      )

  -- From a state in which no exit is counted and `out` is printed, `_start` runs to its HLT, and its
  -- exits take `run_vm` to the result 1.
  whole-runs :
      (h : Host) (page : Bytes) {out : List ℕ}
      → IsFresh h out
      → IsLaidOut s h.mem.size
      → read_string h.mem (u32 str) ≡ some text
      → 0 < long_size
      → 0x400 + long_size ≤ h.mem.size
      → (m' : Machine) × (h' : Host) × (start env s str long_size (booted h page) ≡ some (tt, m'))
        × (run_vm env (some 42) long_size (exits_to_hlt m') h ≡ returned 1 h')
        × (h'.stdout ≡ said out (spoken env text))
        × (h'.exits_due_to_io_in ≡ 6)
        × (h'.exits_due_to_io_out ≡ 24)
        × (h'.total_exits ≡ 31)
  unfolding IsTraced
  whole-runs h page fresh laid found positive room =
      let m = booted h page in
      let at : IsAt m 0 0 0 h.mem _ = record {
        ins_eq = fresh.no_ins;
        outs_eq = fresh.no_outs;
        total_eq = fresh.no_exits;
        turn_eq = refl;
        mem_eq = refl;
        out_eq = fresh.out_eq;
        small = omega arith;
      } in
      let (m', runs, out_eq, ins, outs, total, checked) =
        start_lem env s str text m h.mem long_size at laid found positive room in
      let trace = start-IsTraced env (some 42) long_size s str long_size m m' tt h runs refl in
      let (h', ends, out', ins', outs', total') =
        halts m' trace.host [] trace.matches total checked in
      (
        m',
        h',
        runs,
        rw trace.logged (trace.runs (exited m'.host.mem.bytes (hlt_exit m'.io_page) ∷ []) ∙ ends),
        out' ∙ out_eq,
        ins' ∙ ins,
        outs' ∙ outs,
        total',
      )

-- A `run_…_mode` function changes of the hypervisor's state the memory alone.
enter-host :
    (mode : Mode) (a : ModeAnswers) (h : Host) (e : Entered)
    → enter mode a h ≡ ok e
    → e.host ≡ record h { mem = e.host.mem }
unfolding enter enter_real_mode enter_protected_mode enter_paged_32bit_mode enter_long_mode
enter-host real_mode a h e entered = ground arith
enter-host protected_mode a h e entered = ground arith
enter-host paged_32bit_mode a h e entered = ground arith
enter-host long_mode a h e entered = ground arith

compared-pos : (mode : Mode) → 0 < compared mode
compared-pos real_mode = omega arith
compared-pos protected_mode = omega arith
compared-pos paged_32bit_mode = omega arith
compared-pos long_mode = omega arith

-- The answers of the kernel in a run of `main`, where the guest ends with 42 in `rax`.
abbrev pub answered : MainAnswers → List RunResult → MainAnswers
answered a results = record a { results = results; rax = some 42 }

module _ (a : MainAnswers) (opts : List ℕ) (vm : Vm) (vcpu : Vcpu) (entered : Entered) (s : Arrays)
    (str : ℕ) (text : List ℕ) (mode : Mode) (page : Bytes) where
  abbrev env_of : KvmEnv
  env_of = record (a.translate) { mem_base = vm.mem }

  -- The program simple-kvm.c, started with options that name a mode other than the real one, where
  -- the kernel sets everything up and guest.c, as it is loaded, has its string, its arrays, of which
  -- no two overlap, and the `long` of the mode at 0x400 in memory: `_start` of guest.c runs to its HLT;
  -- with exactly the exits of this run, each with the guest's memory as it is then, and with the HLT,
  -- where `rax` is 42, the run of the hypervisor gives 1 and the program exits with status 0; it has
  -- printed the mode's line and the guest's lines, in their order, and has counted 6 exits by IN, 24 by
  -- OUT, and the HLT.
  pub main-runs_guest :
      mode ≢ real_mode
      → read_options real_mode opts ≡ some mode
      → vm_init a.vm mem_size ≡ ok vm
      → vcpu_init a.vcpu ≡ ok vcpu
      → enter mode (a.modes mode) (print (banner mode) fresh_host) ≡ ok entered
      → IsLaidOut s entered.host.mem.size
      → read_string entered.host.mem (u32 str) ≡ some text
      → 0x400 + compared mode ≤ entered.host.mem.size
      → (m' : Machine) × (h' : Host) × (start env_of s str
            (compared mode)
            (booted entered.host page)
          ≡ some (tt, m'))
        × (main (answered a (exits_to_hlt m')) opts ≡ exited_with 0)
        × (run_in (answered a (exits_to_hlt m')) opts mode vm ≡ returned 1 h')
        × (h'.stdout ≡ said (banner mode) (spoken env_of text))
        × (h'.exits_due_to_io_in ≡ 6)
        × (h'.exits_due_to_io_out ≡ 24)
        × (h'.total_exits ≡ 31)
  unfolding run_mode
  main-runs_guest protected chosen has_vm has_vcpu enters laid found room =
      let host_eq =
        enter-host mode (a.modes mode) (print (banner mode) fresh_host) entered enters in
      let fresh : IsFresh entered.host (banner mode) = record {
        no_ins = ap (λ h. h.exits_due_to_io_in) host_eq;
        no_outs = ap (λ h. h.exits_due_to_io_out) host_eq;
        no_exits = ap (λ h. h.total_exits) host_eq;
        out_eq = ap (λ h. h.stdout) host_eq;
      } in
      let (m', h', starts, runs, out, ins, outs, total) =
        whole-runs env_of s str text (compared mode) entered.host page fresh laid found
          (compared-pos mode) room in
      let ran : run_in (answered a (exits_to_hlt m')) opts mode vm ≡ returned 1 h' =
        rw (run_mode, enters) runs in
      (
        m',
        h',
        starts,
        run_in-exits (answered a (exits_to_hlt m')) opts chosen has_vm has_vcpu ran,
        ran,
        out,
        ins,
        outs,
        total,
      )
