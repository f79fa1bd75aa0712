-- ===== src/SimpleKvm/Main.antt =====
-- `vm_init`, `vcpu_init`, the four `run_…_mode` functions and `main` of simple-kvm.c.
use advance_virtualization_a.Prelude.{
  ℕ, zero, suc, Bool, true, false, not, Option, none, some, List, [], ◌∷◌, ℤ, pos, negsuc,
  is_negative, codes, ◌==◌, if◌then◌else◌,
}
use advance_virtualization_a.Kvm.{Result, ok, exit_1, undefined, ◌>>=◌, ◌>>◌, exit_if}
use advance_virtualization_a.SimpleKvm.State.{Host, KvmEnv}
use advance_virtualization_a.SimpleKvm.Exits.{print}
use advance_virtualization_a.SimpleKvm.Run.{RunResult, RunOutcome, run_vm}
use advance_virtualization_a.SimpleKvm.Modes.{
  ModeAnswers, Entered, enter_real_mode, enter_protected_mode, enter_paged_32bit_mode,
  enter_long_mode,
}

-- What the kernel answers to `vm_init`: `open`, KVM_GET_API_VERSION, KVM_CREATE_VM,
-- KVM_SET_TSS_ADDR, `mmap` (`none` for MAP_FAILED), KVM_SET_USER_MEMORY_REGION.
pub record VmAnswers : Type 0 where
  pub dev_fd : ℤ
  pub version : ℤ
  pub vm_fd : ℤ
  pub set_tss : ℤ
  pub mmap : Option ℕ
  pub set_region : ℤ

-- `struct vm`, and the memory region that it hands to the kernel.
pub record Vm : Type 0 where
  pub dev_fd : ℤ
  pub vm_fd : ℤ
  pub mem : ℕ
  pub region_start : ℕ
  pub region_size : ℕ
  pub region_address : ℕ

abbrev is_version_12 : ℤ → Bool
is_version_12 (pos n) = n == 12
is_version_12 (negsuc _) = false

abbrev or_exit : Option ℕ → Result ℕ
or_exit none = exit_1
or_exit (some address) = ok address

unfoldable pub vm_init : VmAnswers → ℕ → Result Vm
vm_init a mem_size = do
  exit_if (is_negative a.dev_fd)
  exit_if (is_negative a.version)
  exit_if (not (is_version_12 a.version))
  exit_if (is_negative a.vm_fd)
  exit_if (is_negative a.set_tss)
  mem ← or_exit a.mmap
  exit_if (is_negative a.set_region)
  ok (record {
    dev_fd = a.dev_fd;
    vm_fd = a.vm_fd;
    mem = mem;
    region_start = 0;
    region_size = mem_size;
    region_address = mem;
  })

-- What the kernel answers to `vcpu_init`: KVM_CREATE_VCPU, KVM_GET_VCPU_MMAP_SIZE, `mmap`.
pub record VcpuAnswers : Type 0 where
  pub vcpu_fd : ℤ
  pub mmap_size : ℤ
  pub mmap : Option ℕ

pub record Vcpu : Type 0 where
  pub vcpu_fd : ℤ
  pub kvm_run : ℕ

-- `vcpu_mmap_size <= 0`
abbrev is_positive : ℤ → Bool
is_positive (pos zero) = false
is_positive (pos (suc _)) = true
is_positive (negsuc _) = false

unfoldable pub vcpu_init : VcpuAnswers → Result Vcpu
vcpu_init a = do
  exit_if (is_negative a.vcpu_fd)
  exit_if (not (is_positive a.mmap_size))
  kvm_run ← or_exit a.mmap
  ok (record { vcpu_fd = a.vcpu_fd; kvm_run = kvm_run })

pub data Mode : Type 0 where
  real_mode protected_mode paged_32bit_mode long_mode : Mode

-- The loop over the options; `getopt` gives the characters. `none`: the usage message.
unfoldable pub read_options : Mode → List ℕ → Option Mode
read_options mode [] = some mode
read_options mode (opt ∷ opts) =
    let real = read_options real_mode opts in
    let protected = read_options protected_mode opts in
    let paged = read_options paged_32bit_mode opts in
    let long = read_options long_mode opts in
    if opt == b'r'
    then real
    else (if opt == b's'
        then protected
        else (if opt == b'p' then paged else (if opt == b'l' then long else none)))

-- `run_vm` once the guest is entered.
pub run_entered : (Host → RunOutcome) → Host → Result Entered → RunOutcome
run_entered run h (ok e) = run e.host
run_entered run h exit_1 = RunOutcome.exit_1 h
run_entered run h undefined = RunOutcome.undefined

-- The line that each function prints first.
abbrev pub banner : Mode → List ℕ
banner real_mode = codes "Testing real mode\n"
banner protected_mode = codes "Testing protected mode\n"
banner paged_32bit_mode = codes "Testing 32-bit paging\n"
banner long_mode = codes "Testing 64-bit mode\n"

unfoldable pub enter : Mode → ModeAnswers → Host → Result Entered
enter real_mode = enter_real_mode
enter protected_mode = enter_protected_mode
enter paged_32bit_mode = enter_paged_32bit_mode
enter long_mode = enter_long_mode

-- The number of bytes that `run_vm` compares.
abbrev pub compared : Mode → ℕ
compared real_mode = 2
compared protected_mode = 4
compared paged_32bit_mode = 4
compared long_mode = 8

-- `run_real_mode`, `run_protected_mode`, `run_paged_32bit_mode` and `run_long_mode`.
unfoldable pub run_mode :
    KvmEnv → Option ℕ → List RunResult → ModeAnswers → Host → Mode → RunOutcome
unfolding run_entered enter
run_mode env rax results a h mode =
    let h' = print (banner mode) h in
    run_entered (run_vm env rax (compared mode) results) h' (enter mode a h')

-- How the process ends: its exit status; or it does not.
pub data Status : Type 0 where
  exited_with : ℕ → Status
  undefined_behaviour : Status
  runs_on : Status

-- `return !run_…(…)`, where the result is 0 or 1.
pub status_of : RunOutcome → Status
status_of (RunOutcome.pending _) = runs_on
status_of (RunOutcome.returned zero _) = exited_with 1
status_of (RunOutcome.returned (suc _) _) = exited_with 0
status_of (RunOutcome.exit_1 _) = exited_with 1
status_of RunOutcome.undefined = undefined_behaviour

abbrev pub mem_size : ℕ
mem_size = 0x200000

-- The global variables, and the new memory, which `mmap` fills with zeros.
abbrev pub fresh_host : Host
fresh_host = record {
  exits_due_to_io_in = 0;
  exits_due_to_io_out = 0;
  total_exits = 0;
  gva_value = 0;
  num_exit_hc_address = 0;
  mem = record { size = mem_size; bytes = λ _. 0 };
  stdout = [];
}

-- What the kernel answers to `main`, from the first call to the last.
pub record MainAnswers : Type 0 where
  pub vm : VmAnswers
  pub vcpu : VcpuAnswers
  pub modes : Mode → ModeAnswers
  pub translate : KvmEnv
  pub results : List RunResult
  pub rax : Option ℕ

pub run_chosen : MainAnswers → Mode → Result (Vm × Vcpu) → Status
unfolding status_of
run_chosen a mode (ok (vm, vcpu)) = status_of (
    run_mode (record a.translate { mem_base = vm.mem }) a.rax a.results (a.modes mode) fresh_host
      mode)
run_chosen a mode exit_1 = exited_with 1
run_chosen a mode undefined = undefined_behaviour

pub main_with : MainAnswers → Option Mode → Status
unfolding run_chosen
main_with a none = exited_with 1
main_with a (some mode) =
    run_chosen a mode (do vm ← vm_init a.vm mem_size; vcpu ← vcpu_init a.vcpu; ok (vm, vcpu))

unfoldable pub main : MainAnswers → List ℕ → Status
unfolding main_with
main a opts = main_with a (read_options real_mode opts)
