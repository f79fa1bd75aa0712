-- ===== src/Matrix/Program.antt =====
-- The three programs matrix.c, matrix-a.c and matrix-b.c but for what tells them apart: `kvm_run_vm`,
-- the functions that release everything, and `main`.
pub mod Release
pub mod Completes
pub mod Fails
pub mod OneGuest
pub mod Whole
use Prim.Native.String.{String}
use advance_virtualization_a.Prelude.{
  ℕ, Bool, Option, none, some, List, [], ◌∷◌, ◌++◌, ℤ, pos, negsuc, is_negative, if◌then◌else◌,
}
use advance_virtualization_a.Memory.{Ram}
use advance_virtualization_a.SimpleKvm.{ExitReason}
use advance_virtualization_a.Kvm.{Result, ok, exit_1, undefined, ◌>>=◌, ◌>>◌, exit_if}
use advance_virtualization_a.Matrix.Sched.{
  Sched, KvmExit, Round, LoopEnd, running, left, died, run_loop,
}
use advance_virtualization_a.Matrix.Thread.{thread_round}
use advance_virtualization_a.Matrix.Vm.{
  Vcpu, Vm, kvm_init, CreateAnswers, kvm_create_vm, VcpuAnswers, kvm_init_vcpu, ResetAnswers,
  kvm_reset_vcpu,
}
use advance_virtualization_a.Matrix.Load.{load_binary}

-- The calls that arm the timer, set a mask, or release something. A `struct itimerspec` is given
-- by its first value and its interval, in seconds and nanoseconds.
pub data Call : Type 0 where
  sigaction_sigusr1 : Call
  timer_create_monotonic : Call
  timer_settime : ℕ → ℕ → ℕ → ℕ → Call
  set_signal_mask : ℤ → ℕ → Call
  close_fd : ℤ → Call
  unmap : ℕ → ℕ → Call
  free_struct : Call

-- The size of a mapping, of which the code knows that it is not negative.
abbrev pub size_of : ℤ → ℕ
size_of (pos n) = n
size_of (negsuc _) = 0

abbrev pub kvm_clean_vm : Vm → List Call
kvm_clean_vm vm = close_fd vm.vm_fd ∷ unmap vm.ram_start vm.ram_size ∷ []

abbrev pub kvm_clean_vcpu : Vcpu → List Call
kvm_clean_vcpu vcpu =
    unmap vcpu.kvm_run (size_of vcpu.kvm_run_mmap_size) ∷ close_fd vcpu.vcpu_fd ∷ []

abbrev pub kvm_clean : Vm → List Call
kvm_clean vm = close_fd vm.dev_fd ∷ free_struct ∷ []

-- `vm->vcpus` where the code goes through the pointer.
abbrev pub deref : Option Vcpu → Result Vcpu
deref none = undefined
deref (some vcpu) = ok vcpu

-- The ends of the loop: `exit_kvm` is reached, `exit(1)`, or the guests run on.
pub data RunEnd : Type 0 where
  finished : RunEnd
  still_running : RunEnd

after_loop : LoopEnd → Result RunEnd
after_loop (running _) = ok still_running
after_loop (left _) = ok finished
after_loop died = exit_1

-- `kvm_cpu_thread`, which no thread is ever started with.
unfoldable pub kvm_cpu_thread : List KvmExit → (ℕ → ExitReason) → ResetAnswers → Vm → Result RunEnd
unfolding after_loop
kvm_cpu_thread exits reasons reset vm = do
  vcpu ← deref vm.vcpus
  reset_vcpu ← kvm_reset_vcpu reset vcpu
  after_loop (run_loop thread_round exits (record { turn = 0; count = 0; reasons = reasons }))

-- What tells the programs apart: the set-up before the loop of `kvm_run_vm`, a round of the loop,
-- and the names of the binaries.
pub record Program : Type 0 where
  pub set_up : Vcpu → Vcpu → List Call
  pub round : KvmExit → Sched → Round
  pub binary_file1 : String
  pub binary_file2 : String

-- What stands in a `struct vm`, a `struct vcpu` and the RAM when they are new.
pub record Fresh : Type 0 where
  pub vm : Vm
  pub vcpu : Vcpu
  pub ram : Ram

-- What the kernel answers for one guest.
pub record Answers : Type 0 where
  pub create : CreateAnswers
  pub vcpu : VcpuAnswers
  pub reset : ResetAnswers

-- What `open` gives for a name, and the pieces that `read` then brings.
abbrev pub Files : Type 0
Files = String → ℤ × List (List ℕ)

-- The calls are those that `main` makes after the guests are set up.
pub data MainEnd : Type 0 where
  returned : ℤ → List Call → MainEnd
  main_running : MainEnd

abbrev pub ram_size : ℕ
ram_size = 512000000

abbrev pub with_vcpu : Vm → Option Vcpu → Vm
with_vcpu vm vcpus = record vm { vcpu_number = 1; vcpus = vcpus }

abbrev pub releases : Vm → Vm → Vcpu → Vcpu → List Call
releases vm1 vm2 vcpu1 vcpu2 =
    kvm_clean_vm vm1
    ++ (kvm_clean_vm vm2
        ++ (kvm_clean_vcpu vcpu1 ++ (kvm_clean_vcpu vcpu2 ++ (kvm_clean vm1 ++ kvm_clean vm2))))

-- The releases at the end of `main`, after the calls made before.
release : List Call → RunEnd → Vm → Vm → Result MainEnd
release calls still_running vm1 vm2 = ok main_running
release calls finished vm1 vm2 = do
  vcpu1 ← deref vm1.vcpus
  vcpu2 ← deref vm2.vcpus
  ok (returned (pos 0) (calls ++ releases vm1 vm2 vcpu1 vcpu2))

-- `main` returns -1 where a guest cannot be created.
created : ℤ × Vm → (Vm → Result MainEnd) → Result MainEnd
created (ret, vm) go_on = if is_negative ret then ok (returned (negsuc 0) []) else go_on vm

module _ (program : Program) (exits : List KvmExit) (reasons : ℕ → ExitReason) where
  -- `kvm_run_vm`: the calls of its set-up, and how its loop ends. None of the calls' results is
  -- used but for a message on stderr.
  unfoldable pub kvm_run_vm : ResetAnswers → ResetAnswers → Vm → Vm → Result (List Call × RunEnd)
  unfolding after_loop
  kvm_run_vm reset1 reset2 vm1 vm2 = do
    vcpu1 ← deref vm1.vcpus
    reset_vcpu1 ← kvm_reset_vcpu reset1 vcpu1
    vcpu2 ← deref vm2.vcpus
    reset_vcpu2 ← kvm_reset_vcpu reset2 vcpu2
    end ←
        after_loop
          (run_loop program.round exits (record { turn = 0; count = 0; reasons = reasons }))
    ok (program.set_up reset_vcpu1 reset_vcpu2, end)

  module _ (files : Files) (a1 a2 : Answers) (f1 f2 : Fresh) where
    -- `main` from the loading of the binaries on.
    run_guests : Vm → Vm → Result MainEnd
    unfolding release
    run_guests vm1 vm2 = do
      ram1 ← load_binary (files program.binary_file1).0 (files program.binary_file1).1 f1.ram
      ram2 ← load_binary (files program.binary_file2).0 (files program.binary_file2).1 f2.ram
      let vm1' = with_vcpu vm1 (kvm_init_vcpu a1.vcpu f1.vcpu 0)
      let vm2' = with_vcpu vm2 (kvm_init_vcpu a2.vcpu f2.vcpu 0)
      (calls, end) ← kvm_run_vm a1.reset a2.reset vm1' vm2'
      release calls end vm1' vm2'

    -- `main`, given the results of `open` and KVM_GET_API_VERSION and what the kernel answers for
    -- the two guests.
    unfoldable pub main : ℤ → ℤ → Result MainEnd
    unfolding run_guests created
    main dev_fd version = do
      (vm1, vm2) ← kvm_init dev_fd version f1.vm f2.vm
      created (kvm_create_vm a1.create vm1 ram_size)
          λ vm1'. created (kvm_create_vm a2.create vm2 ram_size) λ vm2'. run_guests vm1' vm2'
