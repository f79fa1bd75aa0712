-- ===== src/SimpleKvm/State.antt =====
-- The state of simple-kvm.c: its global counters, the guest's memory, and the `kvm_run` page that
-- the kernel fills in when KVM_RUN returns.
use advance_virtualization_a.Prelude.{ℕ, Bool, List}
use advance_virtualization_a.Memory.{Bytes, Ram}

-- The values of `exit_reason` in linux/kvm.h that the program names, and any other.
pub data ExitReason : Type 0 where
  exit_unknown exit_io exit_debug exit_hlt exit_mmio exit_shutdown exit_intr : ExitReason
  exit_other : ℕ → ExitReason

pub data Direction : Type 0 where
  io_in io_out : Direction

-- `struct kvm_run`, as far as the program reads it. `io_data` is what stands at `data_offset`.
pub record KvmRun : Type 0 where
  pub exit_reason : ExitReason
  pub io_direction : Direction
  pub io_port : ℕ
  pub io_size : ℕ
  pub io_data : Bytes

-- What `ioctl(fd, KVM_TRANSLATE, &kt)` answers: -1, or the fields `valid` and `physical_address`.
pub data Translation : Type 0 where
  ioctl_failed : Translation
  translated : Bool → ℕ → Translation

-- What the program is given by the kernel: the address of `vm->mem`, the answers of KVM_TRANSLATE,
-- and what stands in the uninitialised array `buffer`.
pub record KvmEnv : Type 0 where
  pub mem_base : ℕ
  pub kvm_translate : ℕ → Translation
  pub stack : Bytes

-- The global variables (each a `uint32_t`), `vm->mem`, and the bytes written to `stdout`.
pub record Host : Type 0 where
  pub exits_due_to_io_in : ℕ
  pub exits_due_to_io_out : ℕ
  pub total_exits : ℕ
  pub gva_value : ℕ
  pub num_exit_hc_address : ℕ
  pub mem : Ram
  pub stdout : List ℕ

-- How the handling of one exit ends: `continue` with the data left in the `kvm_run` page, `goto
-- check`, `exit(1)`, or an access outside of `vm->mem`, which C leaves undefined.
pub data Step : Type 0 where
  resume : Host → Bytes → Step
  halted : Host → Step
  exit_failure : Host → Step
  out_of_bounds : Step
