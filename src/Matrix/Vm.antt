-- ===== src/Matrix/Vm.antt =====
-- `struct vm` and `struct vcpu` of matrix.c, and the functions that make them: `kvm_init`,
-- `kvm_create_vm`, `kvm_init_vcpu` and `kvm_reset_vcpu`.
use advance_virtualization_a.Prelude.{
  ℕ, ◌*◌, Bool, not, Option, none, some, ℤ, pos, negsuc, is_negative, same_int, if◌then◌else◌,
}
use advance_virtualization_a.Kvm.{Segment, Sregs, Regs, Result, ok, exit_1, ◌>>=◌, ◌>>◌, exit_if}

-- `struct kvm_userspace_memory_region`; its field `flags` is not set by the program.
pub record MemoryRegion : Type 0 where
  pub slot : ℕ
  pub flags : ℕ
  pub guest_phys_addr : ℕ
  pub memory_size : ℕ
  pub userspace_addr : ℕ

-- Thread id and thread function are never used again, and left out.
pub record Vcpu : Type 0 where
  pub vcpu_id : ℕ
  pub vcpu_fd : ℤ
  pub kvm_run : ℕ
  pub kvm_run_mmap_size : ℤ
  pub regs : Regs
  pub sregs : Sregs

-- `vcpus` is a pointer that may be null.
pub record Vm : Type 0 where
  pub dev_fd : ℤ
  pub kvm_version : ℤ
  pub vm_fd : ℤ
  pub mem : MemoryRegion
  pub vcpus : Option Vcpu
  pub ram_size : ℕ
  pub ram_start : ℕ
  pub vcpu_number : ℕ

abbrev pub kvm_api_version : ℤ
kvm_api_version = pos 12

abbrev pub code_start : ℕ
code_start = 0x1000

-- `kvm_init`, given the results of `open` and of KVM_GET_API_VERSION.
unfoldable pub kvm_init : ℤ → ℤ → Vm → Vm → Result (Vm × Vm)
kvm_init dev_fd version vm1 vm2 = do
  exit_if (is_negative dev_fd)
  exit_if (is_negative version)
  exit_if (not (same_int version kvm_api_version))
  ok (
    record vm1 { dev_fd = dev_fd; kvm_version = version },
    record vm2 { dev_fd = dev_fd; kvm_version = version },
  )

-- What the kernel answers to `kvm_create_vm`: KVM_CREATE_VM, `mmap` (`none` for MAP_FAILED), and
-- KVM_SET_USER_MEMORY_REGION.
pub record CreateAnswers : Type 0 where
  pub create_vm : ℤ
  pub mmap : Option ℕ
  pub set_region : ℤ

region : ℕ → ℕ → MemoryRegion → MemoryRegion
region size start mem = record mem {
  slot = 0;
  guest_phys_addr = 0;
  memory_size = size;
  userspace_addr = start;
}

-- Once the RAM is mapped at `start`.
set_region_of : ℤ → ℕ → Vm → ℤ × Vm
unfolding region
set_region_of answer start vm =
    (answer, record vm { ram_start = start; mem = region vm.ram_size start vm.mem })

create_ram : Option ℕ → ℤ → Vm → ℤ × Vm
unfolding set_region_of
create_ram none answer vm = (negsuc 0, record vm { ram_start = 0xffff_ffff_ffff_ffff })
create_ram (some start) answer vm = set_region_of answer start vm

-- `kvm_create_vm`: the value returned (`negsuc 0` is -1), and the structure.
unfoldable pub kvm_create_vm : CreateAnswers → Vm → ℕ → ℤ × Vm
unfolding create_ram
kvm_create_vm a vm ram_size =
    if is_negative a.create_vm
    then (negsuc 0, record vm { vm_fd = a.create_vm })
    else create_ram a.mmap a.set_region (record vm { vm_fd = a.create_vm; ram_size = ram_size })

-- What the kernel answers to `kvm_init_vcpu`: KVM_CREATE_VCPU, KVM_GET_VCPU_MMAP_SIZE, `mmap`.
pub record VcpuAnswers : Type 0 where
  pub create_vcpu : ℤ
  pub mmap_size : ℤ
  pub mmap_run : Option ℕ

map_run : Option ℕ → Vcpu → Option Vcpu
map_run none vcpu = none
map_run (some kvm_run) vcpu = some (record vcpu { kvm_run = kvm_run })

-- `kvm_init_vcpu`; `fresh` is what `malloc` gives, and `none` the null pointer.
unfoldable pub kvm_init_vcpu : VcpuAnswers → Vcpu → ℕ → Option Vcpu
unfolding map_run
kvm_init_vcpu a fresh vcpu_id =
    if is_negative a.create_vcpu
    then none
    else (if is_negative a.mmap_size
        then none
        else map_run a.mmap_run (record fresh {
          vcpu_id = vcpu_id;
          vcpu_fd = a.create_vcpu;
          kvm_run_mmap_size = a.mmap_size;
        }))

abbrev pub at_code : Segment → Segment
at_code seg = record seg { selector = code_start; base = code_start * 16 }

-- The segments as `kvm_reset_vcpu` sets them: of `gs` it sets the selector alone.
abbrev pub reset_segments : Sregs → Sregs
reset_segments sregs = record sregs {
  cs = at_code sregs.cs;
  ss = at_code sregs.ss;
  ds = at_code sregs.ds;
  es = at_code sregs.es;
  fs = at_code sregs.fs;
  gs = record sregs.gs { selector = code_start };
}

-- What the kernel answers to `kvm_reset_vcpu`: KVM_GET_SREGS (`none` on failure), and whether
-- KVM_SET_SREGS and KVM_SET_REGS fail.
pub record ResetAnswers : Type 0 where
  pub get_sregs : Option Sregs
  pub set_sregs_failed : Bool
  pub set_regs_failed : Bool

or_exit : Option Sregs → Result Sregs
or_exit none = exit_1
or_exit (some sregs) = ok sregs

abbrev pub reset_regs : Regs → Regs
reset_regs regs = record regs { rflags = 2; rip = 0; rsp = 0xffffffff; rbp = 0 }

unfoldable pub kvm_reset_vcpu : ResetAnswers → Vcpu → Result Vcpu
unfolding or_exit
kvm_reset_vcpu a vcpu = do
  sregs ← or_exit a.get_sregs
  exit_if a.set_sregs_failed
  exit_if a.set_regs_failed
  ok (record vcpu { sregs = reset_segments sregs; regs = reset_regs vcpu.regs })
