-- ===== src/Matrix/Setup.antt =====
-- What the functions that set a guest of matrix.c up establish.
use advance_virtualization_a.Prelude.{
  ℕ, ◌*◌, ◌≡◌, ◌⊎◌, true, false, none, some, ℤ, pos, is_negative, arith, refl, ◌≢◌, inl, inr,
  Option-cases, Bool-cases,
}
use advance_virtualization_a.Kvm.{Segment, Sregs, ok, exit_1}
use advance_virtualization_a.Matrix.Vm.{
  Vcpu, Vm, kvm_init, CreateAnswers, kvm_create_vm, ResetAnswers, kvm_reset_vcpu, code_start,
  reset_segments, reset_regs,
}

-- `kvm_init` succeeds exactly if the device opens and speaks version 12 of the API, and then both
-- guests hold the same descriptor; in all other cases it ends the program.
pub kvm_init_lem :
    (dev_fd version : ℤ) (vm1 vm2 : Vm)
    → ((is_negative dev_fd ≡ false)
        × (version ≡ pos 12)
        × (kvm_init dev_fd version vm1 vm2
            ≡ ok (
              record vm1 { dev_fd = dev_fd; kvm_version = version },
              record vm2 { dev_fd = dev_fd; kvm_version = version },
            )))
      ⊎ (((is_negative dev_fd ≡ true) ⊎ (version ≢ pos 12))
          × (kvm_init dev_fd version vm1 vm2 ≡ exit_1))
unfolding kvm_init
kvm_init_lem dev_fd version vm1 vm2 = ground arith

-- The guest's memory is its RAM, mapped from guest address 0 on.
pub record IsMapped (vm : Vm) (start size : ℕ) : Type 0 where
  pub starts : vm.ram_start ≡ start
  pub sized : vm.ram_size ≡ size
  pub slot_zero : vm.mem.slot ≡ 0
  pub guest_zero : vm.mem.guest_phys_addr ≡ 0
  pub whole : vm.mem.memory_size ≡ vm.ram_size
  pub backed : vm.mem.userspace_addr ≡ vm.ram_start

-- `kvm_create_vm` returns a number that is not negative exactly if the three calls of the kernel
-- succeed, and then the guest's memory is the mapped RAM.
pub kvm_create_vm_lem :
    (a : CreateAnswers) (vm : Vm) (size : ℕ)
    → let (ret, vm') = kvm_create_vm a vm size in
      ((is_negative ret ≡ false)
        × (is_negative a.create_vm ≡ false)
        × (is_negative a.set_region ≡ false)
        × ((start : ℕ) × (a.mmap ≡ some start) × IsMapped vm' start size))
      ⊎ ((is_negative ret ≡ true)
          × ((is_negative a.create_vm ≡ true)
              ⊎ ((a.mmap ≡ none) ⊎ (is_negative a.set_region ≡ true))))
unfolding kvm_create_vm
kvm_create_vm_lem a vm size = elim (Option-cases a.mmap) [
  | inl failed ↦ ground arith
  | inr (start, mapped) ↦ elim (Bool-cases (is_negative a.create_vm)) [
    | inl neg ↦ ground arith
    | inr created ↦ elim (Bool-cases (is_negative a.set_region)) [
      | inl neg ↦ ground arith
      | inr set ↦ inl (ground arith, created, set, (start, mapped, ground arith))
    ]
  ]
]

-- A real-mode segment begins at sixteen times its selector.
abbrev pub IsRealMode : Segment → Type 0
IsRealMode seg = seg.base ≡ seg.selector * 16

-- Where its three calls succeed, `kvm_reset_vcpu` sends every segment but `gs` to CODE_START, with
-- the base that real mode wants, and the instruction pointer to 0. `gs` gets the selector and
-- keeps the base that KVM_GET_SREGS gave, and `rax` and `rsi` keep what the structure held.
pub kvm_reset_vcpu_lem :
    (a : ResetAnswers) (vcpu : Vcpu) (sregs : Sregs)
    → a.get_sregs ≡ some sregs
    → a.set_sregs_failed ≡ false
    → a.set_regs_failed ≡ false
    → (vcpu' : Vcpu) × (kvm_reset_vcpu a vcpu ≡ ok vcpu')
      × (IsRealMode vcpu'.sregs.cs
          × IsRealMode vcpu'.sregs.ss
          × IsRealMode vcpu'.sregs.ds
          × IsRealMode vcpu'.sregs.es
          × IsRealMode vcpu'.sregs.fs)
      × (vcpu'.sregs.gs.selector ≡ code_start)
      × (vcpu'.sregs.gs.base ≡ sregs.gs.base)
      × (vcpu'.regs.rip ≡ 0)
      × (vcpu'.regs.rax ≡ vcpu.regs.rax)
      × (vcpu'.regs.rsi ≡ vcpu.regs.rsi)
unfolding kvm_reset_vcpu
kvm_reset_vcpu_lem a vcpu sregs got set_s set_r = (
  record vcpu { sregs = reset_segments sregs; regs = reset_regs vcpu.regs },
  ground arith,
  (refl, refl, refl, refl, refl),
  refl,
  refl,
  refl,
  refl,
  refl,
)
