-- ===== src/Matrix/StartAddress.antt =====
-- Where a guest of matrix.c, matrix-a.c or matrix-b.c starts, and where `load_binary` has put its program.
use advance_virtualization_a.Prelude.{
  ℕ, ◌+◌, ◌≤◌, ◌≡◌, ap, ◌∙◌, false, inr, List, ℤ, is_negative, length, arith,
}
use advance_virtualization_a.Memory.{Ram, load, write_ram, store, load-store, store-outside}
use advance_virtualization_a.Kvm.{ok}
use advance_virtualization_a.Matrix.Vm.{
  Vcpu, Vm, CreateAnswers, kvm_create_vm, ResetAnswers, kvm_reset_vcpu,
}
use advance_virtualization_a.Matrix.Load.{load_binary, contents, load_pieces-write_ram}
use advance_virtualization_a.Matrix.Program.{Answers, Fresh, ram_size}
use advance_virtualization_a.Matrix.Program.Completes.{with_device, IsSetUp}

-- The linear address of the first instruction.
abbrev pub start_address : Vcpu → ℕ
start_address vcpu = vcpu.sregs.cs.base + vcpu.regs.rip

reset-start_address :
    (a : ResetAnswers) (vcpu reset : Vcpu)
    → kvm_reset_vcpu a vcpu ≡ ok reset
    → start_address reset ≡ 0x10000
unfolding kvm_reset_vcpu
reset-start_address a vcpu reset e = ground arith

-- Guest addresses are offsets in the RAM.
created-guest_zero :
    (a : CreateAnswers) (vm : Vm) (size : ℕ)
    → is_negative (kvm_create_vm a vm size).0 ≡ false
    → let vm' = (kvm_create_vm a vm size).1 in
      (vm'.mem.guest_phys_addr ≡ 0) × (vm'.mem.userspace_addr ≡ vm'.ram_start)
unfolding kvm_create_vm
created-guest_zero a vm size e = ground arith

load_binary-written :
    (fd : ℤ) (pieces : List (List ℕ)) (ram ram' : Ram)
    → load_binary fd pieces ram ≡ ok ram'
    → ram'.bytes ≡ store ram.bytes 0 (contents pieces)
unfolding load_binary write_ram
load_binary-written fd pieces ram ram' e = ground (arith, load_pieces-write_ram pieces 0 ram)

module _ (file : ℤ × List (List ℕ)) (a : Answers) (f : Fresh) (dev_fd : ℤ) (vm : Vm)
    (vcpu reset : Vcpu) where
  -- A guest of any of the three programs that has been set up, with a binary of 65536 bytes at most: its
  -- addresses are offsets in the RAM, its binary stands at address 0 and is whole, and its first
  -- instruction is at 0x10000, where, as at every address behind, the RAM is as it was when it was new. So
  -- the guest does not start in its program.
  pub set_up-starts_behind :
      (set_up : IsSetUp file a f dev_fd vm vcpu reset) (q : ℕ)
      → length (contents file.1) ≤ 0x10000
      → 0x10000 ≤ q
      → let ram = set_up.is_loaded.0 in
        (start_address reset ≡ 0x10000)
        × (vm.mem.guest_phys_addr ≡ 0)
        × (vm.mem.userspace_addr ≡ vm.ram_start)
        × (load ram.bytes 0 (length (contents file.1)) ≡ contents file.1)
        × (ram.bytes q ≡ f.ram.bytes q)
  set_up-starts_behind set_up q short behind =
      let start = reset-start_address a.reset vcpu reset set_up.is_reset in
      let (guest_zero, backed) =
        created-guest_zero a.create (with_device dev_fd f.vm) ram_size set_up.is_created in
      let (ram, loads) = set_up.is_loaded in
      let written = load_binary-written file.0 file.1 f.ram ram loads in
      (
        start,
        ap (λ v. v.mem.guest_phys_addr) set_up.is_vm ∙ guest_zero,
        rw set_up.is_vm backed,
        rw written (load-store f.ram.bytes 0 (contents file.1)),
        rw written (store-outside f.ram.bytes 0 (contents file.1) q (inr (omega (arith, start)))),
      )
