-- ===== src/Matrix/Program/OneGuest.antt =====
-- One guest of matrix.c, matrix-a.c or matrix-b.c: what the kernel answers where it is set up.
use advance_virtualization_a.Prelude.{
  ℕ, ◌≤◌, ◌≡◌, refl, sym, ◌∙◌, false, some, inl, inr, List, ℤ, pos, negsuc, is_negative, length,
  arith, Option-cases,
}
use advance_virtualization_a.Memory.{Ram, write_ram}
use advance_virtualization_a.Kvm.{Sregs, ok}
use advance_virtualization_a.Matrix.Vm.{Vm, Vcpu, kvm_create_vm, kvm_init_vcpu, kvm_reset_vcpu}
use advance_virtualization_a.Matrix.Load.{
  load_binary, contents, load_pieces-write_ram, load_binary_lem,
}
use advance_virtualization_a.Matrix.Program.{Answers, Fresh, ram_size, with_vcpu}
use advance_virtualization_a.Matrix.Program.Completes.{with_device, IsSetUp}

-- The kernel's answers with which a guest is set up, from a binary that fits into the RAM.
pub record Succeeds (file : ℤ × List (List ℕ)) (a : Answers) (f : Fresh) : Type 0 where
  pub ram_start : ℕ
  pub run : ℕ
  pub run_size : ℕ
  pub sregs : Sregs
  pub has_vm : is_negative a.create.create_vm ≡ false
  pub has_ram : a.create.mmap ≡ some ram_start
  pub has_region : is_negative a.create.set_region ≡ false
  pub is_opened : is_negative file.0 ≡ false
  pub fits : length (contents file.1) ≤ f.ram.size
  pub has_vcpu : is_negative a.vcpu.create_vcpu ≡ false
  pub has_size : a.vcpu.mmap_size ≡ pos run_size
  pub has_run : a.vcpu.mmap_run ≡ some run
  pub has_sregs : a.reset.get_sregs ≡ some sregs
  pub set_sregs : a.reset.set_sregs_failed ≡ false
  pub set_regs : a.reset.set_regs_failed ≡ false

Option-inj : {A : Type 0} {a b : A} → some a ≡ some b → a ≡ b
Option-inj e = cc

not_negative : (n : ℤ) → is_negative n ≡ false → (k : ℕ) × (n ≡ pos k)
not_negative (pos k) e = (k, refl)
not_negative (negsuc k) e = ground arith

load_binary-fits :
    (fd : ℤ) (pieces : List (List ℕ)) (ram ram' : Ram)
    → load_binary fd pieces ram ≡ ok ram'
    → (is_negative fd ≡ false) × (length (contents pieces) ≤ ram.size)
unfolding load_binary write_ram
load_binary-fits fd pieces ram ram' e = ground (arith, load_pieces-write_ram pieces 0 ram)

-- One guest.
module _ (file : ℤ × List (List ℕ)) (a : Answers) (f : Fresh) (dev_fd : ℤ) where
  -- What the structures hold that is released at the end.
  pub record Holds (s : Succeeds file a f) (vm : Vm) (vcpu reset : Vcpu) : Type 0 where
    pub dev_fd_eq : vm.dev_fd ≡ dev_fd
    pub vm_fd_eq : vm.vm_fd ≡ a.create.create_vm
    pub ram_start_eq : vm.ram_start ≡ s.ram_start
    pub ram_size_eq : vm.ram_size ≡ 512000000
    pub run_eq : vcpu.kvm_run ≡ s.run
    pub run_size_eq : vcpu.kvm_run_mmap_size ≡ pos s.run_size
    pub vcpu_fd_eq : vcpu.vcpu_fd ≡ a.vcpu.create_vcpu
    pub reset_fd_eq : reset.vcpu_fd ≡ a.vcpu.create_vcpu

  abbrev pub made : ℤ × Vm
  made = kvm_create_vm a.create (with_device dev_fd f.vm) ram_size

  abbrev pub vcpu_made : Succeeds file a f → Vcpu
  vcpu_made s = record f.vcpu {
    vcpu_id = 0;
    vcpu_fd = a.vcpu.create_vcpu;
    kvm_run_mmap_size = a.vcpu.mmap_size;
    kvm_run = s.run;
  }

  made-fields :
      Succeeds file a f
      → (is_negative made.0 ≡ false)
        × (made.1.dev_fd ≡ dev_fd)
        × (made.1.vm_fd ≡ a.create.create_vm)
        × (made.1.ram_size ≡ 512000000)
  unfolding kvm_create_vm
  made-fields s = ground (arith, s.has_vm, s.has_ram, s.has_region)

  made-ram_start : (s : Succeeds file a f) → made.1.ram_start ≡ s.ram_start
  unfolding kvm_create_vm
  made-ram_start s = ground (arith, s.has_vm, s.has_ram, s.has_region)

  vcpu-made : (s : Succeeds file a f) → kvm_init_vcpu a.vcpu f.vcpu 0 ≡ some (vcpu_made s)
  unfolding kvm_init_vcpu
  vcpu-made s = ground (arith, s.has_vcpu, s.has_size, s.has_run)

  reset-vcpu_fd :
      (vcpu reset : Vcpu) → kvm_reset_vcpu a.reset vcpu ≡ ok reset → reset.vcpu_fd ≡ vcpu.vcpu_fd
  unfolding kvm_reset_vcpu
  reset-vcpu_fd vcpu reset e = ground arith

  pub reset-made :
      (vcpu : Vcpu) → Succeeds file a f → (reset : Vcpu) × (kvm_reset_vcpu a.reset vcpu ≡ ok reset)
  unfolding kvm_reset_vcpu
  reset-made vcpu s = rw s.has_sregs (rw s.set_sregs (rw s.set_regs (_, refl)))

  pub IsSetUp-Holds :
      (vm : Vm) (vcpu reset : Vcpu) (s : Succeeds file a f)
      → IsSetUp file a f dev_fd vm vcpu reset
      → Holds s vm vcpu reset
  IsSetUp-Holds vm vcpu reset s u =
      let (_, dev_fd_eq, vm_fd_eq, ram_size_eq) = made-fields s in
      let vcpu_eq : vcpu ≡ vcpu_made s = Option-inj (sym u.has_vcpu ∙ vcpu-made s) in
      record {
        dev_fd_eq = rw u.is_vm dev_fd_eq;
        vm_fd_eq = rw u.is_vm vm_fd_eq;
        ram_start_eq = rw u.is_vm (made-ram_start s);
        ram_size_eq = rw u.is_vm ram_size_eq;
        run_eq = rw vcpu_eq refl;
        run_size_eq = rw vcpu_eq s.has_size;
        vcpu_fd_eq = rw vcpu_eq refl;
        reset_fd_eq = reset-vcpu_fd vcpu reset u.is_reset ∙ rw vcpu_eq refl;
      }

  -- What is behind each of the three functions that set a guest up.
  created-answers :
      is_negative made.0 ≡ false
      → (is_negative a.create.create_vm ≡ false)
        × (is_negative a.create.set_region ≡ false)
        × ((start : ℕ) × (a.create.mmap ≡ some start))
  unfolding kvm_create_vm
  created-answers e = elim (Option-cases a.create.mmap) [
    | inl failed ↦ ground arith
    | inr (start, mapped) ↦ (ground arith, ground arith, (start, mapped))
  ]

  vcpu-answers :
      (vcpu : Vcpu)
      → kvm_init_vcpu a.vcpu f.vcpu 0 ≡ some vcpu
      → (is_negative a.vcpu.create_vcpu ≡ false)
        × ((size : ℕ) × (a.vcpu.mmap_size ≡ pos size))
        × ((run : ℕ) × (a.vcpu.mmap_run ≡ some run))
  unfolding kvm_init_vcpu
  vcpu-answers vcpu e = elim (Option-cases a.vcpu.mmap_run) [
    | inl failed ↦ ground arith
    | inr (run, mapped) ↦
        (ground arith, not_negative a.vcpu.mmap_size (ground arith), (run, mapped))
  ]

  reset-answers :
      (vcpu reset : Vcpu)
      → kvm_reset_vcpu a.reset vcpu ≡ ok reset
      → (a.reset.set_sregs_failed ≡ false)
        × (a.reset.set_regs_failed ≡ false)
        × ((sregs : Sregs) × (a.reset.get_sregs ≡ some sregs))
  unfolding kvm_reset_vcpu
  reset-answers vcpu reset e = elim (Option-cases a.reset.get_sregs) [
    | inl failed ↦ ground arith
    | inr (sregs, got) ↦ (ground arith, ground arith, (sregs, got))
  ]

  pub IsSetUp-Succeeds :
      (vm : Vm) (vcpu reset : Vcpu) → IsSetUp file a f dev_fd vm vcpu reset → Succeeds file a f
  IsSetUp-Succeeds vm vcpu reset u =
      let (has_vm, has_region, (ram_start, has_ram)) = created-answers u.is_created in
      let (has_vcpu, (run_size, has_size), (run, has_run)) = vcpu-answers vcpu u.has_vcpu in
      let (set_sregs, set_regs, (sregs, has_sregs)) = reset-answers vcpu reset u.is_reset in
      let (is_opened, fits) = load_binary-fits file.0 file.1 f.ram u.is_loaded.0 u.is_loaded.1 in
      record {
        ram_start = ram_start;
        run = run;
        run_size = run_size;
        sregs = sregs;
        has_vm = has_vm;
        has_ram = has_ram;
        has_region = has_region;
        is_opened = is_opened;
        fits = fits;
        has_vcpu = has_vcpu;
        has_size = has_size;
        has_run = has_run;
        has_sregs = has_sregs;
        set_sregs = set_sregs;
        set_regs = set_regs;
      }

  pub Succeeds-IsSetUp :
      (s : Succeeds file a f)
      → let vcpu = vcpu_made s in
        IsSetUp file a f dev_fd (with_vcpu made.1 (some vcpu)) vcpu (reset-made vcpu s).0
  Succeeds-IsSetUp s =
      let (ram, loads, _) = load_binary_lem file.0 file.1 f.ram 0 s.is_opened s.fits in
      record {
        is_created = (made-fields s).0;
        is_vm = refl;
        is_loaded = (ram, loads);
        has_vcpu = vcpu-made s;
        is_reset = (reset-made (vcpu_made s) s).1;
      }
