-- ===== src/Examples/GuestSetup.antt =====
-- The set-up of the guests of matrix.c, and its `main`, on concrete answers of the kernel.
use advance_virtualization_a.Prelude.{
  ℕ, ◌≡◌, ◌↔◌, refl, false, some, none, arith, List, [], ◌∷◌, ℤ, pos, negsuc,
}
use advance_virtualization_a.Memory.{Ram, load, write_ram}
use advance_virtualization_a.Kvm.{ok}
use advance_virtualization_a.SimpleKvm.{exit_io, exit_unknown, exit_hlt}
use advance_virtualization_a.SimpleKvm.Modes.{start_regs}
use advance_virtualization_a.Matrix.Sched.{KvmExit, tick, run_loop}
use advance_virtualization_a.Matrix.Quota
use advance_virtualization_a.Matrix.Vm.{
  Vm, Vcpu, CreateAnswers, ResetAnswers, kvm_create_vm, kvm_reset_vcpu, kvm_init_vcpu, kvm_init,
}
use advance_virtualization_a.Matrix.Load.{load_pieces, load_binary, contents}
use advance_virtualization_a.Matrix.Program.{
  kvm_run_vm, Files, Answers, Fresh, Call, returned, main, ram_size,
}
use advance_virtualization_a.Matrix.MatrixC.{matrix}
use advance_virtualization_a.Matrix.Program.Completes.{Completed, main-Completed_iff}
use advance_virtualization_a.Matrix.Program.Whole.{Completes, by_quota, main-returns_iff}
use advance_virtualization_a.Matrix.Program.Fails.{NotCreated, main-not_created_iff}
use advance_virtualization_a.Matrix.StartAddress.{start_address, set_up-starts_behind}
use advance_virtualization_a.Examples.Data.{sregs}

abbrev io : KvmExit
io = record { failed = false; reason = exit_io }

abbrev pieces : List (List ℕ)
pieces = (1 ∷ 2 ∷ []) ∷ (3 ∷ []) ∷ []

abbrev ram : Ram
ram = record { size = 0x20000; bytes = λ _. 0xFF }

abbrev fresh_vm : Vm
fresh_vm = record {
  dev_fd = pos 0;
  kvm_version = pos 0;
  vm_fd = pos 0;
  mem = record { slot = 9; flags = 0; guest_phys_addr = 9; memory_size = 9; userspace_addr = 9 };
  vcpus = none;
  ram_size = 0;
  ram_start = 0;
  vcpu_number = 0;
}

abbrev create_answers : CreateAnswers
create_answers = record { create_vm = pos 4; mmap = some 0x7000_0000; set_region = pos 0 }

abbrev fresh_vcpu : Vcpu
fresh_vcpu = record {
  vcpu_id = 0;
  vcpu_fd = pos 0;
  kvm_run = 0;
  kvm_run_mmap_size = pos 0;
  regs = start_regs 77;
  sregs = sregs;
}

abbrev reset_answers : ResetAnswers
reset_answers = record { get_sregs = some sregs; set_sregs_failed = false; set_regs_failed = false }

abbrev created : ℤ × Vm
created = kvm_create_vm create_answers fresh_vm ram_size

abbrev answers : ℤ → Answers
answers vcpu_fd = record {
  create = create_answers;
  vcpu = record { create_vcpu = vcpu_fd; mmap_size = pos 4096; mmap_run = some 0x8000_0000 };
  reset = reset_answers;
}

abbrev fresh : Fresh
fresh = record { vm = fresh_vm; vcpu = fresh_vcpu; ram = ram }

abbrev files : Files
files _ = (pos 7, pieces)

abbrev exits : List KvmExit
exits = io ∷ tick ∷ record { failed = false; reason = exit_hlt } ∷ []

main_ends :
    (calls : List Call) × (main matrix exits
        (λ _. exit_unknown)
        files
        (answers (pos 5))
        (answers (pos 6))
        fresh
        fresh
        (pos 3)
        (pos 12)
      ≡ ok (returned (pos 0) calls))
unfolding main kvm_init kvm_create_vm load_binary load_pieces write_ram kvm_run_vm kvm_init_vcpu
    kvm_reset_vcpu run_loop Quota.round
main_ends = (_, refl)

main-returns_iff_example :
    (main matrix exits
        (λ _. exit_unknown)
        files
        (answers (pos 5))
        (answers (pos 6))
        fresh
        fresh
        (pos 3)
        (pos 12)
      ≡ ok (returned (pos 0) main_ends.0))
    ↔ Completes by_quota exits
        (λ _. exit_unknown)
        files
        (answers (pos 5))
        (answers (pos 6))
        fresh
        fresh
        (pos 3)
        (pos 12)
        main_ends.0
main-returns_iff_example =
    main-returns_iff by_quota exits (λ _. exit_unknown) files (answers (pos 5)) (answers (pos 6))
      fresh fresh (pos 3) (pos 12) main_ends.0

done :
    Completed matrix exits
      (λ _. exit_unknown)
      files
      (answers (pos 5))
      (answers (pos 6))
      fresh
      fresh
      (pos 3)
      (pos 12)
      main_ends.0
done =
    (main-Completed_iff matrix exits (λ _. exit_unknown) files (answers (pos 5)) (answers (pos 6))
        fresh fresh (pos 3) (pos 12) main_ends.0).0
      main_ends.1

set_up-starts_behind_example :
    (start_address done.reset1 ≡ 0x10000)
    × (done.vm1.mem.guest_phys_addr ≡ 0)
    × (done.vm1.mem.userspace_addr ≡ done.vm1.ram_start)
    × (load done.set_up1.is_loaded.0.bytes 0 3 ≡ 1 ∷ 2 ∷ 3 ∷ [])
    × (done.set_up1.is_loaded.0.bytes 0x10005 ≡ 0xFF)
unfolding contents
set_up-starts_behind_example =
    set_up-starts_behind (pos 7, pieces) (answers (pos 5)) fresh (pos 3) done.vm1 done.vcpu1
      done.reset1 done.set_up1 0x10005 (omega arith) (omega arith)

loaded : (ram' : Ram) × (load_binary (pos 7) pieces ram ≡ ok ram')
unfolding load_binary load_pieces write_ram
loaded = (_, refl)

-- The second guest cannot be created.
abbrev no_vm : Answers
no_vm = record (answers (pos 6)) { create = record create_answers { create_vm = negsuc 0 } }

main-not_created_iff_example :
    (main matrix exits
        (λ _. exit_unknown)
        files
        (answers (pos 5))
        no_vm
        fresh
        fresh
        (pos 3)
        (pos 12)
      ≡ ok (returned (negsuc 0) []))
    ↔ (NotCreated matrix exits
          (λ _. exit_unknown)
          files
          (answers (pos 5))
          no_vm
          fresh
          fresh
          (pos 3)
          (pos 12)
        × (◌≡◌ {A = List Call} [] []))
main-not_created_iff_example =
    main-not_created_iff matrix exits (λ _. exit_unknown) files (answers (pos 5)) no_vm fresh fresh
      (pos 3) (pos 12) []
