-- ===== src/Examples/RealGuest.antt =====
-- simple-kvm.c in the real mode with guest16.s, on concrete answers of the kernel.
use advance_virtualization_a.Prelude.{◌≡◌, refl, some, []}
use advance_virtualization_a.Memory.{write_ram}
use advance_virtualization_a.Kvm.{ok}
use advance_virtualization_a.SimpleKvm.{Host, returned, print}
use advance_virtualization_a.SimpleKvm.Modes.{Entered, enter_real_mode}
use advance_virtualization_a.SimpleKvm.Main.{
  MainAnswers, Vm, Vcpu, real_mode, read_options, vm_init, vcpu_init, main, enter, exited_with,
  banner, fresh_host, mem_size,
}
use advance_virtualization_a.SimpleKvm.Success.{run_in}
use advance_virtualization_a.SimpleKvm.RealGuest.{
  guest16, assemble, run_real, started_cpu, with_42, ended,
}
use advance_virtualization_a.SimpleKvm.RealGuest.Whole.{halted_with, main-runs_guest16}
use advance_virtualization_a.Examples.Data.{sregs, mode_answers, main_answers}

abbrev real_answers : MainAnswers
real_answers = record main_answers { modes = λ _. mode_answers (assemble guest16) }

chosen : read_options real_mode [] ≡ some real_mode
unfolding read_options
chosen = refl

has_vm : (vm : Vm) × (vm_init real_answers.vm mem_size ≡ ok vm)
unfolding vm_init
has_vm = (_, refl)

has_vcpu : (vcpu : Vcpu) × (vcpu_init real_answers.vcpu ≡ ok vcpu)
unfolding vcpu_init
has_vcpu = (_, refl)

entered :
    (e : Entered) × (enter real_mode
        (mode_answers (assemble guest16))
        (print (banner real_mode) fresh_host)
      ≡ ok e)
    × (e.sregs.ds.base ≡ 0)
unfolding enter enter_real_mode write_ram assemble
entered = (_, refl, refl)

main-runs_guest16_example :
    let e = entered.0 in
    let kernel = halted_with real_answers (ended e.host.mem.bytes) in
    (h : Host) × (run_real e.sregs.cs.base e.sregs.ds.base 3 e.host.mem.bytes (started_cpu e.regs)
      ≡ some (ended e.host.mem.bytes))
    × (run_in kernel [] real_mode has_vm.0 ≡ returned 1 h)
    × (h.mem.bytes ≡ with_42 e.host.mem.bytes)
    × (h.stdout ≡ banner real_mode)
    × (h.total_exits ≡ 1)
    × (main kernel [] ≡ exited_with 0)
main-runs_guest16_example =
    main-runs_guest16 real_answers [] has_vm.0 has_vcpu.0 sregs entered.0 0 chosen has_vm.1
      has_vcpu.1 refl refl entered.1 entered.2
