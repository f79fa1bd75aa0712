-- ===== src/Examples/SimpleKvm.antt =====
-- simple-kvm.c on concrete exits.
use advance_virtualization_a.Prelude.{
  ℕ, ◌+◌, ◌≤◌, ◌≡◌, ◌↔◌, refl, inl, some, none, List, [], ◌∷◌, arith,
}
use advance_virtualization_a.Memory.{load, write_ram, read_ram, of_le_bytes, store, Bytes}
use advance_virtualization_a.Kvm.{ok}
use advance_virtualization_a.SimpleKvm.{
  check_result, io_in, io_out, Host, resume, out_of_bounds, exited, run_vm, handle_exit,
}
use advance_virtualization_a.SimpleKvm.Modes.{
  Entered, enter_real_mode, enter_protected_mode, enter_long_mode, enter_paged_32bit_mode,
}
use advance_virtualization_a.SimpleKvm.Main.{
  fresh_host, main, read_options, vm_init, vcpu_init, run_mode, exited_with, enter, protected_mode,
}
use advance_virtualization_a.SimpleKvm.Paging.Walk.{walk32, walk64}
use advance_virtualization_a.SimpleKvm.Paging.Enter.{
  IsReady, enter_long_mode_lem, enter_paged_32bit_mode_lem,
}
use advance_virtualization_a.SimpleKvm.Starts.{IsIn, IsCleared, enter_lem}
use advance_virtualization_a.SimpleKvm.Counters.{RunAccounts, run_vm-RunAccounts}
use advance_virtualization_a.SimpleKvm.Safety.{
  AsksOutside, handle_exit-out_of_bounds_iff, handle_exit-frame,
}
use advance_virtualization_a.SimpleKvm.Success.{Succeeds, main-succeeds_iff}
use advance_virtualization_a.Examples.Data.{
  env, sregs, io_run, hlt_run, small_host, mode_answers, main_answers,
}

run_vm-RunAccounts_example : RunAccounts (
    run_vm env
      (some 42)
      4
      (exited (λ _. 0) (io_run io_out 0xE9 (λ _. 72))
        ∷ exited (λ _. 0) (io_run io_in 0xF4 (λ _. 0))
        ∷ exited (λ _. 0) hlt_run
        ∷ [])
      fresh_host)
run_vm-RunAccounts_example =
    run_vm-RunAccounts env (some 42) 4
      (exited (λ _. 0) (io_run io_out 0xE9 (λ _. 72))
        ∷ exited (λ _. 0) (io_run io_in 0xF4 (λ _. 0))
        ∷ exited (λ _. 0) hlt_run
        ∷ [])
      fresh_host (omega arith)

main_runs : main main_answers [] ≡ exited_with 0
unfolding main read_options vm_init vcpu_init run_mode enter_real_mode write_ram run_vm handle_exit
    check_result read_ram of_le_bytes load store
main_runs = refl

main-succeeds_iff_example : (main main_answers [] ≡ exited_with 0) ↔ Succeeds main_answers []
main-succeeds_iff_example = main-succeeds_iff main_answers []

handle_exit-out_of_bounds_iff_example :
    (handle_exit env (io_run io_in 0xF3 (λ _. 0)) (small_host 4096 4090) ≡ out_of_bounds)
    ↔ AsksOutside env (io_run io_in 0xF3 (λ _. 0)) (small_host 4096 4090)
handle_exit-out_of_bounds_iff_example =
    handle_exit-out_of_bounds_iff env (io_run io_in 0xF3 (λ _. 0)) (small_host 4096 4090)

abbrev given : Host
given = small_host 4096 256

counts_asked :
    (h : Host) × (page : Bytes) × (handle_exit env (io_run io_in 0xF3 (λ _. 0)) given
      ≡ resume h page)
unfolding handle_exit write_ram load
counts_asked = (_, _, refl)

handle_exit-frame_example :
    (counts_asked.0.mem.size ≡ 4096) × (counts_asked.0.mem.bytes 7 ≡ given.mem.bytes 7)
handle_exit-frame_example =
    handle_exit-frame env 7 (io_run io_in 0xF3 (λ _. 0)) given counts_asked.0 counts_asked.1
      (inl (omega arith)) counts_asked.2

abbrev image : List ℕ
image = 0xF4 ∷ []

ready : IsReady (mode_answers image) sregs fresh_host
ready = record {
  got = refl;
  set_sregs = refl;
  set_regs = refl;
  roomy = omega arith;
  short = omega arith;
  clear = λ q ge lt. refl;
}

enter_long_mode_lem_example :
    (e : Entered) × (enter_long_mode (mode_answers image) fresh_host ≡ ok e)
    × (e.regs.rip ≡ 0)
    × (e.regs.rsp ≡ 0x200000)
    × (load e.host.mem.bytes 0 1 ≡ image)
    × (walk64 e.host.mem.bytes e.sregs.cr3 0x400 ≡ some 0x400)
enter_long_mode_lem_example =
    enter_long_mode_lem (mode_answers image) sregs fresh_host ready 0x400 (omega arith)

enter_paged_32bit_mode_lem_example :
    (e : Entered) × (enter_paged_32bit_mode (mode_answers image) fresh_host ≡ ok e)
    × (e.regs.rip ≡ 0)
    × (e.regs.rsp ≡ 0x200000)
    × (load e.host.mem.bytes 0 1 ≡ image)
    × (walk32 e.host.mem.bytes e.sregs.cr3 0x400000 ≡ none)
enter_paged_32bit_mode_lem_example =
    enter_paged_32bit_mode_lem (mode_answers image) sregs fresh_host ready 0x400000 (omega arith)

protected_entered : (e : Entered) × (enter protected_mode (mode_answers image) fresh_host ≡ ok e)
unfolding enter enter_protected_mode write_ram
protected_entered = (_, refl)

enter_lem_example :
    let e = protected_entered.0 in
    IsIn protected_mode sregs e.sregs
    × IsCleared 0x200000 e.regs
    × (e.sregs.cs.base + e.regs.rip ≡ 0)
    × (load e.host.mem.bytes 0 1 ≡ image)
    × (1 ≤ e.host.mem.size)
    × (e.host ≡ record fresh_host { mem = e.host.mem })
    × (e.host.mem.size ≡ 0x200000)
enter_lem_example =
    enter_lem protected_mode (mode_answers image) sregs fresh_host protected_entered.0 refl
      protected_entered.1
