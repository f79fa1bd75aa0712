-- ===== src/Examples/Guest.antt =====
-- guest.c on a machine with a small memory.
use advance_virtualization_a.Prelude.{
  ℕ, ◌+◌, ◌*◌, ◌≡◌, refl, inl, some, List, [], ◌∷◌, ◌++◌, arith, codes,
}
use advance_virtualization_a.Memory.{u32, le_bytes, store, Ram, read_string, write_ram, c_string}
use advance_virtualization_a.SimpleKvm.{returned}
use advance_virtualization_a.Guest.Machine.{Machine}
use advance_virtualization_a.Guest.Calls.{
  Arrays, array_of_turn, hc_gva_to_hva, hc_num_exits_by_type,
}
use advance_virtualization_a.Guest.Translate.{TwoExits, hc_gva_to_hva_lem}
use advance_virtualization_a.Guest.ByType.{
  IsLaidOut, reported, hc_num_exits_by_type_lem, calls, calls-read_string,
}
use advance_virtualization_a.Guest.Start.{start}
use advance_virtualization_a.Guest.Start.Steps.{IsAt}
use advance_virtualization_a.Guest.Start.Output.{said, spoken}
use advance_virtualization_a.SimpleKvm.Modes.{Entered, enter_long_mode}
use advance_virtualization_a.SimpleKvm.Main.{
  Vm, Vcpu, MainAnswers, vm_init, vcpu_init, mem_size, main, long_mode, enter, read_options, banner,
  fresh_host, exited_with,
}
use advance_virtualization_a.SimpleKvm.Success.{run_in}
use advance_virtualization_a.SimpleKvm.{KvmEnv, Host, print}
use advance_virtualization_a.Kvm.{ok}
use advance_virtualization_a.Guest.Traced.Whole.{answered, exits_to_hlt, booted, main-runs_guest}
use advance_virtualization_a.Examples.Data.{main_answers, mode_answers, env, small_host}

-- The arrays from 0x500 on, the string at 0x410.
abbrev arrays : Arrays
arrays i = 0x500 + i * 100

abbrev text : List ℕ
text = codes "CS695 Assignment 2\n"

abbrev memory : Ram
memory = record { size = 2400; bytes = store (λ _. 0) 0x410 text }

abbrev machine : Machine
machine = record {
  host = record (small_host 2400 0) { mem = memory };
  io_page = λ _. 0;
  turn = 0;
  exits = [];
}

laid_out : IsLaidOut arrays 2400
laid_out = record { inside = λ i lt. omega arith; apart = λ i j i_lt j_lt ne. ground arith }

string_found : read_string memory (u32 0x410) ≡ some text
unfolding read_string store c_string
string_found = refl

machine-IsAt : IsAt machine 0 0 0 memory []
machine-IsAt = record {
  ins_eq = refl;
  outs_eq = refl;
  total_eq = refl;
  turn_eq = refl;
  mem_eq = refl;
  out_eq = refl;
  small = omega arith;
}

-- guest.c as the program of the long mode, with its string at the start of the memory.
abbrev long_answers : MainAnswers
long_answers = record main_answers { modes = λ _. mode_answers (text ++ 0 ∷ []) }

long_vm : (vm : Vm) × (vm_init long_answers.vm mem_size ≡ ok vm)
unfolding vm_init
long_vm = (_, refl)

long_vcpu : (vcpu : Vcpu) × (vcpu_init long_answers.vcpu ≡ ok vcpu)
unfolding vcpu_init
long_vcpu = (_, refl)

long_entered :
    (e : Entered) × (enter long_mode
        (long_answers.modes long_mode)
        (print (banner long_mode) fresh_host)
      ≡ ok e)
    × (e.host.mem.size ≡ 0x200000)
    × (read_string e.host.mem 0 ≡ some text)
unfolding enter enter_long_mode write_ram read_string store c_string le_bytes
long_entered = (_, refl, refl, refl)

arrays-IsLaidOut : IsLaidOut arrays 0x200000
arrays-IsLaidOut = record { inside = λ i lt. omega arith; apart = λ i j i_lt j_lt ne. ground arith }

abbrev long_env : KvmEnv
long_env = record (long_answers.translate) { mem_base = long_vm.0.mem }

main-runs_guest_example :
    (m' : Machine) × (h' : Host) × (start long_env arrays 0 8 (booted long_entered.0.host (λ _. 0))
      ≡ some (tt, m'))
    × (main (answered long_answers (exits_to_hlt m')) (b'l' ∷ []) ≡ exited_with 0)
    × (run_in (answered long_answers (exits_to_hlt m')) (b'l' ∷ []) long_mode long_vm.0
        ≡ returned 1 h')
    × (h'.stdout ≡ said (banner long_mode) (spoken long_env text))
    × (h'.exits_due_to_io_in ≡ 6)
    × (h'.exits_due_to_io_out ≡ 24)
    × (h'.total_exits ≡ 31)
unfolding read_options
main-runs_guest_example =
    main-runs_guest long_answers (b'l' ∷ []) long_vm.0 long_vcpu.0 long_entered.0 arrays 0 text
      long_mode (λ _. 0) (λ e. cc) refl long_vm.1 long_vcpu.1 long_entered.1
      (rw long_entered.2 arrays-IsLaidOut) long_entered.3 (rw long_entered.2 (omega arith))

hc_gva_to_hva_lem_example :
    (m' : Machine) × (hc_gva_to_hva env 1024 machine ≡ some (0x7000_0400, m'))
    × TwoExits machine m'
    × (m'.host.stdout ≡ [])
hc_gva_to_hva_lem_example = hc_gva_to_hva_lem env 1024 machine (omega arith)

hc_num_exits_by_type_lem_example :
    (m' : Machine) × (hc_num_exits_by_type env arrays machine ≡ some (0x500, m'))
    × (read_string m'.host.mem 0x500 ≡ some (reported machine))
    × (m'.host.mem.bytes 0x410 ≡ memory.bytes 0x410)
    × (m'.turn ≡ 1)
unfolding array_of_turn
hc_num_exits_by_type_lem_example =
    hc_num_exits_by_type_lem env arrays machine 0x410 (omega arith) (inl (omega arith))

calls-read_string_example :
    (m' : Machine) × (calls env arrays 10 machine ≡ some (tt, m'))
    × (read_string m'.host.mem (array_of_turn arrays 0) ≡ some (reported machine))
calls-read_string_example =
    calls-read_string env arrays 9 machine laid_out (omega arith) (omega arith)
