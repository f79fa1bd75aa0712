-- ===== src/Examples/Data.antt =====
-- Concrete inputs that the examples share.
use advance_virtualization_a.Prelude.{
  ℕ, true, false, some, List, [], ◌∷◌, ltb, if◌then◌else◌, ◌==◌, pos, replicate,
}
use advance_virtualization_a.Memory.{Bytes}
use advance_virtualization_a.Kvm.{Segment, Sregs}
use advance_virtualization_a.SimpleKvm.{
  exit_io, exit_hlt, Direction, io_in, io_out, KvmRun, KvmEnv, translated, Host, exited,
}
use advance_virtualization_a.SimpleKvm.Modes.{ModeAnswers}
use advance_virtualization_a.SimpleKvm.Main.{MainAnswers}

-- The kernel maps the first 2 MB of the guest.
abbrev pub env : KvmEnv
env = record {
  mem_base = 0x7000_0000;
  kvm_translate = λ gva. if ltb gva 0x200000 then translated true gva else translated false 0;
  stack = λ _. 0;
}

abbrev pub segment : Segment
segment = record {
  base = 0;
  limit = 0xffff;
  selector = 0;
  seg_type = 3;
  present = 1;
  dpl = 0;
  db = 0;
  s = 1;
  l = 0;
  g = 0;
}

abbrev pub sregs : Sregs
sregs = record {
  cs = segment;
  ds = segment;
  es = segment;
  fs = segment;
  gs = segment;
  ss = segment;
  cr0 = 0;
  cr3 = 0;
  cr4 = 0;
  efer = 0;
}

abbrev pub io_run : Direction → ℕ → Bytes → KvmRun
io_run direction port bytes = record {
  exit_reason = exit_io;
  io_direction = direction;
  io_port = port;
  io_size = 4;
  io_data = bytes;
}

abbrev pub hlt_run : KvmRun
hlt_run = record {
  exit_reason = exit_hlt;
  io_direction = io_in;
  io_port = 0;
  io_size = 0;
  io_data = λ _. 0;
}

-- A host with a small memory, and a guest that has announced an address.
abbrev pub small_host : ℕ → ℕ → Host
small_host size address = record {
  exits_due_to_io_in = 0;
  exits_due_to_io_out = 0;
  total_exits = 0;
  gva_value = 0;
  num_exit_hc_address = address;
  mem = record { size = size; bytes = λ _. 0 };
  stdout = [];
}

-- A program that is ready, with its result in place.
abbrev pub mode_answers : List ℕ → ModeAnswers
mode_answers image = record {
  get_sregs = some sregs;
  set_sregs_failed = false;
  set_regs_failed = false;
  image = image;
}

-- The guest has stored its result.
abbrev with_result : Bytes
with_result p = if p == 0x400 then 42 else 0

abbrev pub main_answers : MainAnswers
main_answers = record {
  vm = record {
    dev_fd = pos 3;
    version = pos 12;
    vm_fd = pos 4;
    set_tss = pos 0;
    mmap = some 0x7000_0000;
    set_region = pos 0;
  };
  vcpu = record { vcpu_fd = pos 5; mmap_size = pos 4096; mmap = some 0x8000_0000 };
  modes = λ _. mode_answers (replicate 1024 0);
  translate = env;
  results = exited (λ _. 0) (io_run io_out 0xF1 (λ _. 1)) ∷ exited with_result hlt_run ∷ [];
  rax = some 42;
}
