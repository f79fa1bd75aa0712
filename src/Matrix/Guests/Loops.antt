-- ===== src/Matrix/Guests/Loops.antt =====
-- What KVM_RUN brings of one guest: of `guest1-a.s` and `guest2-a.s`, which write a word in each loop, and
-- of the others, which write none.
use advance_virtualization_a.Prelude.{
  ℕ, zero, suc, ◌+◌, ◌*◌, ◌%◌, ◌<◌, ◌≡◌, ◌⊎◌, refl, some, List, ◌∷◌, pos, negsuc, arith,
}
use advance_virtualization_a.SimpleKvm.{exit_io, exit_intr}
use advance_virtualization_a.Matrix.Sched.{Sched, KvmExit, Round, again}
use advance_virtualization_a.Matrix.Output.{Return, exit_of}
use advance_virtualization_a.Matrix.Guests.{
  Instr, guest1, guest2, guest1_a, guest2_a, Cpu, at_entry, kvm_run, returns, set_cpu,
}

-- KVM_RUN that a signal ends.
abbrev pub interrupted : Return
interrupted = record { ret = negsuc 0; reason = exit_intr; port = 0; data_value = 0 }

-- KVM_RUN that ends at an OUT of a word.
abbrev pub wrote : ℕ → ℕ → ℕ → Return
wrote port value upper = record {
  ret = pos 0;
  reason = exit_io;
  port = port;
  data_value = value + 65536 * upper;
}

-- The guest has still to execute the entry, or has just written; the next word that it writes is
-- `value`.
abbrev pub WritesNext1 : Cpu → ℕ → Type 0
WritesNext1 c value = ((c ≡ at_entry) × (value ≡ 0)) ⊎ ((c.ip ≡ 2) × (value ≡ (c.ax + 1) % 65536))

abbrev pub WritesNext2 : Cpu → ℕ → Type 0
WritesNext2 c value =
    ((c ≡ at_entry) × (value ≡ 0)) ⊎ ((c.ip ≡ 2) × (value ≡ (c.ax + 65535) % 65536))

-- After the OUT.
abbrev pub after_out : ℕ → Cpu
after_out value = record { ip = 2; ax = value }

pub kvm_run-guest1_a :
    (upper n : ℕ) (c : Cpu) (value : ℕ)
    → WritesNext1 c value
    → kvm_run guest1_a upper (suc (suc (suc n))) c ≡ some (wrote 0x10 value upper, after_out value)
unfolding kvm_run
kvm_run-guest1_a upper n c value next = ground arith

pub kvm_run-guest2_a :
    (upper n : ℕ) (c : Cpu) (value : ℕ)
    → WritesNext2 c value
    → kvm_run guest2_a upper (suc (suc (suc n))) c ≡ some (wrote 0x11 value upper, after_out value)
unfolding kvm_run
kvm_run-guest2_a upper n c value next = ground arith

-- KVM_RUN ends by the signal, with the guest in its program.
abbrev pub IsInterrupted : List Instr → ℕ → ℕ → Cpu → Type 0
IsInterrupted program upper n c =
    (c' : Cpu) × (kvm_run program upper n c ≡ some (interrupted, c')) × (c'.ip < 3)

-- However many instructions they execute, guest1.s and guest2.s stay in their loops.
pub kvm_run-guest1 :
    (upper n ip ax : ℕ) → ip < 3 → IsInterrupted guest1 upper n (record { ip = ip; ax = ax })
unfolding kvm_run
kvm_run-guest1 upper zero ip ax lt = (_, refl, lt)
kvm_run-guest1 upper (suc n) zero ax lt = kvm_run-guest1 upper n 1 0 (omega arith)
kvm_run-guest1 upper (suc n) (suc zero) ax lt =
    kvm_run-guest1 upper n 2 ((ax + 1) % 65536) (omega arith)
kvm_run-guest1 upper (suc n) (suc (suc zero)) ax lt = kvm_run-guest1 upper n 1 ax (omega arith)
kvm_run-guest1 upper (suc n) (suc (suc (suc ip))) ax lt = absurd (omega arith)

pub kvm_run-guest2 :
    (upper n ip ax : ℕ) → ip < 3 → IsInterrupted guest2 upper n (record { ip = ip; ax = ax })
unfolding kvm_run
kvm_run-guest2 upper zero ip ax lt = (_, refl, lt)
kvm_run-guest2 upper (suc n) zero ax lt = kvm_run-guest2 upper n 1 0 (omega arith)
kvm_run-guest2 upper (suc n) (suc zero) ax lt =
    kvm_run-guest2 upper n 2 ((ax + 65535) % 65536) (omega arith)
kvm_run-guest2 upper (suc n) (suc (suc zero)) ax lt = kvm_run-guest2 upper n 1 ax (omega arith)
kvm_run-guest2 upper (suc n) (suc (suc (suc ip))) ax lt = absurd (omega arith)

-- One round of the loop with the guests.
pub returns-again :
    (round : KvmExit → Sched → Round) (program : ℕ → List Instr) (upper : ℕ → ℕ) (n : ℕ)
    (ns : List ℕ) (cpu : ℕ → Cpu) (s : Sched) {r : Return} {c : Cpu} {s' : Sched}
    → kvm_run (program s.turn) (upper s.turn) n (cpu s.turn) ≡ some (r, c)
    → round (exit_of r) s ≡ again s'
    → returns round program upper (n ∷ ns) cpu s
      ≡ r ∷ returns round program upper ns (set_cpu cpu s.turn c) s'
unfolding returns
returns-again round program upper n ns cpu s runs goes_on = rw (runs, returns) (rw goes_on refl)
