-- ===== src/Matrix/Guests.antt =====
-- The guests of matrix.c, matrix-a.c and matrix-b.c: `guest1.s`, `guest2.s` and their versions for the
-- other two programs, and what KVM_RUN brings of them.
pub mod Loops
pub mod Shares
pub mod Printed
use advance_virtualization_a.Prelude.{
  ℕ, zero, suc, ◌+◌, ◌*◌, ◌%◌, Option, none, some, List, [], ◌∷◌, pos, negsuc, ◌==◌, if◌then◌else◌,
}
use advance_virtualization_a.SimpleKvm.{exit_io, exit_intr}
use advance_virtualization_a.Matrix.Sched.{Sched, KvmExit, Round, again, exit_kvm, exit_1}
use advance_virtualization_a.Matrix.Output.{Return, exit_of}

-- The instructions that the guests use; a jump names the place of its target in the program.
pub data Instr : Type 0 where
  xorw_ax_ax : Instr
  out_ax : ℕ → Instr
  inc_ax dec_ax : Instr
  jmp : ℕ → Instr

-- `guest1-a.s` and `guest2-a.s`
abbrev pub guest1_a : List Instr
guest1_a = xorw_ax_ax ∷ out_ax 0x10 ∷ inc_ax ∷ jmp 1 ∷ []

abbrev pub guest2_a : List Instr
guest2_a = xorw_ax_ax ∷ out_ax 0x11 ∷ dec_ax ∷ jmp 1 ∷ []

-- `guest1.s` and `guest1-b.s`, `guest2.s` and `guest2-b.s`: there the `out` is a comment.
abbrev pub guest1 : List Instr
guest1 = xorw_ax_ax ∷ inc_ax ∷ jmp 1 ∷ []

abbrev pub guest2 : List Instr
guest2 = xorw_ax_ax ∷ dec_ax ∷ jmp 1 ∷ []

-- The two guests of a program, by `turn`.
abbrev pub pair : List Instr → List Instr → ℕ → List Instr
pair first second zero = first
pair first second (suc _) = second

-- The registers that the guests use: the place of the next instruction, and AX.
pub record Cpu : Type 0 where
  pub ip : ℕ
  pub ax : ℕ

-- A guest at its first instruction. That the processor gets there from the address at which the programs
-- start a guest is taken for granted.
abbrev pub at_entry : Cpu
at_entry = record { ip = 0; ax = 0 }

-- The registers of two guests at their first instructions.
abbrev pub loaded : ℕ → Cpu
loaded vm = at_entry

-- The instruction at a place.
abbrev pub fetch : List Instr → ℕ → Option Instr
fetch [] ip = none
fetch (i ∷ is) zero = some i
fetch (i ∷ is) (suc ip) = fetch is ip

-- What one instruction does: it goes on; or it leaves the guest, with a port and a word. AX has 16
-- bits. `lost`: there is no instruction, and what the guest executes is not known.
pub data Effect : Type 0 where
  goes : Cpu → Effect
  outs : ℕ → ℕ → Cpu → Effect
  lost : Effect

abbrev execute : Option Instr → Cpu → Effect
execute none c = lost
execute (some xorw_ax_ax) c = goes (record { ip = suc c.ip; ax = 0 })
execute (some (out_ax port)) c = outs port c.ax (record c { ip = suc c.ip })
execute (some inc_ax) c = goes (record { ip = suc c.ip; ax = (c.ax + 1) % 65536 })
execute (some dec_ax) c = goes (record { ip = suc c.ip; ax = (c.ax + 65535) % 65536 })
execute (some (jmp target)) c = goes (record c { ip = target })

-- KVM_RUN of a guest that executes at most so many instructions before a signal for the thread that
-- runs it. The port's value has 16 bits, and the programs print the 32 bits that stand at its place in
-- the page, of which `upper` gives the others.
unfoldable pub kvm_run : List Instr → ℕ → ℕ → Cpu → Option (Return × Cpu)
kvm_run program upper zero c =
    some (record { ret = negsuc 0; reason = exit_intr; port = 0; data_value = 0 }, c)
kvm_run program upper (suc n) c = elim (execute (fetch program c.ip) c) [
  | goes c' ↦ kvm_run program upper n c'
  | outs port value c' ↦ some (
    record { ret = pos 0; reason = exit_io; port = port; data_value = value + 65536 * upper },
    c',
  )
  | lost ↦ none
]

-- The registers of one guest change.
abbrev pub set_cpu : (ℕ → Cpu) → ℕ → Cpu → ℕ → Cpu
set_cpu cpu guest c vm = if vm == guest then c else cpu vm

-- The loop of `kvm_run_vm` with the guests: what KVM_RUN brings in each round, given for each how many
-- instructions the guest executes at most. The guest that runs is the one of `turn`.
module _ (round : KvmExit → Sched → Round) (program : ℕ → List Instr) (upper : ℕ → ℕ) where
  unfoldable pub returns : List ℕ → (ℕ → Cpu) → Sched → List Return
  returns [] cpu s = []
  returns (n ∷ ns) cpu s = elim (kvm_run (program s.turn) (upper s.turn) n (cpu s.turn)) [
    | none ↦ []
    | some (r, c) ↦ r ∷ elim (round (exit_of r) s) [
      | again s' ↦ returns ns (set_cpu cpu s.turn c) s'
      | exit_kvm _ ↦ []
      | exit_1 ↦ []
    ]
  ]
