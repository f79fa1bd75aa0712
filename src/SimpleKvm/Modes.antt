-- ===== src/SimpleKvm/Modes.antt =====
-- The processor modes of simple-kvm.c: the registers and page tables with which a guest starts.
use advance_virtualization_a.Prelude.{ℕ, Bool, Option, none, some, List, [], ◌∷◌, bit_or}
use advance_virtualization_a.Memory.{le_bytes, Ram, write_ram}
use advance_virtualization_a.Kvm.{
  Segment, Sregs, Regs, Result, ok, exit_1, undefined, ◌>>=◌, ◌>>◌, exit_if,
}
use advance_virtualization_a.SimpleKvm.State.{Host}

-- `a | b | …`
abbrev pub any_of : List ℕ → ℕ
any_of [] = 0
any_of (b ∷ bs) = bit_or b (any_of bs)

-- CR0_PE, and CR0_PE | CR0_MP | CR0_ET | CR0_NE | CR0_WP | CR0_AM | CR0_PG.
abbrev pub cr0_pe : ℕ
cr0_pe = 1

abbrev pub cr0_paged : ℕ
cr0_paged = any_of (cr0_pe ∷ 0x2 ∷ 0x10 ∷ 0x20 ∷ 0x10000 ∷ 0x40000 ∷ 0x80000000 ∷ [])

abbrev pub cr4_pse : ℕ
cr4_pse = 0x10

abbrev pub cr4_pae : ℕ
cr4_pae = 0x20

-- EFER_LME | EFER_LMA
abbrev pub efer_long : ℕ
efer_long = any_of (0x100 ∷ 0x400 ∷ [])

-- The bits of page directory entries, in 32 and in 64 bits.
abbrev pub pde_present : ℕ
pde_present = 1

abbrev pub pde_rw : ℕ
pde_rw = 2

abbrev pub pde_user : ℕ
pde_user = 4

abbrev pub pde_ps : ℕ
pde_ps = 0x80

-- The code segment of the initialiser: `db` and `l` tell 32-bit code from 64-bit code.
abbrev pub code_segment : ℕ → ℕ → Segment
code_segment db l = record {
  base = 0;
  limit = 0xffffffff;
  selector = 8;
  seg_type = 11;
  present = 1;
  dpl = 0;
  db = db;
  s = 1;
  l = l;
  g = 1;
}

-- `seg.type = 3; seg.selector = 2 << 3;`
abbrev pub data_segment : Segment → Segment
data_segment seg = record seg { seg_type = 3; selector = 16 }

abbrev pub set_segments : Segment → Sregs → Sregs
set_segments seg sregs =
    let stack = data_segment seg in
    record sregs { cs = seg; ds = stack; es = stack; fs = stack; gs = stack; ss = stack }

unfoldable pub setup_protected_mode : Sregs → Sregs
setup_protected_mode sregs =
    set_segments (code_segment 1 0) (record sregs { cr0 = bit_or sregs.cr0 cr0_pe })

abbrev or_undefined : Option Ram → Result Ram
or_undefined none = undefined
or_undefined (some ram) = ok ram

unfoldable pub setup_paged_32bit_mode : Ram → Sregs → Result (Ram × Sregs)
setup_paged_32bit_mode mem sregs = do
  let entry = any_of (pde_present ∷ pde_rw ∷ pde_user ∷ pde_ps ∷ [])
  mem' ← or_undefined (write_ram mem 0x2000 (le_bytes 4 entry))
  ok (mem', record sregs { cr3 = 0x2000; cr4 = cr4_pse; cr0 = cr0_paged; efer = 0 })

unfoldable pub setup_64bit_code_segment : Sregs → Sregs
setup_64bit_code_segment = set_segments (code_segment 0 1)

unfoldable pub setup_long_mode : Ram → Sregs → Result (Ram × Sregs)
unfolding setup_64bit_code_segment
setup_long_mode mem sregs = do
  let pml4_entry = any_of (pde_present ∷ pde_rw ∷ pde_user ∷ 0x3000 ∷ [])
  let pdpt_entry = any_of (pde_present ∷ pde_rw ∷ pde_user ∷ 0x4000 ∷ [])
  let pd_entry = any_of (pde_present ∷ pde_rw ∷ pde_user ∷ pde_ps ∷ [])
  mem1 ← or_undefined (write_ram mem 0x2000 (le_bytes 8 pml4_entry))
  mem2 ← or_undefined (write_ram mem1 0x3000 (le_bytes 8 pdpt_entry))
  mem3 ← or_undefined (write_ram mem2 0x4000 (le_bytes 8 pd_entry))
  ok (
    mem3,
    setup_64bit_code_segment
        (record sregs { cr3 = 0x2000; cr4 = cr4_pae; cr0 = cr0_paged; efer = efer_long }),
  )

-- `memset(&regs, 0, sizeof(regs)); regs.rflags = 2; regs.rip = 0;`, and the stack pointer.
abbrev pub start_regs : ℕ → Regs
start_regs rsp = record {
  rax = 0;
  rbx = 0;
  rcx = 0;
  rdx = 0;
  rsi = 0;
  rdi = 0;
  rsp = rsp;
  rbp = 0;
  r8 = 0;
  r9 = 0;
  r10 = 0;
  r11 = 0;
  r12 = 0;
  r13 = 0;
  r14 = 0;
  r15 = 0;
  rip = 0;
  rflags = 2;
}

-- `2 << 20`
abbrev pub stack_top : ℕ
stack_top = 0x200000

-- What the kernel answers (KVM_GET_SREGS, `none` on failure; whether the two KVM_SET calls fail),
-- and the guest's program.
pub record ModeAnswers : Type 0 where
  pub get_sregs : Option Sregs
  pub set_sregs_failed : Bool
  pub set_regs_failed : Bool
  pub image : List ℕ

-- A guest that is ready to run: the registers handed to the kernel, and the hypervisor's state.
pub record Entered : Type 0 where
  pub sregs : Sregs
  pub regs : Regs
  pub host : Host

abbrev or_exit : Option Sregs → Result Sregs
or_exit none = exit_1
or_exit (some sregs) = ok sregs

-- The common end of the four functions: the registers are handed over, and the program is copied
-- to the start of the memory.
start_guest : ModeAnswers → ℕ → Host → Ram × Sregs → Result Entered
start_guest a rsp h (mem, sregs) = do
  exit_if a.set_sregs_failed
  exit_if a.set_regs_failed
  mem' ← or_undefined (write_ram mem 0 a.image)
  ok (record { sregs = sregs; regs = start_regs rsp; host = record h { mem = mem' } })

-- The four functions from KVM_GET_SREGS up to `run_vm`.
module _ (a : ModeAnswers) (h : Host) where
  unfoldable pub enter_real_mode : Result Entered
  unfolding start_guest
  enter_real_mode = do
    sregs ← or_exit a.get_sregs
    let cs = record sregs.cs { selector = 0; base = 0 }
    start_guest a 0 h (h.mem, record sregs { cs = cs })

  unfoldable pub enter_protected_mode : Result Entered
  unfolding start_guest setup_protected_mode
  enter_protected_mode = do
    sregs ← or_exit a.get_sregs
    start_guest a stack_top h (h.mem, setup_protected_mode sregs)

  unfoldable pub enter_paged_32bit_mode : Result Entered
  unfolding start_guest setup_protected_mode setup_paged_32bit_mode
  enter_paged_32bit_mode = do
    sregs ← or_exit a.get_sregs
    tables ← setup_paged_32bit_mode h.mem (setup_protected_mode sregs)
    start_guest a stack_top h tables

  unfoldable pub enter_long_mode : Result Entered
  unfolding start_guest setup_long_mode
  enter_long_mode = do
    sregs ← or_exit a.get_sregs
    tables ← setup_long_mode h.mem sregs
    start_guest a stack_top h tables
