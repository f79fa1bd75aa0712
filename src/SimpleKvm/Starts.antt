-- ===== src/SimpleKvm/Starts.antt =====
-- How simple-kvm.c starts its guest in each of the four modes.
use advance_virtualization_a.Prelude.{ℕ, ◌+◌, ◌≤◌, ◌≡◌, some, bit_or, length, arith}
use advance_virtualization_a.Memory.{load, store, le_bytes, write_ram, load-store}
use advance_virtualization_a.Kvm.{Segment, Sregs, Regs, ok}
use advance_virtualization_a.SimpleKvm.State.{Host}
use advance_virtualization_a.SimpleKvm.Modes.{
  ModeAnswers, Entered, enter_real_mode, enter_protected_mode, enter_paged_32bit_mode,
  enter_long_mode,
}
use advance_virtualization_a.SimpleKvm.Main.{
  Mode, real_mode, protected_mode, paged_32bit_mode, long_mode, enter,
}

-- A present segment of the whole 4 GB, of the type of code or data: 32-bit code has `db`, 64-bit code
-- `l`.
abbrev pub flat : ℕ → ℕ → ℕ → ℕ → Segment
flat seg_type selector db l = record {
  base = 0;
  limit = 0xffffffff;
  selector = selector;
  seg_type = seg_type;
  present = 1;
  dpl = 0;
  db = db;
  s = 1;
  l = l;
  g = 1;
}

-- The code segment is the first entry, and all five data segments are the second.
pub record IsFlat (db l : ℕ) (sregs : Sregs) : Type 0 where
  pub cs : sregs.cs ≡ flat 11 8 db l
  pub ds : sregs.ds ≡ flat 3 16 db l
  pub es : sregs.es ≡ flat 3 16 db l
  pub fs : sregs.fs ≡ flat 3 16 db l
  pub gs : sregs.gs ≡ flat 3 16 db l
  pub ss : sregs.ss ≡ flat 3 16 db l

-- The registers that put the processor into the mode, where the kernel gives others first: the control
-- registers (protection, paging with its tables, large pages, EFER), and all segments. The real mode keeps
-- what the kernel gives, with the code segment at 0.
abbrev pub IsIn : Mode → Sregs → Sregs → Type 0
IsIn real_mode got sregs = sregs ≡ record got { cs = record (got.cs) { selector = 0; base = 0 } }
IsIn protected_mode got sregs =
    (sregs.cr0 ≡ bit_or got.cr0 1)
    × (sregs.cr3 ≡ got.cr3)
    × (sregs.cr4 ≡ got.cr4)
    × (sregs.efer ≡ got.efer)
    × IsFlat 1 0 sregs
IsIn paged_32bit_mode got sregs =
    (sregs.cr0 ≡ 0x80050033)
    × (sregs.cr3 ≡ 0x2000)
    × (sregs.cr4 ≡ 0x10)
    × (sregs.efer ≡ 0)
    × IsFlat 1 0 sregs
IsIn long_mode got sregs =
    (sregs.cr0 ≡ 0x80050033)
    × (sregs.cr3 ≡ 0x2000)
    × (sregs.cr4 ≡ 0x20)
    × (sregs.efer ≡ 0x500)
    × IsFlat 0 1 sregs

-- The general registers are 0 but for the flags, of which the one that is always set is, and for the stack
-- pointer.
pub record IsCleared (rsp : ℕ) (regs : Regs) : Type 0 where
  pub rax : regs.rax ≡ 0
  pub rbx : regs.rbx ≡ 0
  pub rcx : regs.rcx ≡ 0
  pub rdx : regs.rdx ≡ 0
  pub rsi : regs.rsi ≡ 0
  pub rdi : regs.rdi ≡ 0
  pub rsp_eq : regs.rsp ≡ rsp
  pub rbp : regs.rbp ≡ 0
  pub r8 : regs.r8 ≡ 0
  pub r9 : regs.r9 ≡ 0
  pub r10 : regs.r10 ≡ 0
  pub r11 : regs.r11 ≡ 0
  pub r12 : regs.r12 ≡ 0
  pub r13 : regs.r13 ≡ 0
  pub r14 : regs.r14 ≡ 0
  pub r15 : regs.r15 ≡ 0
  pub rip : regs.rip ≡ 0
  pub rflags : regs.rflags ≡ 2

-- The stack of a mode: it grows down from the end of the 2 MB, and the real mode has none.
abbrev pub stack_of : Mode → ℕ
stack_of real_mode = 0
stack_of _ = 0x200000

-- The registers of all modes: those of the general ones.
enter-IsCleared :
    (mode : Mode) (a : ModeAnswers) (h : Host) (e : Entered)
    → enter mode a h ≡ ok e
    → IsCleared (stack_of mode) e.regs
unfolding enter enter_real_mode enter_protected_mode enter_paged_32bit_mode enter_long_mode
enter-IsCleared real_mode a h e entered = ground arith
enter-IsCleared protected_mode a h e entered = ground arith
enter-IsCleared paged_32bit_mode a h e entered = ground arith
enter-IsCleared long_mode a h e entered = ground arith

-- Their segments and control registers.
enter-IsIn :
    (mode : Mode) (a : ModeAnswers) (got : Sregs) (h : Host) (e : Entered)
    → a.get_sregs ≡ some got
    → enter mode a h ≡ ok e
    → IsIn mode got e.sregs
unfolding enter enter_real_mode enter_protected_mode enter_paged_32bit_mode enter_long_mode
enter-IsIn real_mode a got h e gets entered = ground arith
enter-IsIn protected_mode a got h e gets entered = ground arith
enter-IsIn paged_32bit_mode a got h e gets entered = ground arith
enter-IsIn long_mode a got h e gets entered = ground arith

-- The program is in memory.
enter-loaded :
    (mode : Mode) (a : ModeAnswers) (h : Host) (e : Entered)
    → enter mode a h ≡ ok e
    → (e.sregs.cs.base + e.regs.rip ≡ 0)
      × (load e.host.mem.bytes 0 (length a.image) ≡ a.image)
      × (length a.image ≤ e.host.mem.size)
      × (e.host ≡ record h { mem = e.host.mem })
      × (e.host.mem.size ≡ h.mem.size)
unfolding enter enter_real_mode enter_protected_mode enter_paged_32bit_mode enter_long_mode
    write_ram
enter-loaded real_mode a h e entered = ground (arith, load-store h.mem.bytes 0 a.image)
enter-loaded protected_mode a h e entered = ground (arith, load-store h.mem.bytes 0 a.image)
enter-loaded paged_32bit_mode a h e entered =
    let tables = store h.mem.bytes 0x2000 (le_bytes 4 0x87) in
    ground (arith, load-store tables 0 a.image)
enter-loaded long_mode a h e entered =
    let pml4 = store h.mem.bytes 0x2000 (le_bytes 8 0x3007) in
    let pdpt = store pml4 0x3000 (le_bytes 8 0x4007) in
    ground (arith, load-store (store pdpt 0x4000 (le_bytes 8 0x87)) 0 a.image)

-- In each of the four modes, where `run_vm` is reached, the control registers and all six segments are
-- those of the mode, and the general registers are 0 but for the flags and the stack pointer; the first
-- instruction is at the linear address 0, where the whole program of the mode stands, inside of the
-- memory; and of the hypervisor's state only the guest's memory has changed, and not its size.
pub enter_lem :
    (mode : Mode) (a : ModeAnswers) (got : Sregs) (h : Host) (e : Entered)
    → a.get_sregs ≡ some got
    → enter mode a h ≡ ok e
    → IsIn mode got e.sregs
      × IsCleared (stack_of mode) e.regs
      × (e.sregs.cs.base + e.regs.rip ≡ 0)
      × (load e.host.mem.bytes 0 (length a.image) ≡ a.image)
      × (length a.image ≤ e.host.mem.size)
      × (e.host ≡ record h { mem = e.host.mem })
      × (e.host.mem.size ≡ h.mem.size)
enter_lem mode a got h e gets entered =
    let (first, loaded, room, host_eq, size) = enter-loaded mode a h e entered in
    (
      enter-IsIn mode a got h e gets entered,
      enter-IsCleared mode a h e entered,
      first,
      loaded,
      room,
      host_eq,
      size,
    )
