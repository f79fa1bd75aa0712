-- ===== src/SimpleKvm/RealGuest.antt =====
-- guest16.s, the guest of simple-kvm.c in the real mode, as the processor executes it from the guest's
-- memory.
pub mod Whole
use advance_virtualization_a.Prelude.{
  ℕ, zero, suc, ◌+◌, ◌*◌, ◌/◌, ◌%◌, ◌<◌, ◌≡◌, refl, ap, sym, inl, ◌∙◌, Option, none, some, List, [],
  ◌∷◌, ◌==◌, if◌then◌else◌, arith, get_or,
}
use advance_virtualization_a.Memory.{Bytes, le_bytes, load, store, store-outside, get_or-load}
use advance_virtualization_a.Kvm.{Regs}

-- The instructions of the guest; the constants have 16 bits.
pub data RealInstr : Type 0 where
  movw_imm_ax : ℕ → RealInstr
  movw_ax_mem : ℕ → RealInstr
  hlt : RealInstr

-- `guest16.s`
abbrev pub guest16 : List RealInstr
guest16 = movw_imm_ax 42 ∷ movw_ax_mem 0x400 ∷ hlt ∷ []

-- The machine code.
unfoldable pub assemble : List RealInstr → List ℕ
assemble [] = []
assemble (movw_imm_ax imm ∷ is) = 0xB8 ∷ imm % 256 ∷ imm / 256 ∷ assemble is
assemble (movw_ax_mem address ∷ is) = 0xA3 ∷ address % 256 ∷ address / 256 ∷ assemble is
assemble (hlt ∷ is) = 0xF4 ∷ assemble is

-- The instruction of an opcode and the word behind it.
abbrev decode : ℕ → ℕ → Option RealInstr
decode opcode word =
    if opcode == 0xB8
    then some (movw_imm_ax word)
    else (if opcode == 0xA3
        then some (movw_ax_mem word)
        else (if opcode == 0xF4 then some hlt else none))

-- The registers that the guest uses; AX is the low half of RAX.
pub record RealCpu : Type 0 where
  pub ip : ℕ
  pub rax : ℕ

abbrev pub set_ax : ℕ → ℕ → ℕ
set_ax value rax = rax / 65536 * 65536 + value

-- The processor in the real mode, with the bases of its segments CS and DS, up to a HLT: the bytes that it
-- leaves in the memory, and its registers. It executes what it reads at CS:IP. `none`: it has not halted
-- after so many instructions, or what it reads is none of the three.
module _ (cs ds : ℕ) where
  unfoldable pub run_real : ℕ → Bytes → RealCpu → Option (Bytes × RealCpu)
  run_real zero m c = none
  run_real (suc fuel) m c =
      let at = cs + c.ip in
      elim (decode (m at) (m (at + 1) + 256 * m (at + 2))) [
        | none ↦ none
        | some (movw_imm_ax imm) ↦
            run_real fuel m (record { ip = (c.ip + 3) % 65536; rax = set_ax imm c.rax })
        | some (movw_ax_mem address) ↦
            run_real fuel (store m (ds + address) (le_bytes 2 (c.rax % 65536)))
              (record c { ip = (c.ip + 3) % 65536 })
        | some hlt ↦ some (m, record c { ip = (c.ip + 1) % 65536 })
      ]

-- The registers with which the guest starts.
abbrev pub started_cpu : Regs → RealCpu
started_cpu regs = record { ip = regs.rip; rax = regs.rax }

-- The memory when the guest has halted.
abbrev pub with_42 : Bytes → Bytes
with_42 m = store m 0x400 (42 ∷ 0 ∷ [])

-- What the guest has left when it has halted.
abbrev pub ended : Bytes → Bytes × RealCpu
ended m = (with_42 m, record { ip = 7; rax = 42 })

-- One instruction, given the three bytes at its place.
module _ (cs ds fuel ip rax : ℕ) (m : Bytes) {imm_low imm_high : ℕ}
    (low : m (cs + ip + 1) ≡ imm_low) (high : m (cs + ip + 2) ≡ imm_high) where
  run_real-mov_ax :
      m (cs + ip) ≡ 0xB8
      → run_real cs ds (suc fuel) m (record { ip = ip; rax = rax })
        ≡ run_real cs ds fuel m
            (record { ip = (ip + 3) % 65536; rax = set_ax (imm_low + 256 * imm_high) rax })
  unfolding run_real
  run_real-mov_ax opcode = rw (run_real, opcode, low, high) refl

  run_real-mov_mem :
      m (cs + ip) ≡ 0xA3
      → run_real cs ds (suc fuel) m (record { ip = ip; rax = rax })
        ≡ run_real cs ds fuel
            (store m (ds + (imm_low + 256 * imm_high)) (le_bytes 2 (rax % 65536)))
            (record { ip = (ip + 3) % 65536; rax = rax })
  unfolding run_real
  run_real-mov_mem opcode = rw (run_real, opcode, low, high) refl

run_real-hlt :
    (cs ds fuel ip rax : ℕ) (m : Bytes)
    → m (cs + ip) ≡ 0xF4
    → run_real cs ds (suc fuel) m (record { ip = ip; rax = rax })
      ≡ some (m, record { ip = (ip + 1) % 65536; rax = rax })
unfolding run_real
run_real-hlt cs ds fuel ip rax m opcode = rw (run_real, opcode) refl

-- Where the machine code stands at the start of the segment CS, and DS starts at 0, three instructions are
-- enough: the guest halts with 42 in RAX and in the word at 0x400.
pub run_real-guest16 :
    (fuel : ℕ) (m : Bytes)
    → load m 0 7 ≡ assemble guest16
    → run_real 0 0 (suc (suc (suc fuel))) m (record { ip = 0; rax = 0 }) ≡ some (ended m)
unfolding assemble le_bytes
run_real-guest16 fuel m loaded =
    run_real-mov_ax 0 0 (suc (suc fuel)) 0 0 m (byte 1 (omega arith)) (byte 2 (omega arith))
      (byte 0 (omega arith))
    ∙ run_real-mov_mem 0 0 (suc fuel) 3 42 m (byte 4 (omega arith)) (byte 5 (omega arith))
        (byte 3 (omega arith))
    ∙ run_real-hlt 0 0 fuel 6 42 (with_42 m)
        (store-outside m 0x400 (42 ∷ 0 ∷ []) 6 (inl (omega arith)) ∙ byte 6 (omega arith))
  where
    byte : (i : ℕ) → i < 7 → m i ≡ get_or (assemble guest16) i 0
    byte i lt =
        let e : 0 + i ≡ i = omega arith in
        rw e at (sym (get_or-load m 0 7 i lt)) ∙ ap (λ bs. get_or bs i 0) loaded
