-- ===== src/Matrix/Sched.antt =====
-- What the loops of `kvm_run_vm` in matrix.c, matrix-a.c and matrix-b.c have in common: the
-- scheduler's variables, the exits of the guests, and the loop over them.
use advance_virtualization_a.Prelude.{ℕ, suc, Bool, true, false, List, [], ◌∷◌, ◌==◌, if◌then◌else◌}
use advance_virtualization_a.SimpleKvm.{
  ExitReason, exit_unknown, exit_io, exit_debug, exit_hlt, exit_mmio, exit_shutdown, exit_intr,
  exit_other,
}

-- The variables `turn` and `count`, and the field `exit_reason` of the two `kvm_run` pages.
pub record Sched : Type 0 where
  pub turn : ℕ
  pub count : ℕ
  pub reasons : ℕ → ExitReason

-- How one KVM_RUN comes back: whether the result is negative, and the `exit_reason` it leaves.
pub record KvmExit : Type 0 where
  pub failed : Bool
  pub reason : ExitReason

-- The page of guest `vm` now holds `reason`.
abbrev pub set_reason : Sched → ExitReason → Sched
set_reason s reason = record s { reasons = λ vm. if vm == s.turn then reason else s.reasons vm }

-- The `switch` goes on (`break`), or leaves the loop (`goto exit_kvm`).
abbrev pub goes_on : ExitReason → Bool
goes_on exit_unknown = true
goes_on exit_debug = true
goes_on exit_io = true
goes_on exit_mmio = true
goes_on exit_intr = true
goes_on exit_shutdown = false
goes_on exit_hlt = false
goes_on (exit_other _) = false

abbrev pub is_intr : ExitReason → Bool
is_intr exit_intr = true
is_intr _ = false

abbrev pub is_io : ExitReason → Bool
is_io exit_io = true
is_io _ = false

-- The end of one round: the next round, `goto exit_kvm`, or `exit(1)`.
pub data Round : Type 0 where
  again : Sched → Round
  exit_kvm : Sched → Round
  exit_1 : Round

-- How the loop stands after the given exits.
pub data LoopEnd : Type 0 where
  running : Sched → LoopEnd
  left : Sched → LoopEnd
  died : LoopEnd

-- The timer's signal interrupts KVM_RUN at the end of a quantum.
abbrev pub tick : KvmExit
tick = record { failed = true; reason = exit_intr }

module _ (round : KvmExit → Sched → Round) where
  -- The loop, and the guests that it runs, the first of them first.
  unfoldable pub run_loop : List KvmExit → Sched → LoopEnd
  run_loop [] s = running s
  run_loop (e ∷ es) s = elim (round e s) [
    | again s' ↦ run_loop es s'
    | exit_kvm s' ↦ left s'
    | exit_1 ↦ died
  ]

  unfoldable pub chosen : List KvmExit → Sched → List ℕ
  chosen [] s = []
  chosen (e ∷ es) s =
      s.turn ∷ elim (round e s) [ again s' ↦ chosen es s' | exit_kvm _ ↦ [] | exit_1 ↦ [] ]

-- How often guest `vm` was run.
unfoldable pub runs_of : ℕ → List ℕ → ℕ
runs_of vm [] = 0
runs_of vm (v ∷ vs) = let rest = runs_of vm vs in if v == vm then suc rest else rest
