-- ===== src/Matrix/Output.antt =====
-- What `kvm_run_vm` of matrix.c, matrix-a.c and matrix-b.c prints.
pub mod Started
use advance_virtualization_a.Prelude.{
  ℕ, suc, ◌+◌, ◌%◌, Bool, true, false, not, ◌&&◌, List, [], ◌∷◌, ◌++◌, ℤ, is_negative, length,
  if◌then◌else◌,
}
use advance_virtualization_a.SimpleKvm.{
  ExitReason, exit_unknown, exit_io, exit_debug, exit_hlt, exit_mmio, exit_shutdown, exit_intr,
  exit_other,
}
use advance_virtualization_a.Matrix.Sched.{
  Sched, KvmExit, set_reason, goes_on, is_intr, is_io, Round, again, exit_kvm, exit_1,
}

-- The lines, each with the `vm_fd` that it names. `time` leaves out the time; `run_failed` goes to
-- stderr; `exit_named` is a text for each of the reasons that the `switch` knows.
pub data Line : Type 0 where
  started : ℤ → Line
  time : Line
  stopped : ℤ → ExitReason → Line
  exit_named : ℤ → ExitReason → Line
  out_port : ℤ → ℕ → ℕ → Line
  panic : ℤ → Line
  panic_reason : ℤ → ExitReason → Line
  run_failed : ℤ → Line
  return_value : ℤ → ℤ → Line

-- How one KVM_RUN comes back: its result, and the page that it leaves.
pub record Return : Type 0 where
  pub ret : ℤ
  pub reason : ExitReason
  pub port : ℕ
  pub data_value : ℕ

-- What the scheduler sees of it.
abbrev pub exit_of : Return → KvmExit
exit_of r = record { failed = is_negative r.ret; reason = r.reason }

-- `switch (…->exit_reason)`
abbrev pub switch_lines : ℤ → Return → List Line
switch_lines fd r = elim r.reason [
  | exit_unknown ↦ exit_named fd exit_unknown ∷ []
  | exit_debug ↦ exit_named fd exit_debug ∷ []
  | exit_io ↦ exit_named fd exit_io ∷ out_port fd r.port r.data_value ∷ []
  | exit_mmio ↦ exit_named fd exit_mmio ∷ []
  | exit_intr ↦ exit_named fd exit_intr ∷ []
  | exit_shutdown ↦ exit_named fd exit_shutdown ∷ []
  | exit_hlt ↦ panic fd ∷ panic_reason fd exit_hlt ∷ []
  | exit_other n ↦ panic fd ∷ panic_reason fd (exit_other n) ∷ []
]

-- What tells the programs apart: whether they print the time, a round, and the scheduler's state at
-- the test behind the `switch`, given the one that KVM_RUN leaves.
module _ (timed : Bool) (round : KvmExit → Sched → Round) (at_test : KvmExit → Sched → Sched)
    (vm_fd : ℕ → ℤ) where
  -- The test of a failed KVM_RUN.
  unfoldable pub failure_lines : Return → Sched → List Line
  failure_lines r s =
      let s' = at_test (exit_of r) (set_reason s r.reason) in
      if goes_on r.reason && is_negative r.ret && not (is_intr (s'.reasons s'.turn))
      then run_failed (vm_fd s'.turn) ∷ return_value (vm_fd s'.turn) r.ret ∷ []
      else []

  -- One round of the loop.
  unfoldable pub round_lines : Return → Sched → List Line
  unfolding failure_lines
  round_lines r s =
      let fd = vm_fd s.turn in
      started fd
      ∷ ((if timed then time ∷ [] else [])
          ++ stopped fd r.reason ∷ switch_lines fd r
          ++ failure_lines r s)

  -- The whole loop.
  unfoldable pub output : List Return → Sched → List Line
  unfolding round_lines
  output [] s = []
  output (r ∷ rs) s =
      round_lines r s
      ++ elim (round (exit_of r) s) [ again s' ↦ output rs s' | exit_kvm _ ↦ [] | exit_1 ↦ [] ]
