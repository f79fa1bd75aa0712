-- ===== src/SimpleKvm/Counters.antt =====
-- The exit counters of simple-kvm.c account for every exit.
use advance_virtualization_a.Prelude.{ℕ, ◌+◌, ◌≡◌, ◌⊎◌, inl, inr, Option, List, [], ◌∷◌, arith}
use advance_virtualization_a.Memory.{u32}
use advance_virtualization_a.SimpleKvm.State.{
  KvmRun, KvmEnv, Host, Step, resume, halted, exit_failure, out_of_bounds,
}
use advance_virtualization_a.SimpleKvm.Exits.{handle_io, handle_exit}
use advance_virtualization_a.SimpleKvm.Run.{
  RunResult, run_failed, exited, RunOutcome, pending, returned, exit_1, undefined, check_result,
  with_bytes, run_vm,
}

-- Every exit so far was an I/O exit that one of the two counters counted.
abbrev pub IsAccounted : Host → Type 0
IsAccounted h = h.total_exits ≡ u32 (h.exits_due_to_io_in + h.exits_due_to_io_out)

-- All but the last exit, the one that ended the loop.
abbrev pub IsAccountedButOne : Host → Type 0
IsAccountedButOne h = h.total_exits ≡ u32 (h.exits_due_to_io_in + h.exits_due_to_io_out + 1)

abbrev pub StepAccounts : Step → Type 0
StepAccounts (resume h _) = IsAccounted h
StepAccounts (halted h) = IsAccountedButOne h
StepAccounts (exit_failure h) = IsAccountedButOne h
StepAccounts out_of_bounds = Unit

module _ (env : KvmEnv) where
  handle_io-StepAccounts :
      (run : KvmRun) (h : Host) → IsAccountedButOne h → StepAccounts (handle_io env run h)
  unfolding handle_io
  handle_io-StepAccounts run h a = ground arith

  -- One exit keeps the account, whatever the guest asks for.
  pub handle_exit-StepAccounts :
      (run : KvmRun) (h : Host) → IsAccounted h → StepAccounts (handle_exit env run h)
  unfolding handle_exit
  handle_exit-StepAccounts run h a =
      ground
        (arith, handle_io-StepAccounts run (record h { total_exits = u32 (h.total_exits + 1) }))

-- What the counters say at each way in which `run_vm` can end.
abbrev pub RunAccounts : RunOutcome → Type 0
RunAccounts (pending h) = IsAccounted h
RunAccounts (returned _ h) = IsAccountedButOne h
RunAccounts (exit_1 h) = IsAccounted h ⊎ IsAccountedButOne h
RunAccounts undefined = Unit

check_result-RunAccounts :
    (regs : Option ℕ) (sz : ℕ) (h : Host)
    → IsAccountedButOne h
    → RunAccounts (check_result regs sz h)
unfolding check_result
check_result-RunAccounts regs sz h a = ground arith

module _ (env : KvmEnv) (regs : Option ℕ) (sz : ℕ) where
  after_step :
      (results : List RunResult) (s : Step)
      → StepAccounts s
      → ((h : Host) → IsAccounted h → RunAccounts (run_vm env regs sz results h))
      → RunAccounts (elim s [
        | resume h' _ ↦ run_vm env regs sz results h'
        | halted h' ↦ check_result regs sz h'
        | exit_failure h' ↦ exit_1 h'
        | out_of_bounds ↦ undefined
      ])
  after_step results (resume h _) a ih = ih h a
  after_step results (halted h) a ih = check_result-RunAccounts regs sz h a
  after_step results (exit_failure h) a ih = inr a
  after_step results out_of_bounds a ih = tt

  -- From counters that account for the exits so far, any list of results of KVM_RUN leaves
  -- counters that do: while the guest runs on, the total is the sum of the two counters modulo
  -- 2^32; once `run_vm` has returned, it is that sum and one more; after `exit(1)` it is one of
  -- the two.
  pub run_vm-RunAccounts :
      (results : List RunResult) (h : Host)
      → IsAccounted h
      → RunAccounts (run_vm env regs sz results h)
  unfolding run_vm
  run_vm-RunAccounts [] h a = a
  run_vm-RunAccounts (run_failed ∷ results) h a = inl a
  run_vm-RunAccounts (exited bytes run ∷ results) h a =
      after_step results (handle_exit env run (with_bytes bytes h))
        (handle_exit-StepAccounts env run (with_bytes bytes h) a) (run_vm-RunAccounts results)
