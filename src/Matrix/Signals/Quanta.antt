-- ===== src/Matrix/Signals/Quanta.antt =====
-- How many quanta the timer's signals give the guests.
use advance_virtualization_a.Prelude.{ℕ, ◌+◌, ◌≤◌, ◌≡◌, refl, true, false, Bool, arith}
use advance_virtualization_a.Matrix.Sched.{Sched, KvmExit, Round}
use advance_virtualization_a.Matrix.Signals.{
  Phase, interrupted, in_sigwait, System, Step, expires, exits, runs_again, interrupts,
  handles_at_exit, handles_interrupted, calls_sigwait, sigwait_returns, Reach, start, later,
}

abbrev one_if : Bool → ℕ
one_if true = 1
one_if false = 0

-- The interrupted quanta that `sigwait` has not followed yet.
abbrev unwaited : Phase → ℕ
unwaited interrupted = 1
unwaited in_sigwait = 1
unwaited _ = 0

-- The interrupts whose signal may not be handled yet.
abbrev unhandled : System → ℕ
unhandled s = elim s.phase [ interrupted ↦ one_if s.pending | _ ↦ 0 ]

module _ (round : KvmExit → Sched → Round) where
  -- Each signal is handled, waited for or pending; where it is not blocked, each interrupt costs one
  -- that is handled and one that is waited for.
  record IsCounted (s : System) : Type 0 where
    taken : one_if s.pending + s.handled + s.waits ≤ s.expired
    waited : s.quanta ≡ s.waits + unwaited s.phase
    paid : s.quanta ≤ s.handled + unhandled s

  -- Every step of the system keeps the count.
  Step-IsCounted : {s t : System} → Step round false s t → IsCounted s → IsCounted t
  Step-IsCounted {s} expires h = ground arith
  Step-IsCounted {s} (exits e at ok r) h = ground arith
  Step-IsCounted {s} (runs_again at free) h = ground arith
  Step-IsCounted {s} (interrupts at on r) h = ground arith
  Step-IsCounted {s} (handles_at_exit at off on) h = ground arith
  Step-IsCounted {s} (handles_interrupted at off on) h = ground arith
  Step-IsCounted {s} (calls_sigwait at free) h = ground arith
  Step-IsCounted {s} (sigwait_returns at on) h = ground arith

  Reach-IsCounted : {sched : Sched} {s : System} → Reach round false sched s → IsCounted s
  Reach-IsCounted start = record { taken = omega arith; waited = refl; paid = omega arith }
  Reach-IsCounted (later r st) = Step-IsCounted st (Reach-IsCounted r)

  -- In a process that does not block SIGUSR1, at most every second expiration of the timer ends a
  -- quantum: one signal ends KVM_RUN and is taken by the empty handler, and `sigwait` then waits for
  -- the next, while no guest runs.
  pub half_lost :
      {sched : Sched} {s : System} → Reach round false sched s → s.quanta + s.quanta ≤ s.expired + 1
  half_lost {s} r = let h = Reach-IsCounted r in ground arith
