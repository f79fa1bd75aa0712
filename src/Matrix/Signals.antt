-- ===== src/Matrix/Signals.antt =====
-- The timer of matrix.c and matrix-b.c: SIGUSR1 between its handler, KVM_RUN and `sigwait`.
pub mod Quanta
pub mod Turns
use advance_virtualization_a.Prelude.{ℕ, suc, ◌≡◌, true, false, Bool}
use advance_virtualization_a.Matrix.Sched.{Sched, KvmExit, tick, Round, again}

-- Where the program stands: in KVM_RUN; behind an exit of the guest that is not the signal's;
-- behind a KVM_RUN that the signal has ended; in `sigwait`.
pub data Phase : Type 0 where
  in_guest at_exit interrupted in_sigwait : Phase

-- The program, whether SIGUSR1 is pending, and what has happened: the times that the timer has
-- expired, that `timer_handler` has run, that KVM_RUN was interrupted, that `sigwait` has returned.
pub record System : Type 0 where
  pub sched : Sched
  pub phase : Phase
  pub pending : Bool
  pub expired : ℕ
  pub handled : ℕ
  pub quanta : ℕ
  pub waits : ℕ

-- `timer_handler` is empty.
abbrev pub timer_handler : Sched → Sched
timer_handler s = s

-- A program given by a round of its loop, whose process mask blocks SIGUSR1 or not: the program
-- leaves the mask as it finds it. The mask that it sets for KVM_RUN is taken to let the signal pass.
module _ (round : KvmExit → Sched → Round) (blocked : Bool) where
  -- As Linux documents it: SIGUSR1 does not queue; one that is pending ends KVM_RUN with EINTR; where
  -- it is not blocked, it is handled before the program goes on; `sigwait` takes it away.
  pub data Step (s : System) : System → Type 0 where
    expires : Step s (record s { pending = true; expired = suc s.expired })
    exits :
        (e : KvmExit) {sched : Sched}
        → s.phase ≡ in_guest
        → e.failed ≡ false
        → round e s.sched ≡ again sched
        → Step s (record s { sched = sched; phase = at_exit })
    runs_again :
        s.phase ≡ at_exit
        → (blocked ≡ false → s.pending ≡ false)
        → Step s (record s { phase = in_guest })
    interrupts :
        {sched : Sched}
        → s.phase ≡ in_guest
        → s.pending ≡ true
        → round tick s.sched ≡ again sched
        → Step s (record s { sched = sched; phase = interrupted; quanta = suc s.quanta })
    handles_at_exit :
        s.phase ≡ at_exit
        → blocked ≡ false
        → s.pending ≡ true
        → Step s
            (record s { sched = timer_handler s.sched; pending = false; handled = suc s.handled })
    handles_interrupted :
        s.phase ≡ interrupted
        → blocked ≡ false
        → s.pending ≡ true
        → Step s
            (record s { sched = timer_handler s.sched; pending = false; handled = suc s.handled })
    calls_sigwait :
        s.phase ≡ interrupted
        → (blocked ≡ false → s.pending ≡ false)
        → Step s (record s { phase = in_sigwait })
    sigwait_returns :
        s.phase ≡ in_sigwait
        → s.pending ≡ true
        → Step s (record s { phase = in_guest; pending = false; waits = suc s.waits })

  -- Before the first KVM_RUN.
  abbrev pub at_loop : Sched → System
  at_loop sched = record {
    sched = sched;
    phase = at_exit;
    pending = false;
    expired = 0;
    handled = 0;
    quanta = 0;
    waits = 0;
  }

  pub data Reach (sched : Sched) : System → Type 0 where
    start : Reach sched (at_loop sched)
    later : {s t : System} → Reach sched s → Step s t → Reach sched t
