-- ===== src/Matrix/Signals/Turns.antt =====
-- Which guest matrix-b.c runs between the timer's signals.
use advance_virtualization_a.Prelude.{
  ℕ, zero, suc, ◌+◌, ◌%◌, ◌<◌, ◌≡◌, refl, ap, true, false, Bool, arith,
}
use advance_virtualization_a.Matrix.Sched.{Sched, KvmExit, tick, again}
use advance_virtualization_a.Matrix.Alternate.{round, round-next}
use advance_virtualization_a.Matrix.Signals.{
  in_guest, System, Step, expires, exits, runs_again, interrupts, handles_at_exit,
  handles_interrupted, calls_sigwait, sigwait_returns, Reach, start, later,
}

round-keeps_turn :
    (e : KvmExit) (s s' : Sched) → e.failed ≡ false → round e s ≡ again s' → s'.turn ≡ s.turn
unfolding round
round-keeps_turn e s s' ok r = ground arith

round-tick_turn : (s s' : Sched) → round tick s ≡ again s' → s'.turn ≡ (s.turn + 1) % 2
unfolding round
round-tick_turn s s' r = ground arith

module _ (blocked : Bool) (first : Sched) (lt : first.turn < 2) where
  Step-turn :
      {s t : System}
      → Step round blocked s t
      → s.sched.turn ≡ (first.turn + s.quanta) % 2
      → t.sched.turn ≡ (first.turn + t.quanta) % 2
  Step-turn expires h = h
  Step-turn {s} (exits e {sched} at ok r) h = omega (arith, round-keeps_turn e s.sched sched ok r)
  Step-turn (runs_again at free) h = h
  Step-turn {s} (interrupts {sched} at on r) h = omega (arith, round-tick_turn s.sched sched r)
  Step-turn (handles_at_exit at off on) h = h
  Step-turn (handles_interrupted at off on) h = h
  Step-turn (calls_sigwait at free) h = h
  Step-turn (sigwait_returns at on) h = h

  -- From a turn below 2, and whether the process blocks SIGUSR1 or not, the turn of matrix-b.c is at
  -- any time the one that the number of interrupted KVM_RUN calls selects, however the signals fall.
  pub Reach-turn :
      {s : System} → Reach round blocked first s → s.sched.turn ≡ (first.turn + s.quanta) % 2
  Reach-turn start = omega arith
  Reach-turn (later r st) = Step-turn st (Reach-turn r)

-- The state in which a guest runs, and as many quanta have ended as the timer has expired.
pub record HasLostNone (n : ℕ) (s : System) : Type 0 where
  pub runs : s.phase ≡ in_guest
  pub none_pending : s.pending ≡ false
  pub expired_eq : s.expired ≡ n
  pub quanta_eq : s.quanta ≡ n

quantum :
    (first : Sched) (n : ℕ) {s : System}
    → Reach round true first s
    → HasLostNone n s
    → (t : System) × Reach round true first t × HasLostNone (suc n) t
quantum first n {s} r h =
    let expired' = later r expires in
    let turned =
      later expired' (interrupts h.runs refl (round-next tick s.sched (refl, λ _. refl))) in
    let waiting = later turned (calls_sigwait refl (λ e. ground arith)) in
    (
      _,
      later waiting (sigwait_returns refl refl),
      record {
        runs = refl;
        none_pending = refl;
        expired_eq = ap suc h.expired_eq;
        quanta_eq = ap suc h.quanta_eq;
      },
    )

-- In a process that blocks SIGUSR1, and from any state of the scheduler, matrix-b.c can give a
-- quantum for each expiration of the timer.
pub none_lost : (first : Sched) (n : ℕ) → (s : System) × Reach round true first s × HasLostNone n s
none_lost first zero = (
  _,
  later start (runs_again refl (λ e. ground arith)),
  record { runs = refl; none_pending = refl; expired_eq = refl; quanta_eq = refl },
)
none_lost first (suc n) = let (s, r, h) = none_lost first n in quantum first n r h
