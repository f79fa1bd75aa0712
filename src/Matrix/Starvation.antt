-- ===== src/Matrix/Starvation.antt =====
-- matrix.c counts every KVM_RUN: when a guest is sure to run, and when it never does.
use advance_virtualization_a.Prelude.{
  ℕ, ◌+◌, ◌-◌, ◌%◌, ◌<◌, ◌≡◌, refl, false, true, inl, inr, List, [], ◌∷◌, ◌++◌, arith, ◌==◌, leb,
  if◌then◌else◌, length, replicate, get_or, Bool-cases,
}
use advance_virtualization_a.SimpleKvm.{ExitReason}
use advance_virtualization_a.Matrix.Sched.{Sched, KvmExit, goes_on, tick, chosen, runs_of}
use advance_virtualization_a.Matrix.Quota.{
  round, IsValid, next, round-next, next-IsValid, next-count, IsInPhase, chosen-ticks, start,
}

-- The exits within a quantum: KVM_RUN does not fail, and the `switch` goes on.
abbrev pub IsQuantum : List KvmExit → Type 0
IsQuantum [] = Unit
IsQuantum (e ∷ es) = ((e.failed ≡ false) × (goes_on e.reason ≡ true)) × IsQuantum es

-- Quanta one after another, each ended by the signal.
abbrev pub in_turn : List (List KvmExit) → List KvmExit
in_turn [] = []
in_turn (es ∷ quanta) = es ++ tick ∷ in_turn quanta

runs_of_first : (v : ℕ) (vs : List ℕ) → v ≡ 0 → runs_of 1 (v ∷ vs) ≡ runs_of 1 vs
unfolding runs_of
runs_of_first v vs e = ground arith

-- A quantum of the first guest: the second is not run, and the count goes on.
chosen-quantum :
    (es rest : List KvmExit) (s : Sched)
    → IsValid s
    → s.turn ≡ 0
    → IsQuantum es
    → (s' : Sched) × IsValid s'
      × (s'.count ≡ (s.count + length es + 1) % 10)
      × (s'.turn ≡ (if leb 7 s'.count then 1 else 0))
      × (runs_of 1 (chosen round (es ++ tick ∷ rest) s) ≡ runs_of 1 (chosen round rest s'))
unfolding chosen
chosen-quantum [] rest s v first q = (
  next tick s,
  next-IsValid tick s v,
  omega (arith, next-count tick s v),
  ground arith,
  rw (round-next tick s (refl, λ _. refl)) (runs_of_first s.turn _ first),
)
chosen-quantum (e ∷ es) rest s v first q =
    let (s', v', count, turn, runs) =
      chosen-quantum es rest (next e s) (next-IsValid e s v) (ground arith) q.1 in
    (
      s',
      v',
      omega (arith, next-count e s v),
      turn,
      rw (round-next e s (q.0.1, λ f. ground arith), ← runs) (runs_of_first s.turn _ first),
    )

-- Each quantum takes a number of KVM_RUN calls that ten divides.
abbrev pub AllOfTens : List (List KvmExit) → Type 0
AllOfTens [] = Unit
AllOfTens (es ∷ quanta) = (IsQuantum es × ((length es + 1) % 10 ≡ 0)) × AllOfTens quanta

starves_from :
    (quanta : List (List KvmExit)) (s : Sched)
    → IsValid s
    → s.turn ≡ 0
    → s.count ≡ 0
    → AllOfTens quanta
    → runs_of 1 (chosen round (in_turn quanta) s) ≡ 0
unfolding runs_of chosen
starves_from [] s v turn count all = refl
starves_from (es ∷ quanta) s v turn count all =
    let (s', v', count', turn', runs) = chosen-quantum es (in_turn quanta) s v turn all.0.0 in
    let zero' : s'.count ≡ 0 = omega (arith, all.0.1) in
    rw runs (starves_from quanta s' v' (ground arith) zero' all.1)

-- From the start of `kvm_run_vm`, and where the first guest has, in each of its quanta, so many
-- exits that go on that ten divides the number of KVM_RUN calls (nine I/O exits and the signal,
-- say), the second guest is never run, however many quanta pass.
pub second_starves :
    (quanta : List (List KvmExit)) (reasons : ℕ → ExitReason)
    → AllOfTens quanta
    → runs_of 1 (chosen round (in_turn quanta) (start reasons)) ≡ 0
second_starves quanta reasons all =
    starves_from quanta (start reasons) (record { turn_lt = omega arith; count_lt = omega arith })
      refl refl all

-- Where each KVM_RUN ends by the signal, and the turn at first is the one of the count, each of
-- the two guests is run within any ten quanta.
pub both_within_ten :
    (vm : ℕ) (s : Sched)
    → vm < 2
    → IsValid s
    → IsInPhase s
    → (i : ℕ) × (i < 10) × (get_or (chosen round (replicate 10 tick) s) i 2 ≡ vm)
both_within_ten vm s lt v p = elim (Bool-cases (leb 7 s.count)) [
  | inl late ↦ (
    (if vm == 0 then 10 - s.count else 0),
    ground arith,
    ground (arith, chosen-ticks 10 (if vm == 0 then 10 - s.count else 0) s v p),
  )
  | inr early ↦ (
    (if vm == 0 then 0 else 7 - s.count),
    ground arith,
    ground (arith, chosen-ticks 10 (if vm == 0 then 0 else 7 - s.count) s v p),
  )
]
