-- ===== src/Matrix/Fairness.antt =====
-- matrix-b.c serves both guests, whatever else they do between the signals.
use advance_virtualization_a.Prelude.{
  ℕ, ◌≤◌, ◌<◌, ◌≡◌, refl, inl, inr, List, [], ◌∷◌, ◌++◌, arith, ◌==◌, Bool-cases,
}
use advance_virtualization_a.Matrix.Sched.{Sched, KvmExit, chosen, runs_of}
use advance_virtualization_a.Matrix.Alternate.{
  round, Continues, AllContinue, ticks, next, round-next, runs_of-hit, runs_of-miss,
}

runs_of-head : (v : ℕ) (vs : List ℕ) → 1 ≤ runs_of v (v ∷ vs)
runs_of-head v vs = omega (arith, runs_of-hit v vs)

-- The guest whose turn it is is run.
served_now :
    (es : List KvmExit) (last : KvmExit) (s : Sched)
    → 1 ≤ runs_of s.turn (chosen round (es ++ last ∷ []) s)
unfolding chosen
served_now [] last s = runs_of-head s.turn _
served_now (e ∷ es) last s = runs_of-head s.turn _

chosen-next :
    (e : KvmExit) (es : List KvmExit) (s : Sched)
    → Continues e
    → chosen round (e ∷ es) s ≡ s.turn ∷ chosen round es (next e s)
unfolding chosen
chosen-next e es s c = rw (round-next e s c) refl

-- Whatever exits a guest causes that do not end the loop, once a signal is among them and one more
-- KVM_RUN follows, both guests have been run: no guest of matrix-b.c keeps the other waiting
-- beyond the end of a quantum.
pub both_served :
    (vm : ℕ) (es : List KvmExit) (last : KvmExit) (s : Sched)
    → vm < 2
    → s.turn < 2
    → AllContinue es
    → 1 ≤ ticks es
    → 1 ≤ runs_of vm (chosen round (es ++ last ∷ []) s)
unfolding ticks
both_served vm [] last s lt turn all some_tick = absurd (omega arith)
both_served vm (e ∷ es) last s lt turn all some_tick =
    let rest = es ++ last ∷ [] in
    let steps = chosen-next e rest s all.0 in
    elim (Bool-cases (s.turn == vm)) [
      | inl own ↦ ground (arith, served_now (e ∷ es) last s)
      | inr other ↦
          let later : 1 ≤ runs_of vm (chosen round rest (next e s)) = ground (
            arith,
            served_now es last (next e s),
            both_served vm es last (next e s) lt (ground arith) all.1,
          ) in
          rw steps
            (omega (arith, runs_of-miss vm s.turn (chosen round rest (next e s)) (ground arith)))
    ]
