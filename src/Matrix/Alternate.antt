-- ===== src/Matrix/Alternate.antt =====
-- matrix-b.c: the guests take turns, a quantum each.
use advance_virtualization_a.Prelude.{
  ℕ, zero, suc, ◌+◌, ◌-◌, ◌/◌, ◌%◌, ◌<◌, ◌≡◌, refl, true, not, ◌&&◌, List, [], ◌∷◌, arith,
  if◌then◌else◌, replicate, ap, sym, ◌∙◌, ◌≢◌,
}
use advance_virtualization_a.SimpleKvm.{exit_intr}
use advance_virtualization_a.Matrix.Sched.{
  Sched, KvmExit, set_reason, goes_on, is_intr, Round, again, exit_kvm, exit_1, running, tick,
  run_loop, chosen, runs_of,
}

-- One round of the loop in `kvm_run_vm`. The program has no `count`.
unfoldable pub round : KvmExit → Sched → Round
round e s =
    let s' = set_reason s e.reason in
    if not (goes_on e.reason)
    then exit_kvm s'
    else (if e.failed && not (is_intr (s'.reasons s'.turn))
        then exit_1
        else (if e.failed then again (record s' { turn = (s'.turn + 1) % 2 }) else again s'))

-- An exit that does not end the loop.
abbrev pub Continues : KvmExit → Type 0
Continues e = (goes_on e.reason ≡ true) × ((e.failed ≡ true) → (e.reason ≡ exit_intr))

abbrev pub AllContinue : List KvmExit → Type 0
AllContinue [] = Unit
AllContinue (e ∷ es) = Continues e × AllContinue es

-- The signals among the exits.
unfoldable pub ticks : List KvmExit → ℕ
ticks [] = 0
ticks (e ∷ es) = if e.failed then suc (ticks es) else ticks es

abbrev pub next : KvmExit → Sched → Sched
next e s =
    let s' = set_reason s e.reason in
    if e.failed then record s' { turn = (s'.turn + 1) % 2 } else s'

pub round-next : (e : KvmExit) (s : Sched) → Continues e → round e s ≡ again (next e s)
unfolding round
round-next e s c = ground arith

-- From a turn below 2, after any exits that do not end the loop, the guest to run is the one that
-- the number of signals so far selects: only a signal passes the turn on.
pub run_loop-ticks :
    (es : List KvmExit) (s : Sched)
    → s.turn < 2
    → AllContinue es
    → (s' : Sched) × (run_loop round es s ≡ running s') × (s'.turn ≡ (s.turn + ticks es) % 2)
unfolding run_loop ticks
run_loop-ticks [] s lt all = (s, refl, omega arith)
run_loop-ticks (e ∷ es) s lt all =
    let (s', runs, turn) = run_loop-ticks es (next e s) (ground arith) all.1 in
    (s', rw (round-next e s all.0, run_loop) runs, ground arith)

pub runs_of-hit : (v : ℕ) (vs : List ℕ) → runs_of v (v ∷ vs) ≡ suc (runs_of v vs)
unfolding runs_of
runs_of-hit v vs = ground arith

pub runs_of-miss : (w v : ℕ) (vs : List ℕ) → w ≢ v → runs_of w (v ∷ vs) ≡ runs_of w vs
unfolding runs_of
runs_of-miss w v vs ne = ground arith

chosen-tick :
    (es : List KvmExit) (s : Sched)
    → chosen round (tick ∷ es) s ≡ s.turn ∷ chosen round es (next tick s)
unfolding chosen
chosen-tick es s = rw (round-next tick s (refl, λ _. refl), chosen)

-- Where each KVM_RUN ends by the signal, neither guest gets more than one quantum ahead: of n
-- quanta the guest whose turn it is gets half, rounded up, and the other the rest.
pub alternate_share :
    (n : ℕ) (s : Sched)
    → s.turn < 2
    → (runs_of s.turn (chosen round (replicate n tick) s) ≡ (n + 1) / 2)
      × (runs_of (1 - s.turn) (chosen round (replicate n tick) s) ≡ n / 2)
alternate_share zero s lt = unfold chosen runs_of in (refl, refl)
alternate_share (suc n) s lt =
    let s' = next tick s in
    let rest = chosen round (replicate n tick) s' in
    let (own, other) = alternate_share n s' (omega arith) in
    let e : s'.turn ≡ 1 - s.turn = omega arith in
    let e' : 1 - s'.turn ≡ s.turn = omega arith in
    let own' : runs_of (1 - s.turn) rest ≡ (n + 1) / 2 = ap (λ v. runs_of v rest) (sym e) ∙ own in
    let other' : runs_of s.turn rest ≡ n / 2 = ap (λ v. runs_of v rest) (sym e') ∙ other in
    rw (chosen-tick (replicate n tick) s) (
      omega (arith, runs_of-hit s.turn rest, other'),
      omega (arith, runs_of-miss (1 - s.turn) s.turn rest (omega arith), own'),
    )
