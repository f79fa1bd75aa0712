-- ===== src/Matrix/Quota.antt =====
-- matrix.c: seven quanta for the first guest, three for the second.
use advance_virtualization_a.Prelude.{
  ℕ, zero, suc, ◌+◌, ◌*◌, ◌%◌, ◌<◌, ◌≡◌, refl, true, not, ◌&&◌, List, [], ◌∷◌, ◌++◌, arith, ◌==◌,
  leb, if◌then◌else◌, length, replicate, get_or,
}
use advance_virtualization_a.SimpleKvm.{ExitReason, exit_intr}
use advance_virtualization_a.Matrix.Sched.{
  Sched, KvmExit, set_reason, goes_on, is_intr, Round, again, exit_kvm, exit_1, running, tick,
  run_loop, chosen, runs_of,
}

abbrev pub frac_a : ℕ
frac_a = 7

abbrev pub frac_b : ℕ
frac_b = 3

-- `count ++; if (count == FRAC_A + FRAC_B) count = 0;`
abbrev pub bump_count : ℕ → ℕ
bump_count count = if count + 1 == frac_a + frac_b then 0 else count + 1

-- One round of the loop in `kvm_run_vm`.
unfoldable pub round : KvmExit → Sched → Round
round e s =
    let s' = set_reason (record s { count = bump_count s.count }) e.reason in
    if not (goes_on e.reason)
    then exit_kvm s'
    else (if e.failed && not (is_intr (s'.reasons s'.turn))
        then exit_1
        else (if e.failed
            then again (record s' { turn = if leb frac_a s'.count then 1 else 0 })
            else again s'))

-- `turn` names one of the two guests, and `count` stays below FRAC_A + FRAC_B.
pub record IsValid (s : Sched) : Type 0 where
  pub turn_lt : s.turn < 2
  pub count_lt : s.count < 10

-- A round from which the loop goes on keeps `turn` below 2 and `count` below 10.
pub round-IsValid :
    (e : KvmExit) (s : Sched) {s' : Sched} → IsValid s → round e s ≡ again s' → IsValid s'
unfolding round
round-IsValid e s v h = ground arith

-- The state that an exit leaves which does not end the loop.
abbrev pub next : KvmExit → Sched → Sched
next e s =
    let s' = set_reason (record s { count = bump_count s.count }) e.reason in
    if e.failed then record s' { turn = if leb frac_a s'.count then 1 else 0 } else s'

-- An exit that does not end the loop: the `switch` goes on, and a negative result comes with INTR.
abbrev pub Continues : KvmExit → Type 0
Continues e = (goes_on e.reason ≡ true) × ((e.failed ≡ true) → (e.reason ≡ exit_intr))

abbrev pub AllContinue : List KvmExit → Type 0
AllContinue [] = Unit
AllContinue (e ∷ es) = Continues e × AllContinue es

pub round-next : (e : KvmExit) (s : Sched) → Continues e → round e s ≡ again (next e s)
unfolding round
round-next e s c = ground arith

pub next-IsValid : (e : KvmExit) (s : Sched) → IsValid s → IsValid (next e s)
next-IsValid e s v = ground arith

pub next-count : (e : KvmExit) (s : Sched) → IsValid s → (next e s).count ≡ (s.count + 1) % 10
next-count e s v = ground arith

-- From a valid state, which guest runs next is decided at each signal by the number of KVM_RUN
-- calls so far, modulo 10: after any exits that do not end the loop, and a signal, the loop goes
-- on with the first guest if that number is below 7, and with the second if not.
pub run_loop-tick :
    (es : List KvmExit) (s : Sched)
    → IsValid s
    → AllContinue es
    → (s' : Sched) × (run_loop round (es ++ tick ∷ []) s ≡ running s')
      × (s'.count ≡ (s.count + length es + 1) % 10)
      × (s'.turn ≡ (if leb 7 s'.count then 1 else 0))
unfolding run_loop
run_loop-tick [] s v all = (
  next tick s,
  rw (round-next tick s (refl, λ _. refl), run_loop),
  omega (arith, next-count tick s v),
  ground arith,
)
run_loop-tick (e ∷ es) s v all =
    let (s', runs, count, turn) = run_loop-tick es (next e s) (next-IsValid e s v) all.1 in
    (s', rw (round-next e s all.0, run_loop) runs, omega (arith, next-count e s v), turn)

-- The scheduler's choice agrees with its count.
abbrev pub IsInPhase : Sched → Type 0
IsInPhase s = s.turn ≡ (if leb 7 s.count then 1 else 0)

-- Where each KVM_RUN ends by the signal, and the turn at first is the one of the count, the quanta
-- of a period of ten go to the guests by their place in the period: the first seven to the first
-- guest, the last three to the second.
pub chosen-ticks :
    (n i : ℕ) (s : Sched)
    → IsValid s
    → IsInPhase s
    → i < n
    → get_or (chosen round (replicate n tick) s) i 2 ≡ (if leb 7 ((s.count + i) % 10) then 1 else 0)
unfolding chosen
chosen-ticks zero i s v p lt = absurd (omega arith)
chosen-ticks (suc n) zero s v p lt = ground arith
chosen-ticks (suc n) (suc i) s v p lt =
    let e : ((next tick s).count + i) % 10 ≡ (s.count + suc i) % 10 =
      omega (arith, next-count tick s v) in
    rw (round-next tick s (refl, λ _. refl), ← e)
      (chosen-ticks n i (next tick s) (next-IsValid tick s v) (ground arith) (omega arith))

-- `turn` and `count` as `main` and `kvm_run_vm` set them.
abbrev pub start : (ℕ → ExitReason) → Sched
start reasons = record { turn = 0; count = 0; reasons = reasons }

abbrev pub ten : List KvmExit → List KvmExit
ten es = tick ∷ tick ∷ tick ∷ tick ∷ tick ∷ tick ∷ tick ∷ tick ∷ tick ∷ tick ∷ es

-- `n` periods of ten quanta.
abbrev pub periods : ℕ → List KvmExit
periods zero = []
periods (suc n) = ten (periods n)

abbrev nexts : ℕ → Sched → Sched
nexts zero s = s
nexts (suc n) s = nexts n (next tick s)

-- From the start of `kvm_run_vm`, and where each KVM_RUN ends by the signal, n periods of ten
-- quanta give the first guest 7 n of them, and the second 3 n.
pub quota_share :
    (n : ℕ) (reasons : ℕ → ExitReason)
    → (runs_of 0 (chosen round (periods n) (start reasons)) ≡ n * 7)
      × (runs_of 1 (chosen round (periods n) (start reasons)) ≡ n * 3)
unfolding chosen round runs_of
quota_share zero reasons = (refl, refl)
quota_share (suc n) reasons = omega (arith, quota_share n (nexts 10 (start reasons)).reasons)
