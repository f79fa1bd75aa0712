-- ===== src/Matrix/Guests/Shares.antt =====
-- matrix.c and matrix-b.c with their own guests: how the quanta are shared.
use advance_virtualization_a.Prelude.{
  ℕ, zero, suc, ◌+◌, ◌-◌, ◌*◌, ◌/◌, ◌<◌, ◌≡◌, refl, ap, ◌∙◌, List, [], ◌∷◌, map, arith, length,
  replicate,
}
use advance_virtualization_a.SimpleKvm.{ExitReason}
use advance_virtualization_a.Matrix.Sched.{Sched, KvmExit, Round, again, tick, chosen, runs_of}
use advance_virtualization_a.Matrix.Output.{exit_of}
use advance_virtualization_a.Matrix.Quota
use advance_virtualization_a.Matrix.Alternate
use advance_virtualization_a.Matrix.Guests.{guest1, guest2, pair, Cpu, loaded, returns, set_cpu}
use advance_virtualization_a.Matrix.Guests.Loops.{
  IsInterrupted, kvm_run-guest1, kvm_run-guest2, returns-again,
}

-- Each guest is in its program.
abbrev AllInside : (ℕ → Cpu) → Type 0
AllInside cpu = (vm : ℕ) → (cpu vm).ip < 3

pair-IsInterrupted :
    (vm upper n : ℕ) (c : Cpu) → c.ip < 3 → IsInterrupted (pair guest1 guest2 vm) upper n c
pair-IsInterrupted zero upper n c lt = kvm_run-guest1 upper n c.ip c.ax lt
pair-IsInterrupted (suc vm) upper n c lt = kvm_run-guest2 upper n c.ip c.ax lt

-- A program in which a round that a signal ends goes on.
module _ (round : KvmExit → Sched → Round) (upper : ℕ → ℕ) (after : Sched → Sched)
    (goes_on : (s : Sched) → round tick s ≡ again (after s)) where
  returns-ticks :
      (ns : List ℕ) (cpu : ℕ → Cpu) (s : Sched)
      → AllInside cpu
      → map exit_of (returns round (pair guest1 guest2) upper ns cpu s) ≡ replicate (length ns) tick
  unfolding returns
  returns-ticks [] cpu s inside = refl
  returns-ticks (n ∷ ns) cpu s inside =
      let (c, runs, lt) = pair-IsInterrupted s.turn (upper s.turn) n (cpu s.turn) (inside s.turn) in
      rw (returns-again round (pair guest1 guest2) upper n ns cpu s runs (goes_on s)) (
        ap (λ es. tick ∷ es)
          (returns-ticks ns (set_cpu cpu s.turn c) (after s) (λ vm. ground (arith, inside vm))))

-- The exits in a run of matrix.c, or of matrix-b.c, with its guests.
abbrev pub quota_exits : (ℕ → ℕ) → List ℕ → Sched → List KvmExit
quota_exits upper ns s = map exit_of (returns Quota.round (pair guest1 guest2) upper ns loaded s)

abbrev pub alternate_exits : (ℕ → ℕ) → List ℕ → Sched → List KvmExit
alternate_exits upper ns s =
    map exit_of (returns Alternate.round (pair guest1 guest2) upper ns loaded s)

replicate-periods : (n : ℕ) → replicate (n * 10) tick ≡ Quota.periods n
replicate-periods zero = refl
replicate-periods (suc n) =
    let e : suc n * 10 ≡ suc (suc (suc (suc (suc (suc (suc (suc (suc (suc (n * 10)))))))))) =
      omega arith in
    rw e (ap Quota.ten (replicate-periods n))

-- matrix.c with guest1.s and guest2.s, however many instructions the guests execute in each
-- quantum: in n periods of ten quanta the first guest is run 7 n times and the second 3 n times.
quota-guests :
    (upper : ℕ → ℕ) (n : ℕ) (ns : List ℕ) (reasons : ℕ → ExitReason)
    → length ns ≡ n * 10
    → let s = Quota.start reasons in
      (runs_of 0 (chosen Quota.round (quota_exits upper ns s) s) ≡ n * 7)
      × (runs_of 1 (chosen Quota.round (quota_exits upper ns s) s) ≡ n * 3)
quota-guests upper n ns reasons periods =
    let e : quota_exits upper ns (Quota.start reasons) ≡ Quota.periods n =
      returns-ticks Quota.round upper (Quota.next tick)
        (λ s. Quota.round-next tick s (refl, λ _. refl)) ns loaded (Quota.start reasons)
        (λ vm. omega arith)
      ∙ (ap (λ k. replicate k tick) periods ∙ replicate-periods n) in
    rw e (Quota.quota_share n reasons)

-- matrix-b.c with guest1-b.s and guest2-b.s, however many instructions they execute: of n quanta the
-- guest whose turn it is gets half, rounded up, and the other one the rest.
alternate-guests :
    (upper : ℕ → ℕ) (ns : List ℕ) (s : Sched)
    → s.turn < 2
    → (runs_of s.turn (chosen Alternate.round (alternate_exits upper ns s) s) ≡ (length ns + 1) / 2)
      × (runs_of (1 - s.turn) (chosen Alternate.round (alternate_exits upper ns s) s)
          ≡ length ns / 2)
alternate-guests upper ns s lt =
    rw
      (returns-ticks Alternate.round upper (Alternate.next tick)
        (λ s. Alternate.round-next tick s (refl, λ _. refl)) ns loaded s (λ vm. omega arith))
      (Alternate.alternate_share (length ns) s lt)

-- matrix.c and matrix-b.c with their guests, from the first instructions of these on, in n periods of ten quanta, however many
-- instructions the guests execute in a quantum: matrix.c gives seven quanta of each ten to its first
-- guest and three to its second, and matrix-b.c five to each.
pub periods-shared :
    (upper : ℕ → ℕ) (n : ℕ) (ns : List ℕ) (reasons : ℕ → ExitReason)
    → length ns ≡ n * 10
    → let s = Quota.start reasons in
      (runs_of 0 (chosen Quota.round (quota_exits upper ns s) s) ≡ n * 7)
      × (runs_of 1 (chosen Quota.round (quota_exits upper ns s) s) ≡ n * 3)
      × (runs_of 0 (chosen Alternate.round (alternate_exits upper ns s) s) ≡ n * 5)
      × (runs_of 1 (chosen Alternate.round (alternate_exits upper ns s) s) ≡ n * 5)
periods-shared upper n ns reasons periods =
    let s = Quota.start reasons in
    let (quota1, quota2) = quota-guests upper n ns reasons periods in
    let (alternate1, alternate2) = alternate-guests upper ns s (omega arith) in
    (quota1, quota2, alternate1 ∙ omega (arith, periods), alternate2 ∙ omega (arith, periods))
