-- ===== src/Matrix/Guests/Printed.antt =====
-- matrix-a.c with guest1-a.s and guest2-a.s: what the program prints.
use advance_virtualization_a.Prelude.{
  ℕ, zero, suc, ◌+◌, ◌-◌, ◌*◌, ◌/◌, ◌%◌, ◌≤◌, ◌≡◌, refl, ap, subst, ◌∙◌, ◌⊎◌, some, Bool-cases, inl,
  inr, List, [], ◌∷◌, ◌++◌, ℤ, arith, ◌==◌, if◌then◌else◌,
}
use advance_virtualization_a.SimpleKvm.{ExitReason, exit_io}
use advance_virtualization_a.Matrix.Sched.{Sched, set_reason}
use advance_virtualization_a.Matrix.Output.{
  Line, started, stopped, exit_named, out_port, Return, exit_of, output, round_lines,
}
use advance_virtualization_a.Matrix.Quota.{start}
use advance_virtualization_a.Matrix.OnIo
use advance_virtualization_a.Matrix.MatrixA
use advance_virtualization_a.Matrix.Guests.{
  guest1_a, guest2_a, pair, Cpu, loaded, kvm_run, returns, set_cpu,
}
use advance_virtualization_a.Matrix.Guests.Loops.{
  wrote, WritesNext1, WritesNext2, after_out, kvm_run-guest1_a, kvm_run-guest2_a, returns-again,
}

-- The lines about one OUT.
abbrev pub out_lines : ℤ → ℕ → ℕ → List Line
out_lines fd port value =
    started fd ∷ stopped fd exit_io ∷ exit_named fd exit_io ∷ out_port fd port value ∷ []

-- The i-th word that each guest writes: the first counts up from 0, the second down, in 16 bits.
abbrev pub up : ℕ → ℕ
up i = i % 65536

abbrev pub down : ℕ → ℕ
down i = (65536 - i % 65536) % 65536

even-or-odd : (i : ℕ) → (i % 2 ≡ 0) ⊎ (i % 2 ≡ 1)
even-or-odd i = elim (Bool-cases (i % 2 == 0)) [
  | inl e ↦ inl (ground arith)
  | inr e ↦ inr (ground arith)
]

-- Each KVM_RUN lets its guest execute three instructions at least.
abbrev pub AllRoomy : List ℕ → Type 0
AllRoomy [] = Unit
AllRoomy (n ∷ ns) = (3 ≤ n) × AllRoomy ns

module _ (vm_fd : ℕ → ℤ) (upper : ℕ → ℕ) where
  -- What is printed from the i-th KVM_RUN on: the even ones are the first guest's.
  abbrev pub expected_from : ℕ → List ℕ → List Line
  expected_from i [] = []
  expected_from i (_ ∷ ns) =
      (if i % 2 == 0
        then out_lines (vm_fd 0) 0x10 (up (i / 2) + 65536 * upper 0)
        else out_lines (vm_fd 1) 0x11 (down (i / 2) + 65536 * upper 1))
      ++ expected_from (suc i) ns

  -- Before the i-th KVM_RUN.
  record IsAtRun (i : ℕ) (cpu : ℕ → Cpu) (s : Sched) : Type 0 where
    turn_eq : s.turn ≡ i % 2
    first : WritesNext1 (cpu 0) (up ((i + 1) / 2))
    second : WritesNext2 (cpu 1) (down (i / 2))

  -- The scheduler after a round in which its guest writes.
  abbrev passed : Return → Sched → Sched
  passed r s = OnIo.pass_turn (exit_of r) (set_reason s r.reason)

  output-wrote :
      (port value up16 : ℕ) (s : Sched) (rs : List Return)
      → MatrixA.output vm_fd (wrote port value up16 ∷ rs) s
        ≡ out_lines (vm_fd s.turn) port (value + 65536 * up16)
          ++ MatrixA.output vm_fd rs (passed (wrote port value up16) s)
  unfolding output round_lines OnIo.round
  output-wrote port value up16 s rs = refl

  abbrev printed : List ℕ → (ℕ → Cpu) → Sched → List Line
  printed ns cpu s =
      MatrixA.output vm_fd (returns OnIo.round (pair guest1_a guest2_a) upper ns cpu s) s

  -- A KVM_RUN in which the guest `vm`, whose turn it is, writes.
  printed-wrote :
      (n : ℕ) (ns : List ℕ) (cpu : ℕ → Cpu) (s : Sched) (port value vm : ℕ)
      → s.turn ≡ vm
      → kvm_run (pair guest1_a guest2_a vm) (upper vm) n (cpu vm)
        ≡ some (wrote port value (upper vm), after_out value)
      → printed (n ∷ ns) cpu s
        ≡ out_lines (vm_fd vm) port (value + 65536 * upper vm)
          ++ printed ns (set_cpu cpu vm (after_out value)) (passed (wrote port value (upper vm)) s)
  printed-wrote n ns cpu s port value vm e =
      subst
        (λ v.
          kvm_run (pair guest1_a guest2_a v) (upper v) n (cpu v)
            ≡ some (wrote port value (upper v), after_out value)
          → printed (n ∷ ns) cpu s
            ≡ out_lines (vm_fd v) port (value + 65536 * upper v)
              ++ printed ns (set_cpu cpu v (after_out value))
                  (passed (wrote port value (upper v)) s))
        e
        (λ runs.
          rw
            (returns-again OnIo.round (pair guest1_a guest2_a) upper n ns cpu s runs
              (OnIo.round-go_on (exit_of (wrote port value (upper s.turn))) s refl refl))
            (output-wrote port value (upper s.turn) s _))

  next-even :
      (i : ℕ) (cpu : ℕ → Cpu) (s : Sched) (r : Return)
      → i % 2 ≡ 0
      → r.reason ≡ exit_io
      → IsAtRun i cpu s
      → IsAtRun (suc i) (set_cpu cpu 0 (after_out (up (i / 2)))) (passed r s)
  next-even i cpu s r even io at =
      let e : (suc i + 1) / 2 ≡ i / 2 + 1 = omega arith in
      record {
        turn_eq = ground arith;
        first = inr (refl, omega (arith, e));
        second = subst (λ k. WritesNext2 (cpu 1) (down k)) (omega arith) at.second;
      }

  next-odd :
      (i : ℕ) (cpu : ℕ → Cpu) (s : Sched) (r : Return)
      → i % 2 ≡ 1
      → r.reason ≡ exit_io
      → IsAtRun i cpu s
      → IsAtRun (suc i) (set_cpu cpu 1 (after_out (down (i / 2)))) (passed r s)
  next-odd i cpu s r odd io at =
      let e : suc i / 2 ≡ i / 2 + 1 = omega arith in
      record {
        turn_eq = ground arith;
        first = subst (λ k. WritesNext1 (cpu 0) (up k)) (omega arith) at.first;
        second = inr (refl, omega (arith, e));
      }

  printed-IsAtRun :
      (ns : List ℕ) (i : ℕ) (cpu : ℕ → Cpu) (s : Sched)
      → IsAtRun i cpu s
      → AllRoomy ns
      → printed ns cpu s ≡ expected_from i ns
  printed-IsAtRun [] i cpu s at roomy = unfold output returns in refl
  printed-IsAtRun (suc (suc (suc n)) ∷ ns) i cpu s at roomy = elim (even-or-odd i) [
    | inl even ↦
        let now : WritesNext1 (cpu 0) (up (i / 2)) =
          subst (λ k. WritesNext1 (cpu 0) (up k)) (omega arith) at.first in
        let wrote = wrote 0x10 (up (i / 2)) (upper 0) in
        printed-wrote (suc (suc (suc n))) ns cpu s 0x10 (up (i / 2)) 0 (at.turn_eq ∙ even)
          (kvm_run-guest1_a (upper 0) n (cpu 0) (up (i / 2)) now)
        ∙ rw even (
            ap (λ l. out_lines (vm_fd 0) 0x10 (up (i / 2) + 65536 * upper 0) ++ l)
              (printed-IsAtRun ns (suc i) _ (passed wrote s) (next-even i cpu s wrote even refl at)
                roomy.1))
    | inr odd ↦
        let wrote = wrote 0x11 (down (i / 2)) (upper 1) in
        printed-wrote (suc (suc (suc n))) ns cpu s 0x11 (down (i / 2)) 1 (at.turn_eq ∙ odd)
          (kvm_run-guest2_a (upper 1) n (cpu 1) (down (i / 2)) at.second)
        ∙ rw odd (
            ap (λ l. out_lines (vm_fd 1) 0x11 (down (i / 2) + 65536 * upper 1) ++ l)
              (printed-IsAtRun ns (suc i) _ (passed wrote s) (next-odd i cpu s wrote odd refl at)
                roomy.1))
  ]
  printed-IsAtRun (suc (suc zero) ∷ ns) i cpu s at roomy = absurd (omega (arith, roomy.0))
  printed-IsAtRun (suc zero ∷ ns) i cpu s at roomy = absurd (omega (arith, roomy.0))
  printed-IsAtRun (zero ∷ ns) i cpu s at roomy = absurd (omega (arith, roomy.0))

  -- matrix-a.c with its two guests, from their first instructions on, where no signal ends a KVM_RUN
  -- before its guest has executed three instructions: each KVM_RUN ends at an OUT, the guests take
  -- turns, and the program prints the numbers 0, 1, 2, … of the first guest on port 0x10 and
  -- 0, 65535, 65534, … of the second on port 0x11, both modulo 2^16 and with what else stands in the
  -- four bytes that it reads.
  pub output-guests :
      (ns : List ℕ) (reasons : ℕ → ExitReason)
      → AllRoomy ns
      → let s = start reasons in
        MatrixA.output vm_fd (returns OnIo.round (pair guest1_a guest2_a) upper ns loaded s) s
        ≡ expected_from 0 ns
  output-guests ns reasons roomy =
      printed-IsAtRun ns 0 loaded (start reasons)
        (record { turn_eq = refl; first = inl (refl, refl); second = inl (refl, refl) }) roomy
