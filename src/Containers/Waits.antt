-- ===== src/Containers/Waits.antt =====
-- When `namespace_prog.c` waits for a process that never ends.
use native.Mathlib.Omega.{arith}
use advance_virtualization_a.Prelude.{
  ℕ, ◌≡◌, refl, ap, ◌↔◌, inl, inr, Bool, true, false, none, some, List, Bool-cases, Option-cases,
}
use advance_virtualization_a.Containers.Namespaces.{
  Kernel, Line, waits_forever, main, child_function, wait, first_to_end, kill,
}
use advance_virtualization_a.Containers.Children.{new_name}

module _ {S : Type 0} (k : Kernel S) (tty : Bool) where
  -- The parent waits forever exactly if the first child has been made and has named its namespace, and
  -- the second one cannot be made: the first call of `wait` is then for the first child, which is in
  -- its endless loop, and the `kill` behind it is never reached.
  pub main-waits_forever_iff :
      (piped allocated : Bool) (parent : ℕ) (s : S)
      → ((written : List Line) × (s' : S) × (main k tty piped allocated parent s
            ≡ waits_forever written s'))
        ↔ ((piped ≡ true)
            × (allocated ≡ true)
            × (child : ℕ) × (s₁ : S) × (s₂ : S) × (k.clone parent s ≡ some (child, s₁))
            × (k.sethostname child new_name s₁ ≡ (true, s₂))
            × (k.fork parent (k.setns_newpid parent (k.pidfd_open child s₂) s₂) ≡ none))
  unfolding main child_function wait first_to_end kill
  main-waits_forever_iff false allocated parent s = (λ h. cc, λ h. cc)
  main-waits_forever_iff true false parent s = (λ h. cc, λ h. cc)
  main-waits_forever_iff true true parent s = (
    λ (written, s', h). elim (Option-cases (k.clone parent s)) [
      | inl e ↦ ground arith
      | inr ((child, s₁), e) ↦
          let (named, s₂) = k.sethostname child new_name s₁ in
          let s₃ = k.setns_newpid parent (k.pidfd_open child s₂) s₂ in
          elim (Bool-cases named) [
            | inl is_named ↦ elim (Option-cases (k.fork parent s₃)) [
              | inl alone ↦ (refl, refl, child, s₁, s₂, e, ap (λ b. (b, s₂)) is_named, alone)
              | inr (_, forked) ↦ ground arith
            ]
            | inr not_named ↦ ground arith
          ]
    ],
    λ (_, _, child, s₁, s₂, clones, renames, forks). rw clones (rw renames (rw forks (_, _, refl))),
  )
