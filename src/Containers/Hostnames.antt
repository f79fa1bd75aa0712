-- ===== src/Containers/Hostnames.antt =====
-- Which host names the processes of `namespace_prog.c` see, where it prints them, and which processes
-- it leaves.
use advance_virtualization_a.Prelude.{
  ℕ, ◌<◌, ◌≡◌, refl, ap, Bool, true, false, some, List, [], ◌∷◌, length, if◌then◌else◌, arith, ◌==◌,
}
use advance_virtualization_a.Containers.Namespaces.{
  Kernel, Line, parent_is, child1_is, child2_is, exited, print_parent, child_function,
  child2_function, printf, flushed, main, wait, first_to_end, kill,
}
use advance_virtualization_a.Containers.Documented.{Documented}
use advance_virtualization_a.Containers.Children.{
  new_name, gethostname-Sees, ne-absent, first_child, second_child, ended-Sees, remaining,
}

-- What is written. On a terminal the five lines stand in the order in which they are printed. In a
-- file or a pipe, the first child's line is lost with its buffer when it is killed, and the second
-- child writes its copy of the parent's two lines.
abbrev pub expected : Bool → Line → Line → Line → Line → Line → List Line
expected tty p₁ c₁ p₂ c₂ p₃ =
    if tty then p₁ ∷ c₁ ∷ p₂ ∷ c₂ ∷ p₃ ∷ [] else p₁ ∷ p₂ ∷ c₂ ∷ p₁ ∷ p₂ ∷ p₃ ∷ []

-- The three processes write what is expected, whatever their lines are.
written-expected :
    (tty : Bool) (p₁ c₁ p₂ c₂ p₃ : Line)
    → let o₁ = printf tty p₁ (record { written = []; buffer = [] }) in
      let o₂ = printf tty p₂ (record o₁ { written = (printf tty c₁ o₁).written }) in
      flushed (printf tty p₃ (record o₂ { written = flushed (printf tty c₂ o₂) }))
      ≡ expected tty p₁ c₁ p₂ c₂ p₃
unfolding printf flushed
written-expected true p₁ c₁ p₂ c₂ p₃ = refl
written-expected false p₁ c₁ p₂ c₂ p₃ = refl

module _ {S : Type 0} (k : Kernel S) (laws : Documented k) where
  -- On a kernel where each call succeeds as documented, and where the parent's host name has fewer
  -- than 32 bytes, the program exits with 0. The two children, and only they, see the new host name,
  -- and what is written is as expected of a terminal or of a file. The processes that remain are those
  -- that there were before.
  pub main-hostnames :
      (tty : Bool) (parent : ℕ) (s : S)
      → k.exists parent s ≡ true
      → length (k.name_of (k.uts parent s) s) < 32
      → let old = some (k.name_of (k.uts parent s) s) in
        (p₁ c₁ p₂ c₂ p₃ : ℕ) × (s' : S) × (main k tty true true parent s
          ≡ exited 0
              (expected tty
                (parent_is p₁ old)
                (child1_is c₁ (some new_name))
                (parent_is p₂ old)
                (child2_is c₂ (some new_name))
                (parent_is p₃ old))
              s')
        × ((q : ℕ) → k.exists q s' ≡ k.exists q s)
  unfolding main child_function child2_function print_parent printf flushed wait first_to_end kill
  main-hostnames tty parent s alive short =
      let n = first_child k laws parent s alive in
      let m = second_child k laws parent n.child n.renamed in
      let fd = k.pidfd_open n.child n.renamed in
      let s₃ = k.setns_newpid parent fd n.renamed in
      let s₅ = k.setns_newuts m.child fd m.forked in
      let s₇ = k.ended n.child (k.ended m.child s₅) in
      let (sees₃, sees₅) = m.joins parent _ n.sees_old in
      let sees₇ =
        ended-Sees k laws (ended-Sees k laws sees₅ (ne-absent k n.sees_old.lives m.absent))
          (ne-absent k alive n.absent) in
      let itself : (n.child == n.child) ≡ true = ground arith in
      let new_short : length new_name < 32 = omega arith in
      let first = gethostname-Sees k short (record { lives = alive; named = refl }) in
      let second = gethostname-Sees k new_short n.sees_new in
      let third = gethostname-Sees k short sees₃ in
      let fourth = gethostname-Sees k new_short (m.sees_joined _ n.sees_new) in
      let fifth = gethostname-Sees k short sees₇ in
      (
        k.getpid parent s,
        k.getpid n.child n.renamed,
        k.getpid parent s₃,
        k.getpid m.child s₅,
        k.getpid parent s₇,
        s₇,
        rw n.clones (
            rw n.renames (
              rw m.forks (
                rw (first, second, third, fourth, itself, fifth)
                  (ap (λ w. exited 0 w s₇) (written-expected tty _ _ _ _ _))))),
        λ q. remaining k laws n.child m.child q s n.renamed s₅ n.absent m.absent n.others m.others,
      )
