-- ===== src/Matrix/Output/Started.antt =====
-- The lines `started running` tell which guests ran.
use advance_virtualization_a.Prelude.{Bool, List, [], ◌∷◌, ◌++◌, map, ℤ, ℕ}
use advance_virtualization_a.Matrix.Sched.{Sched, KvmExit, Round, again, exit_kvm, exit_1, chosen}
use advance_virtualization_a.Matrix.Output.{Line, started, Return, exit_of, output}

abbrev started_once : Line → List ℤ
started_once (started fd) = fd ∷ []
started_once _ = []

-- The descriptors that the lines `started running` name.
abbrev pub started_fds : List Line → List ℤ
started_fds [] = []
started_fds (line ∷ lines) = started_once line ++ started_fds lines

module _ (timed : Bool) (round : KvmExit → Sched → Round) (at_test : KvmExit → Sched → Sched)
    (vm_fd : ℕ → ℤ) where
  -- The rest of the loop, and of the choice.
  abbrev rest : List Return → Round → List Line
  rest rs x = elim x [
    | again s ↦ output timed round at_test vm_fd rs s
    | exit_kvm _ ↦ []
    | exit_1 ↦ []
  ]

  abbrev chosen_rest : List Return → Round → List ℕ
  chosen_rest rs x = elim x [
    | again s ↦ chosen round (map exit_of rs) s
    | exit_kvm _ ↦ []
    | exit_1 ↦ []
  ]
