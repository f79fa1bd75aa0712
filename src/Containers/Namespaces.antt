-- ===== src/Containers/Namespaces.antt =====
-- `Containerization/task1/namespace_prog.c`: the parent, a child with namespaces of its own, and a
-- second child that joins them. The pipe makes the parent wait for the first child's line, and the
-- two calls of `wait` for the ends of both children, so the steps of the three stand in one order.
use advance_virtualization_a.Prelude.{
  ℕ, Bool, true, false, Option, none, some, List, [], ◌∷◌, ◌++◌, ℤ, if◌then◌else◌, codes, ltb,
  length, not, ◌==◌,
}

-- The system calls, over the states of a kernel. Processes and UTS namespaces are named by numbers.
-- `ended` is the state once the parent has waited for a process that has ended.
pub record Kernel (S : Type 0) : Type 0 where
  pub exists : ℕ → S → Bool
  pub uts : ℕ → S → ℕ
  pub name_of : ℕ → S → List ℕ
  pub getpid : ℕ → S → ℕ
  pub sethostname : ℕ → List ℕ → S → Bool × S
  pub clone : ℕ → S → Option (ℕ × S)
  pub pidfd_open : ℕ → S → ℤ
  pub setns_newpid : ℕ → ℤ → S → S
  pub setns_newuts : ℕ → ℤ → S → S
  pub fork : ℕ → S → Option (ℕ × S)
  pub ended : ℕ → S → S

-- A process prints its PID and its host's name. Without a name, `gethostname` has filled the whole
-- buffer, and what `%s` prints is left open.
pub data Line : Type 0 where
  parent_is child1_is child2_is : ℕ → Option (List ℕ) → Line
  clone_failed : Line

-- The standard output of a process: what has been written, and what waits in its own buffer.
pub record Stdout : Type 0 where
  pub written : List Line
  pub buffer : List Line

-- On a terminal a line is written at once; elsewhere it waits in the buffer, which has room for all
-- lines of this program.
unfoldable pub printf : Bool → Line → Stdout → Stdout
printf tty line o =
    if tty
    then record o { written = o.written ++ line ∷ [] }
    else record o { buffer = o.buffer ++ line ∷ [] }

-- What has been written once a process with this output calls `exit`, or returns from `main`.
unfoldable pub flushed : Stdout → List Line
flushed o = o.written ++ o.buffer

-- A child that the parent has not waited for yet, and whether it has ended, or ends by itself.
pub record Child : Type 0 where
  pub pid : ℕ
  pub ends : Bool

-- The first child that ends, and the others.
unfoldable pub first_to_end : List Child → Option (ℕ × List Child)
first_to_end [] = none
first_to_end (c ∷ cs) =
    let rest = first_to_end cs in
    if c.ends
    then some (c.pid, cs)
    else elim rest [ none ↦ none | some (pid, others) ↦ some (pid, c ∷ others) ]

-- How a call of `wait` ends: with the children that are left to wait for; or it does not.
pub data Waited (S : Type 0) : Type 0 where
  waited : List Child → S → Waited S
  blocked : Waited S

-- `kill(child_pid, SIGKILL)`: the child with the number, if there is one, ends.
unfoldable pub kill : ℕ → List Child → List Child
kill pid [] = []
kill pid (c ∷ cs) =
    let rest = kill pid cs in (if c.pid == pid then record c { ends = true } else c) ∷ rest

-- How the program ends: with its exit status and what has been written; or a call of `wait` in it does
-- not.
pub data End (S : Type 0) : Type 0 where
  exited : ℕ → List Line → S → End S
  waits_forever : List Line → S → End S

module _ {S : Type 0} (k : Kernel S) where
  open k use {uts, name_of}

  -- `gethostname` into a buffer of 32 bytes, of which the last is for the NUL.
  unfoldable pub gethostname : ℕ → S → Option (List ℕ)
  gethostname process s =
      let name = name_of (uts process s) s in if ltb (length name) 32 then some name else none

module _ {S : Type 0} (k : Kernel S) (tty : Bool) where
  open k use {getpid, sethostname, clone, pidfd_open, setns_newpid, setns_newuts, fork, ended}

  -- One of the three blocks in which the parent prints.
  unfoldable pub print_parent : ℕ → S → Stdout → Stdout
  unfolding gethostname printf
  print_parent process s = printf tty (parent_is (getpid process s) (gethostname k process s))

  after_sethostname : ℕ → Stdout → Bool × S → Bool × List Line × S
  unfolding gethostname printf flushed
  after_sethostname child o (false, s) = (false, flushed o, s)
  after_sethostname child o (true, s) =
      (true, (printf tty (child1_is (getpid child s) (gethostname k child s)) o).written, s)

  -- The first child, which starts with a copy of its parent's output: whether it gets to its endless
  -- loop, what is written then, and the state. If `sethostname` fails, it exits.
  unfoldable pub child_function : ℕ → Stdout → S → Bool × List Line × S
  unfolding after_sethostname
  child_function child o s =
      after_sethostname child o (sethostname child (codes "Child1Hostname") s)

  unfoldable pub child2_function : ℕ → S → Stdout → Stdout
  unfolding gethostname printf
  child2_function child s = printf tty (child2_is (getpid child s) (gethostname k child s))

  -- The last lines of the parent, and `return 0`.
  last_lines : ℕ → Stdout → S → End S
  unfolding print_parent flushed
  last_lines parent o s = exited 0 (flushed (print_parent parent s o)) s

  -- `wait(NULL)`: for a child that ends, until one does; without children it returns at once.
  unfoldable pub wait : List Child → S → Waited S
  wait [] s = waited [] s
  wait (c ∷ cs) s = elim (first_to_end (c ∷ cs)) [
    | none ↦ blocked
    | some (pid, others) ↦ waited others (ended pid s)
  ]

  -- The parent behind the second `wait`.
  after_kill : ℕ → Stdout → S → Waited S → End S
  unfolding last_lines
  after_kill parent o s blocked = waits_forever o.written s
  after_kill parent o s (waited _ s') = last_lines parent o s'

  -- The parent behind the first `wait`: `kill` and the second one.
  after_wait : ℕ → ℕ → Stdout → S → Waited S → End S
  unfolding after_kill wait kill
  after_wait parent child o s blocked = waits_forever o.written s
  after_wait parent child o s (waited children s') =
      after_kill parent o s' (wait (kill child children) s')

  -- The program from `fork` on; without a second child, the first one is the only child.
  after_fork : ℕ → ℕ → ℤ → Bool → Stdout → S → Option (ℕ × S) → End S
  unfolding child2_function after_wait flushed wait
  after_fork parent child fd looping o s none =
      after_wait parent child o s (wait (record { pid = child; ends = not looping } ∷ []) s)
  after_fork parent child fd looping o s (some (child2, s₁)) =
      let s₂ = setns_newuts child2 fd s₁ in
      let o' = record o { written = flushed (child2_function child2 s₂ o) } in
      let first : Child = record { pid = child; ends = not looping } in
      let second : Child = record { pid = child2; ends = true } in
      after_wait parent child o' s₂ (wait (first ∷ second ∷ []) s₂)

  -- The program from the return of `read` on.
  after_read : ℕ → ℕ → Stdout → Bool × List Line × S → End S
  unfolding after_fork print_parent
  after_read parent child o (looping, written, s) =
      let fd = pidfd_open child s in
      let s₁ = setns_newpid parent fd s in
      after_fork parent child fd looping (print_parent parent s₁ (record o { written = written }))
        s₁ (fork parent s₁)

  after_clone : ℕ → Stdout → S → Option (ℕ × S) → End S
  unfolding after_read child_function printf flushed
  after_clone parent o s none = exited 0 (flushed (printf tty clone_failed o)) s
  after_clone parent o s (some (child, s₁)) = after_read parent child o (child_function child o s₁)

  -- `main`, given whether `pipe` and `malloc` succeed.
  unfoldable pub main : Bool → Bool → ℕ → S → End S
  unfolding after_clone print_parent
  main piped allocated parent s =
      if piped
      then (if allocated
          then (let o = print_parent parent s (record { written = []; buffer = [] }) in
              after_clone parent o s (clone parent s))
          else exited 1 [] s)
      else exited 1 [] s
