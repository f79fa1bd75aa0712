-- ===== src/Drivers/Station.antt =====
-- `Linux Internals Exploration/2_II/control_station.c`: the process that the soldiers become
-- children of, and its handler of SIGCHLD.
pub mod Reaping
use advance_virtualization_a.Prelude.{
  ℕ, ◌≡◌, true, false, Bool, List, [], ◌∷◌, ◌++◌, ℤ, pos, negsuc, same_int, if◌then◌else◌,
}

-- What the program prints: two lines on stdout, and the text of `perror`.
pub data Line : Type 0 where
  started : ℕ → Line
  terminated : ℤ → Line
  failed : Line

-- The program runs, or has ended with `exit(1)`; and what it has printed.
pub record Process : Type 0 where
  pub running : Bool
  pub lines : List Line

abbrev pub prints : Line → Process → Process
prints line p = record p { lines = p.lines ++ line ∷ [] }

abbrev pub exit_1 : Process → Process
exit_1 p = record p { running = false }

-- `sigchld_handler`, given the result of `wait`.
unfoldable pub sigchld_handler : ℤ → Process → Process
sigchld_handler soldier_pid p =
    if same_int soldier_pid (negsuc 0)
    then exit_1 (prints failed p)
    else prints (terminated soldier_pid) p

-- `main` up to its loop, given the result of `sigaction` and the process id; the loop only sleeps.
unfoldable pub main : ℤ → ℕ → Process
main result pid =
    let p : Process = record { running = true; lines = [] } in
    if same_int result (negsuc 0) then exit_1 (prints failed p) else prints (started pid) p

-- The station with what the kernel keeps for it: its children that live, those that have died and
-- that no `wait` has returned yet, and whether SIGCHLD is pending. Beside them, all that have died.
pub record Station : Type 0 where
  pub process : Process
  pub alive : List ℕ
  pub zombies : List ℕ
  pub pending : Bool
  pub died : List ℕ

-- What `wait` returns and leaves of the dead children: one of them, or -1 where the caller has no
-- child at all. Where it has only living ones it does not return.
pub data Wait (s : Station) : ℤ → List ℕ → Type 0 where
  reaps :
      (pid : ℕ) (before after : List ℕ)
      → s.zombies ≡ before ++ pid ∷ after
      → Wait s (pos pid) (before ++ after)
  no_child : s.zombies ≡ [] → s.alive ≡ [] → Wait s (negsuc 0) []

-- A soldier joins or dies, or the handler runs. SIGCHLD is no queue: a second one that comes while
-- one is pending is lost. Only deaths send it here, not stops.
pub data Step (s : Station) : Station → Type 0 where
  joins : (pid : ℕ) → Step s (record s { alive = s.alive ++ pid ∷ [] })
  dies :
      (pid : ℕ) (before after : List ℕ)
      → s.alive ≡ before ++ pid ∷ after
      → Step s (record s {
        alive = before ++ after;
        zombies = s.zombies ++ pid ∷ [];
        pending = true;
        died = s.died ++ pid ∷ [];
      })
  handles :
      {result : ℤ} {rest : List ℕ}
      → s.process.running ≡ true
      → s.pending ≡ true
      → Wait s result rest
      → Step s
          (record s { process = sigchld_handler result s.process; zombies = rest; pending = false })

-- The station once `main` has come to its loop.
abbrev pub at_loop : ℕ → Station
at_loop pid = record {
  process = main (pos 0) pid;
  alive = [];
  zombies = [];
  pending = false;
  died = [];
}

pub data Reach (pid : ℕ) : Station → Type 0 where
  start : Reach pid (at_loop pid)
  later : {s t : Station} → Reach pid s → Step s t → Reach pid t
