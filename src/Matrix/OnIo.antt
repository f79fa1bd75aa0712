-- ===== src/Matrix/OnIo.antt =====
-- matrix-a.c: the turn passes at each I/O exit.
use advance_virtualization_a.Prelude.{
  ℕ, suc, ◌+◌, ◌%◌, ◌<◌, ◌≡◌, ◌↔◌, ◌≢◌, refl, true, false, not, ◌&&◌, List, [], ◌∷◌, arith,
  if◌then◌else◌,
}
use advance_virtualization_a.SimpleKvm.{exit_intr, exit_io}
use advance_virtualization_a.Matrix.Sched.{
  Sched, KvmExit, set_reason, goes_on, is_intr, is_io, Round, again, exit_kvm, exit_1, running,
  run_loop,
}

-- `case KVM_EXIT_IO: … turn = (turn+1)%2;`
abbrev pub pass_turn : KvmExit → Sched → Sched
pass_turn e s = if is_io e.reason then record s { turn = (s.turn + 1) % 2 } else s

-- One round of the loop in `kvm_run_vm`. The test behind the `switch` reads the page of the guest
-- that `turn` names by then.
unfoldable pub round : KvmExit → Sched → Round
round e s =
    let s' = pass_turn e (set_reason s e.reason) in
    if not (goes_on e.reason)
    then exit_kvm s'
    else (if e.failed && not (is_intr (s'.reasons s'.turn)) then exit_1 else again s')

-- The exits of a guest that the `switch` goes on with, and where KVM_RUN did not fail.
abbrev pub AllGoOn : List KvmExit → Type 0
AllGoOn [] = Unit
AllGoOn (e ∷ es) = (e.failed ≡ false) × (goes_on e.reason ≡ true) × AllGoOn es

unfoldable pub io_exits : List KvmExit → ℕ
io_exits [] = 0
io_exits (e ∷ es) = if is_io e.reason then suc (io_exits es) else io_exits es

pub round-go_on :
    (e : KvmExit) (s : Sched)
    → e.failed ≡ false
    → goes_on e.reason ≡ true
    → round e s ≡ again (pass_turn e (set_reason s e.reason))
unfolding round
round-go_on e s f g = ground arith

-- From a turn below 2, and while the `switch` goes on and KVM_RUN does not fail, the guest to run
-- is the one that the number of I/O exits so far selects: only an I/O exit passes the turn on.
pub run_loop-io_exits :
    (es : List KvmExit) (s : Sched)
    → s.turn < 2
    → AllGoOn es
    → (s' : Sched) × (run_loop round es s ≡ running s') × (s'.turn ≡ (s.turn + io_exits es) % 2)
unfolding run_loop io_exits
run_loop-io_exits [] s lt all = (s, refl, omega arith)
run_loop-io_exits (e ∷ es) s lt all =
    let (s', runs, turn) =
      run_loop-io_exits es (pass_turn e (set_reason s e.reason)) (ground arith) all.2 in
    (s', rw (round-go_on e s all.0 all.1, run_loop) runs, ground arith)

-- With the turn at one of the two guests, a failed KVM_RUN whose page says I/O ends the program
-- exactly if the page of the other guest does not say INTR: the test reads the other guest's page,
-- since the turn has passed on.
pub round-failed_io_iff :
    (s : Sched)
    → s.turn < 2
    → (round (record { failed = true; reason = exit_io }) s ≡ exit_1)
      ↔ (s.reasons ((s.turn + 1) % 2) ≢ exit_intr)
unfolding round
round-failed_io_iff s lt = ground arith
