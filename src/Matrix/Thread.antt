-- ===== src/Matrix/Thread.antt =====
-- `kvm_cpu_thread`, the loop over one guest from which the loops of `kvm_run_vm` were made, and
-- what these keep of it.
use advance_virtualization_a.Prelude.{
  ◌⊎◌, inl, inr, ◌≡◌, false, not, ◌&&◌, arith, if◌then◌else◌, ◌≢◌,
}
use advance_virtualization_a.SimpleKvm.{exit_io}
use advance_virtualization_a.Matrix.Sched.{
  Sched, KvmExit, set_reason, goes_on, is_intr, Round, again, exit_kvm, exit_1,
}
use advance_virtualization_a.Matrix.Quota
use advance_virtualization_a.Matrix.Alternate
use advance_virtualization_a.Matrix.OnIo

-- One round of the loop, for the guest `s.turn`.
unfoldable pub thread_round : KvmExit → Sched → Round
thread_round e s =
    let s' = set_reason s e.reason in
    if not (goes_on e.reason)
    then exit_kvm s'
    else (if e.failed && not (is_intr (s'.reasons s'.turn)) then exit_1 else again s')

-- The two rounds end in the same way: both go on, both leave the loop, or both end the program.
abbrev pub EndAlike : Round → Round → Type 0
EndAlike (again _) (again _) = Unit
EndAlike (exit_kvm _) (exit_kvm _) = Unit
EndAlike exit_1 exit_1 = Unit
EndAlike _ _ = ⊥

-- matrix.c and matrix-b.c end a round as `kvm_cpu_thread` does, whatever KVM_RUN brings.
pub rounds-EndAlike :
    (e : KvmExit) (s : Sched)
    → EndAlike (thread_round e s) (Quota.round e s)
      × EndAlike (thread_round e s) (Alternate.round e s)
unfolding thread_round Quota.round Alternate.round
rounds-EndAlike e s = (ground arith, ground arith)

-- matrix-a.c ends a round as `kvm_cpu_thread` does, but for a failed KVM_RUN with an I/O exit.
pub on_io_round-EndAlike :
    (e : KvmExit) (s : Sched)
    → (e.failed ≡ false) ⊎ (e.reason ≢ exit_io)
    → EndAlike (thread_round e s) (OnIo.round e s)
unfolding thread_round OnIo.round
on_io_round-EndAlike e s (inl ok) = ground arith
on_io_round-EndAlike e s (inr other) = ground arith
