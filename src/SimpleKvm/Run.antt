-- ===== src/SimpleKvm/Run.antt =====
-- `run_vm`: the loop over the exits of the guest, and the test of its results after HLT.
use advance_virtualization_a.Prelude.{
  ℕ, not, Option, none, some, List, [], ◌∷◌, ◌++◌, ◌==◌, if◌then◌else◌, codes,
}
use advance_virtualization_a.Memory.{Bytes, of_le_bytes, read_ram}
use advance_virtualization_a.Memory.Decimal.{show_i64}
use advance_virtualization_a.SimpleKvm.State.{
  KvmRun, KvmEnv, Host, resume, halted, exit_failure, out_of_bounds,
}
use advance_virtualization_a.SimpleKvm.Exits.{print, handle_exit}

-- How `ioctl(vcpu_fd, KVM_RUN, 0)` comes back: with the bytes that the guest has left in its memory,
-- and the page that the kernel has filled in.
pub data RunResult : Type 0 where
  run_failed : RunResult
  exited : Bytes → KvmRun → RunResult

-- How `run_vm` ends: it returns a number, calls `exit(1)`, or accesses memory outside of the
-- guest's. `pending` is a guest that runs on after the given exits.
pub data RunOutcome : Type 0 where
  pending : Host → RunOutcome
  returned : ℕ → Host → RunOutcome
  exit_1 : Host → RunOutcome
  undefined : RunOutcome

wrong_text : List ℕ → ℕ → List ℕ
wrong_text what value =
    codes "Wrong result: " ++ (what ++ (codes " is " ++ (show_i64 value ++ codes "\n")))

check_memory : Host → Option (List ℕ) → RunOutcome
unfolding wrong_text
check_memory h none = undefined
check_memory h (some bytes) =
    let memval = of_le_bytes bytes in
    if not (memval == 42)
    then returned 0 (print (wrong_text (codes "memory at 0x400") memval) h)
    else returned 1 h

-- The code at `check:`. `regs` is `none` where KVM_GET_REGS fails, and else the value of `rax`;
-- `sz` is the number of bytes that are compared.
unfoldable pub check_result : Option ℕ → ℕ → Host → RunOutcome
unfolding check_memory wrong_text
check_result none sz h = exit_1 h
check_result (some rax) sz h =
    if not (rax == 42)
    then returned 0 (print (wrong_text (codes "{E,R,}AX") rax) h)
    else check_memory h (read_ram h.mem 0x400 sz)

-- The memory that the guest has left.
abbrev pub with_bytes : Bytes → Host → Host
with_bytes bytes h = record h { mem = record (h.mem) { bytes = bytes } }

module _ (env : KvmEnv) (regs : Option ℕ) (sz : ℕ) where
  -- `run_vm`, given how each KVM_RUN comes back.
  unfoldable pub run_vm : List RunResult → Host → RunOutcome
  run_vm [] h = pending h
  run_vm (run_failed ∷ results) h = exit_1 h
  run_vm (exited bytes run ∷ results) h = elim (handle_exit env run (with_bytes bytes h)) [
    | resume h' _ ↦ run_vm results h'
    | halted h' ↦ check_result regs sz h'
    | exit_failure h' ↦ exit_1 h'
    | out_of_bounds ↦ undefined
  ]
