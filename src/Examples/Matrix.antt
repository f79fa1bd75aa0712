-- ===== src/Examples/Matrix.antt =====
-- matrix.c, matrix-a.c and matrix-b.c on concrete exits.
use advance_virtualization_a.Prelude.{◌≡◌, refl, false, [], ◌∷◌, arith, leb, if◌then◌else◌}
use advance_virtualization_a.SimpleKvm.{exit_io, exit_unknown}
use advance_virtualization_a.Matrix.Sched.{Sched, KvmExit, again, running, tick, run_loop}
use advance_virtualization_a.Matrix.Quota

abbrev at_start : Sched
at_start = record { turn = 0; count = 0; reasons = λ _. exit_unknown }

abbrev io : KvmExit
io = record { failed = false; reason = exit_io }

at_start-IsValid : Quota.IsValid at_start
at_start-IsValid = record { turn_lt = omega arith; count_lt = omega arith }

run_loop-tick_example :
    (s' : Sched) × (run_loop Quota.round (io ∷ io ∷ tick ∷ []) at_start ≡ running s')
    × (s'.count ≡ 3)
    × (s'.turn ≡ (if leb 7 s'.count then 1 else 0))
run_loop-tick_example =
    Quota.run_loop-tick (io ∷ io ∷ []) at_start at_start-IsValid
      ((refl, λ e. ground arith), ((refl, λ e. ground arith), tt))

ticked : (s' : Sched) × (Quota.round tick at_start ≡ again s')
unfolding Quota.round
ticked = (_, refl)
