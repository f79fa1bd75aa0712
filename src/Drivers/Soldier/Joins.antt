-- ===== src/Drivers/Soldier/Joins.antt =====
-- soldier.c with the driver of doom.c: what one run does to the links between tasks.
use advance_virtualization_a.Prelude.{
  ℕ, ◌<◌, ◌≡◌, refl, true, false, Option, some, List, [], ◌∷◌, ◌++◌, ℤ, pos, negsuc, is_negative,
}
use advance_virtualization_a.Memory.Decimal.{show_u32}
use advance_virtualization_a.Drivers.Reparent.{
  Family, returned, update, send_sigchld_signal, my_ioctl,
}
use advance_virtualization_a.Drivers.Reparent.Links.{IsLinked, my_ioctl-reparents}
use advance_virtualization_a.Drivers.Soldier.{
  Line, could_not_open, exited, open_driver, test_descriptor, close_driver, Device, with_parent,
  main,
}
use advance_virtualization_a.Memory.Atoi.{atoi, atoi-show_u32}

-- The kernel passes an `ioctl` on a descriptor of the device to the driver, whose
-- `copy_from_user` finds the structure on the caller's stack; on a descriptor that is not open it
-- returns EBADF.
pub record IsDoom (pid_task : ℤ → Option ℕ) (current : ℕ) (opened : ℤ) (device : Device)
    : Type 0 where
  pub reaches :
      (pid : ℤ) (f : Family)
      → is_negative opened ≡ false
      → device opened pid f ≡ my_ioctl pid_task current (send_sigchld_signal (some pid)) f
  pub bad_descriptor :
      (n : ℕ) (pid : ℤ) (f : Family) → (ret : ℕ) × (device (negsuc n) pid f ≡ returned ret f)

module _ (pid_task : ℤ → Option ℕ) (current : ℕ) (opened closed : ℤ) (device : Device)
    (doom : IsDoom pid_task current opened device) (f : Family) where
  -- Started with the process id of its control station, an `int`, in the decimal text in which the station
  -- prints it, a soldier whose driver opens, which is not traced and stands in a list, where each
  -- task in a list stands once, among the children of its real parent, exits with 0 and is then
  -- the last child of the station; no other task has another parent, and each task in a list
  -- still stands once, among the children of its real parent.
  pub main-joins_station :
      (pid station : ℕ)
      → pid < 2147483648
      → is_negative opened ≡ false
      → pid_task (pos pid) ≡ some station
      → IsLinked f
      → f.in_list current ≡ true
      → f.parent current ≡ f.real_parent current
      → (lines : List Line) × (f' : Family) × (main device opened closed (show_u32 pid ∷ []) f
          ≡ exited 0 lines f')
        × IsLinked f'
        × (f'.parent ≡ update f.parent current station)
        × (f'.real_parent ≡ update f.real_parent current station)
        × ((earlier : List ℕ) × (f'.children station ≡ earlier ++ current ∷ []))
  unfolding main with_parent
  main-joins_station pid station lt ok found linked in_list same =
      let (f', runs, linked', parents, real_parents, _, last) =
        my_ioctl-reparents pid_task current (pos pid) station f found linked in_list same in
      (
        ((open_driver opened).0 ++ test_descriptor opened) ++ close_driver closed,
        f',
        rw (atoi-show_u32 pid lt, doom.reaches (pos pid) f ok, runs) refl,
        linked',
        parents,
        real_parents,
        last,
      )

  -- With one argument, which names an `int`, and where the driver cannot be opened (`open` returns -1), the soldier
  -- exits with 0 all the same and has changed no link: the test of the descriptor prints nothing,
  -- and only the texts of `perror` tell.
  pub main-not_opened :
      (arg : List ℕ) {parent_pid : ℤ}
      → atoi arg ≡ some parent_pid
      → main device (negsuc 0) closed (arg ∷ []) f
        ≡ exited 0 (could_not_open ∷ close_driver closed) f
  unfolding main with_parent
  main-not_opened arg {parent_pid} number =
      rw number (rw (doom.bad_descriptor 0 parent_pid f).1 refl)
