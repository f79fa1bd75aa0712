-- ===== src/Drivers/Soldier.antt =====
-- `Linux Internals Exploration/2_II/soldier.c`, the client of doom.c.
pub mod Joins
use advance_virtualization_a.Prelude.{
  Option, none, some, ℕ, ◌≡◌, refl, true, false, List, [], ◌∷◌, ◌++◌, ℤ, pos, negsuc, is_negative,
  same_int, if◌then◌else◌,
}
use advance_virtualization_a.Drivers.Reparent.{
  Family, Outcome, returned, null_access, corrupted_list,
}
use advance_virtualization_a.Memory.Atoi.{atoi}

-- What the program prints: `Usage`, the two texts of `perror`, and the one of its own test.
pub data Line : Type 0 where
  usage could_not_open error_opening could_not_close : Line

-- How the program ends: with an exit status, in a fault of the kernel within the driver, or, where its
-- argument is a number outside of `int`, as C leaves undefined.
pub data SoldierEnd : Type 0 where
  exited : ℕ → List Line → Family → SoldierEnd
  kernel_fault : SoldierEnd
  undefined_number : SoldierEnd

-- `open_driver`, given the result of `open`.
abbrev pub open_driver : ℤ → List Line × ℤ
open_driver fd_driver =
    (if same_int fd_driver (negsuc 0) then could_not_open ∷ [] else [], fd_driver)

-- `close_driver`, given the result of `close`.
abbrev pub close_driver : ℤ → List Line
close_driver result = if same_int result (negsuc 0) then could_not_close ∷ [] else []

-- `if(!device_fd)`
abbrev pub test_descriptor : ℤ → List Line
test_descriptor device_fd = if same_int device_fd (pos 0) then error_opening ∷ [] else []

after_ioctl : List Line → ℤ → Outcome → SoldierEnd
after_ioctl lines closed (returned ret f) = exited 0 (lines ++ close_driver closed) f
after_ioctl lines closed null_access = kernel_fault
after_ioctl lines closed corrupted_list = kernel_fault

-- What `ioctl` with IOCTL_SEND_SIGCHLD_SIGNAL does for a descriptor and `new_parent_process_id`.
abbrev pub Device : Type 0
Device = ℤ → ℤ → Family → Outcome

with_parent : Device → ℤ → ℤ → ℤ → Family → SoldierEnd
unfolding after_ioctl
with_parent device opened closed parent_pid f =
    let (lines, device_fd) = open_driver opened in
    after_ioctl (lines ++ test_descriptor device_fd) closed (device device_fd parent_pid f)

-- `parent_pid` is the result of `atoi`.
with_number : Device → ℤ → ℤ → Option ℤ → Family → SoldierEnd
unfolding with_parent
with_number device opened closed none f = undefined_number
with_number device opened closed (some parent_pid) f = with_parent device opened closed parent_pid f

-- `main`, given the results of `open` and `close` and the arguments behind the program's name.
unfoldable pub main : Device → ℤ → ℤ → List (List ℕ) → Family → SoldierEnd
unfolding with_number
main device opened closed [] f = exited 1 (usage ∷ []) f
main device opened closed (arg ∷ []) f = with_number device opened closed (atoi arg) f
main device opened closed (arg ∷ more ∷ args) f = exited 1 (usage ∷ []) f
