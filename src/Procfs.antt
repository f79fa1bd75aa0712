-- ===== src/Procfs.antt =====
-- `Linux Internals Exploration/3`: hello_procfs.c and get_pgfaults.c, two modules that each add a
-- file to /proc.
use advance_virtualization_a.Prelude.{
  ℕ, ◌<◌, ◌≡◌, refl, Bool, true, false, Option, none, some, List, [], ◌∷◌, ◌++◌, codes, arith,
  if◌then◌else◌,
}
use advance_virtualization_a.Memory.Decimal.{digits, read_digits, read_digits-digits}
use advance_virtualization_a.Memory.Atoi.{AllDigits, digits-AllDigits}

-- What the modules log.
pub data Message : Type 0 where
  hello_loaded hello_unloaded pgfaults_loaded pgfaults_unloaded : Message

-- The log, and whether the files `hello_procfs` and `get_pgfaults_procfs` stand in /proc.
pub record Proc : Type 0 where
  pub log : List Message
  pub hello_procfs : Bool
  pub get_pgfaults_procfs : Bool

abbrev pub printk : Message → Proc → Proc
printk m p = record p { log = p.log ++ m ∷ [] }

-- The `…_init` functions, given whether `proc_create` makes the file; they return 0 all the same.
unfoldable pub hello_procfs_init : Bool → Proc → ℕ × Proc
hello_procfs_init made p =
    let p' = printk hello_loaded p in (0, if made then record p' { hello_procfs = true } else p')

unfoldable pub get_pgfaults_procfs_init : Bool → Proc → ℕ × Proc
get_pgfaults_procfs_init made p =
    let p' = printk pgfaults_loaded p in
    (0, if made then record p' { get_pgfaults_procfs = true } else p')

-- `remove_proc_entry` and the message.
unfoldable pub hello_procfs_exit : Proc → Proc
hello_procfs_exit p = printk hello_unloaded (record p { hello_procfs = false })

unfoldable pub get_pgfaults_procfs_exit : Proc → Proc
get_pgfaults_procfs_exit p = printk pgfaults_unloaded (record p { get_pgfaults_procfs = false })

-- What the `…_show` functions print. `events` is what `all_vm_events` brings, and `pgfault` the
-- kernel's number of the event PGFAULT; `%lu` has at most twenty digits.
unfoldable pub hello_world_show : List ℕ
hello_world_show = codes "Hello World!\n"

unfoldable pub get_pgfaults_procfs_show : (ℕ → ℕ) → ℕ → List ℕ
unfolding digits
get_pgfaults_procfs_show events pgfault = digits 20 (events pgfault) ++ codes "\n"

-- What a reader of /proc/get_pgfaults_procfs sees: the text where the file stands there.
unfoldable pub cat_pgfaults : (ℕ → ℕ) → ℕ → Proc → Option (List ℕ)
unfolding get_pgfaults_procfs_show
cat_pgfaults events pgfault p =
    if p.get_pgfaults_procfs then some (get_pgfaults_procfs_show events pgfault) else none

-- Once the module is loaded and its file made, the text read from the file is one line of decimal
-- digits, and the number that they name is the kernel's 64-bit count of page faults; once it is unloaded,
-- there is no such file.
pub cat_pgfaults-reads_back :
    (events : ℕ → ℕ) (pgfault : ℕ) (p : Proc)
    → events pgfault < 18446744073709551616
    → ((line : List ℕ) × (cat_pgfaults events pgfault (get_pgfaults_procfs_init true p).1
          ≡ some (line ++ codes "\n"))
        × AllDigits line
        × (read_digits 0 line ≡ events pgfault))
      × (cat_pgfaults events pgfault (get_pgfaults_procfs_exit (get_pgfaults_procfs_init true p).1)
          ≡ none)
unfolding cat_pgfaults get_pgfaults_procfs_init get_pgfaults_procfs_exit get_pgfaults_procfs_show
cat_pgfaults-reads_back events pgfault p lt = (
  (
    digits 20 (events pgfault),
    refl,
    digits-AllDigits 20 (events pgfault),
    read_digits-digits 20 (events pgfault) (omega arith) (omega arith),
  ),
  refl,
)
