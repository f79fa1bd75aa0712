-- ===== src/Examples/Clients.antt =====
-- The soldier with its control station, the file in /proc, and a binary read from a file.
use advance_virtualization_a.Prelude.{
  ℕ, zero, suc, ◌≤◌, ◌≡◌, refl, true, false, some, none, List, [], ◌∷◌, ◌++◌, arith, ℤ, pos, negsuc,
  codes, length,
}
use advance_virtualization_a.Memory.{Ram, write_ram}
use advance_virtualization_a.Memory.Decimal.{show_u32}
use advance_virtualization_a.Memory.Atoi.{AllDigits}
use advance_virtualization_a.Memory.Decimal.{read_digits}
use advance_virtualization_a.Drivers.Reparent.{
  Family, returned, update, send_sigchld_signal, my_ioctl,
}
use advance_virtualization_a.Drivers.Reparent.Links.{IsLinked}
use advance_virtualization_a.Drivers.Soldier
use advance_virtualization_a.Drivers.Soldier.{could_not_open, could_not_close, exited, Device}
use advance_virtualization_a.Drivers.Soldier.Joins.{IsDoom, main-joins_station}
use advance_virtualization_a.Drivers.Station
use advance_virtualization_a.Drivers.Station.{
  Step, Station, started, terminated, Reach, start, later, joins, dies, handles, reaps,
}
use advance_virtualization_a.Drivers.Station.Reaping.{IsReaping, Reach-IsReaping, Reach-unreported}
use advance_virtualization_a.Procfs.{
  Proc, cat_pgfaults, get_pgfaults_procfs_init, get_pgfaults_procfs_exit, cat_pgfaults-reads_back,
}
use advance_virtualization_a.Matrix.Load.Loop.{
  load_loop, load_sizes, sum, AllBlocks, IsReader, end_of, load_loop-ends,
}
use advance_virtualization_a.Examples.Drivers.{family, pid_task, linked}

-- The driver behind an open descriptor, and EBADF behind any other.
abbrev device : Device
device (pos _) pid f = my_ioctl pid_task 7 (send_sigchld_signal (some pid)) f
device (negsuc _) pid f = returned 9 f

device-IsDoom : (fd : ℤ) → IsDoom pid_task 7 fd device
device-IsDoom (pos n) = record { reaches = λ pid f ok. refl; bad_descriptor = λ n pid f. (9, refl) }
device-IsDoom (negsuc n) = record {
  reaches = λ pid f ok. ground arith;
  bad_descriptor = λ n pid f. (9, refl);
}

main-joins_station_example :
    (lines : List Soldier.Line) × (f' : Family) × (Soldier.main device
        (pos 3)
        (pos 0)
        (show_u32 1234 ∷ [])
        family
      ≡ exited 0 lines f')
    × IsLinked f'
    × (f'.parent ≡ update family.parent 7 1234)
    × (f'.real_parent ≡ update family.real_parent 7 1234)
    × ((earlier : List ℕ) × (f'.children 1234 ≡ earlier ++ 7 ∷ []))
main-joins_station_example =
    main-joins_station pid_task 7 (pos 3) (pos 0) device (device-IsDoom (pos 3)) family 1234 1234
      (omega arith) refl refl linked refl refl

-- Two soldiers join, the second dies, and is waited for.
one_dies : (s : Station) × Reach 100 s × (s.alive ≡ 8 ∷ []) × (s.died ≡ 9 ∷ [])
unfolding Station.main
one_dies =
    let both = later (later start (joins 8)) (joins 9) in
    let dead = later both (dies 9 (8 ∷ []) [] refl) in
    (_, later dead (handles refl refl (reaps 9 [] [] refl)), refl, refl)

Reach-IsReaping_example : IsReaping one_dies.0
Reach-IsReaping_example = Reach-IsReaping 100 one_dies.1

Reach-unreported_example :
    (s : Station) × Reach 100 s
    × (s.died ≡ 8 ∷ 9 ∷ 10 ∷ [])
    × (s.process.lines ≡ started 100 ∷ terminated (pos 8) ∷ [])
    × (s.zombies ≡ 9 ∷ 10 ∷ [])
    × (s.pending ≡ false)
Reach-unreported_example = Reach-unreported 100 8 (9 ∷ 10 ∷ [])

abbrev proc : Proc
proc = record { log = []; hello_procfs = false; get_pgfaults_procfs = false }

cat_pgfaults-reads_back_example :
    ((line : List ℕ) × (cat_pgfaults (λ _. 9876543210) 30 (get_pgfaults_procfs_init true proc).1
        ≡ some (line ++ codes "\n"))
      × AllDigits line
      × (read_digits 0 line ≡ 9876543210))
    × (cat_pgfaults
          (λ _. 9876543210)
          30
          (get_pgfaults_procfs_exit (get_pgfaults_procfs_init true proc).1)
        ≡ none)
cat_pgfaults-reads_back_example = cat_pgfaults-reads_back (λ _. 9876543210) 30 proc (omega arith)

-- A `read` that brings one byte at a time.
abbrev byte_at : List ℕ → ℕ → List ℕ
byte_at [] p = []
byte_at (byte ∷ bytes) zero = byte ∷ []
byte_at (byte ∷ bytes) (suc p) = byte_at bytes p

byte_at-end : (file : List ℕ) (p : ℕ) → length file ≤ p → byte_at file p ≡ []
byte_at-end [] p le = refl
byte_at-end (byte ∷ bytes) zero le = absurd (omega arith)
byte_at-end (byte ∷ bytes) (suc p) le = byte_at-end bytes p (omega arith)

byte_at-middle :
    (before rest : List ℕ) (byte : ℕ) → byte_at (before ++ byte ∷ rest) (length before) ≡ byte ∷ []
byte_at-middle [] rest byte = refl
byte_at-middle (b ∷ before) rest byte = byte_at-middle before rest byte

byte_at-IsReader : (file : List ℕ) → IsReader file (byte_at file)
byte_at-IsReader file = record {
  at_end = byte_at-end file;
  before_end =
      λ before rest byte e. ([], rest, rw e (byte_at-middle before rest byte), omega arith, refl);
}

abbrev file : List ℕ
file = 5 ∷ 6 ∷ 7 ∷ []

abbrev ram : Ram
ram = record { size = 4096; bytes = λ _. 0xFF }

load_loop-ends_example :
    (load_loop 4 (byte_at file) 0 ram ≡ end_of (write_ram ram 0 file))
    × (sum (load_sizes 4 (byte_at file) 0) ≡ 3)
    × AllBlocks (load_sizes 4 (byte_at file) 0)
load_loop-ends_example =
    load_loop-ends file (byte_at file) 4 ram (byte_at-IsReader file) (omega arith)
