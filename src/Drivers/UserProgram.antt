-- ===== src/Drivers/UserProgram.antt =====
-- `main` of `2_I/user_program.c`, the client of driver.c.
use advance_virtualization_a.Prelude.{
  ℕ, ◌+◌, ◌%◌, ◌^◌, ◌<◌, ◌≡◌, ◌≢◌, refl, ◌&&◌, Option, none, some, List, [], ◌∷◌, ◌++◌, ℤ, pos,
  is_negative, ◌==◌, if◌then◌else◌, arith, leb, ltb,
}
use advance_virtualization_a.Memory.{Bytes}
use advance_virtualization_a.PageWalk.{Task}
use advance_virtualization_a.PageWalk.Address.{frame}
use advance_virtualization_a.PageWalk.Outcome.{find_task, IsPresent, entry, page_table_walk-present}
use advance_virtualization_a.Drivers.PhysicalMemory.{
  System, Effect, my_ioctl, ask_at, write_at, write_physical, write_physical_lem,
}

-- What the program prints on stdout.
pub data Line : Type 0 where
  ruler : Line
  virtual_address : ℕ → ℕ → Line
  file_not_found : Line
  physical_address : ℕ → Line
  modified_value : ℕ → Line

-- How the program ends: with its exit status and the memory that it leaves; in a fault of its own, as
-- where `malloc` gives a null pointer; or in a fault of the kernel within the driver.
pub data UserEnd : Type 0 where
  exited : ℕ → List Line → Bytes → UserEnd
  segmentation_fault : UserEnd
  kernel_fault : UserEnd

-- Memory is the kernel's; `byte_of` gives the place where the processor finds a byte of the process,
-- `none` for an address that it may not access.
module _ (sys : System) (byte_of : ℕ → Option ℕ) where
  -- `gpa.physical_addr` after the first call.
  abbrev answer_of : Effect → ℕ
  answer_of effect = elim effect.answer [ none ↦ 0 | some gpa ↦ gpa.physical_addr ]

  -- After the second call.
  after_write : List Line → ℕ → Option (ℕ × Effect) → UserEnd
  after_write lines place none = kernel_fault
  after_write lines place (some (ret, effect)) =
      exited 0 (lines ++ modified_value (effect.memory place) ∷ []) effect.memory

  -- After the first call.
  after_ask : List Line → ℕ → Option (ℕ × Effect) → UserEnd
  unfolding after_write
  after_ask lines place none = kernel_fault
  after_ask lines place (some (ret, effect)) =
      after_write (lines ++ physical_address (answer_of effect) ∷ []) place
        (write_at sys (some (ret, effect)) 5)

  abbrev set_byte : Bytes → ℕ → ℕ → Bytes
  set_byte m place value q = if q == place then value else m q

  -- With the byte of `malloc` at its place.
  with_byte : ℤ → ℕ → Bytes → Option ℕ → UserEnd
  unfolding after_ask
  with_byte opened allocated_byte_address m none = segmentation_fault
  with_byte opened allocated_byte_address m (some place) =
      let m' = set_byte m place 6 in
      let lines = ruler ∷ virtual_address allocated_byte_address (m' place) ∷ [] in
      if is_negative opened
      then exited 1 (lines ++ file_not_found ∷ []) m'
      else after_ask lines place (ask_at sys allocated_byte_address m')

  -- `main`, given the results of `malloc` and `open`.
  unfoldable pub main : ℕ → ℤ → Bytes → UserEnd
  unfolding with_byte
  main allocated_byte_address opened m =
      with_byte opened allocated_byte_address m (byte_of allocated_byte_address)

  open sys use {current_pid, tasks, paging, phys_to_virt}

  -- Where the device opens, the process is found, its tables hold an entry for the byte of `malloc`
  -- with a page below 2^31, the kernel maps that physical address, and the processor finds the byte
  -- there: the program exits with 0, prints the value 6, the physical address of the byte and then
  -- the value 5, and of the memory it has changed that byte and the seven behind it, which are 0.
  pub main-modifies :
      (address mm fd : ℕ) (task : Task) (m : Bytes)
      → find_task current_pid tasks ≡ some task
      → task.mm ≡ some mm
      → IsPresent paging address mm
      → entry paging address mm < 2 ^ 64
      → frame (entry paging address mm) < 2 ^ 31
      → phys_to_virt (frame (entry paging address mm) + address % 4096) ≢ 0
      → let physical = frame (entry paging address mm) + address % 4096 in
        let place = phys_to_virt physical in
        byte_of address ≡ some place
        → (m' : Bytes) × (main address (pos fd) m
            ≡ exited 0
                (ruler
                  ∷ virtual_address address 6
                  ∷ physical_address physical
                  ∷ modified_value 5
                  ∷ [])
                m')
          × ((q : ℕ)
              → m' q
                ≡ (if q == place then 5 else (if leb place q && ltb q (place + 8) then 0 else m q)))
  unfolding main my_ioctl
  main-modifies address mm fd task m found has present small low valid at_place =
      let physical = frame (entry paging address mm) + address % 4096 in
      let place = phys_to_virt physical in
      let m₆ = set_byte m place 6 in
      let m' = write_physical sys (record { physical_addr = physical; value = 5 }) m₆ in
      let walk =
        page_table_walk-present paging address current_pid tasks task mm found has present small
          low in
      let wrote = λ (q : ℕ).
        write_physical_lem sys (record { physical_addr = physical; value = 5 }) m₆ q valid
          (omega arith) in
      let first : m₆ place ≡ 6 = ground arith in
      let second : m' place ≡ 5 = ground (arith, wrote place) in
      (m', rw at_place (rw walk (rw (first, second) refl)), λ q. ground (arith, wrote q))
