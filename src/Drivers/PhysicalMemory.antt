-- ===== src/Drivers/PhysicalMemory.antt =====
-- `my_ioctl` of `2_I/driver.c`, and the two calls of it in `main` of `2_I/user_program.c`.
use advance_virtualization_a.Prelude.{
  ℕ, suc, ◌+◌, ◌-◌, ◌/◌, ◌%◌, ◌^◌, ◌<◌, ◌≡◌, ◌≢◌, refl, ◌∙◌, Bool, true, false, ◌&&◌, Option, none,
  some, List, ◌∷◌, ℤ, ◌==◌, if◌then◌else◌, arith, replicate, get_or, zero, leb, ltb,
}
use advance_virtualization_a.Memory.{Bytes, le_bytes, store}
use advance_virtualization_a.PageWalk.{Task, Paging, page_table_walk, returned_address}
use advance_virtualization_a.PageWalk.Address.{frame}
use advance_virtualization_a.PageWalk.Outcome.{find_task, IsPresent, entry, page_table_walk-present}

-- `struct GET_P_ADDR` and `struct WRITE_P_MEM`; `value` is one byte.
pub record GetPAddr : Type 0 where
  pub virtual_addr : ℕ
  pub physical_addr : ℕ

pub record WritePMem : Type 0 where
  pub physical_addr : ℕ
  pub value : ℕ

-- The kernel as the driver sees it: the calling process, the task list, the page tables, and
-- `phys_to_virt`, which gives 0 for the null pointer.
pub record System : Type 0 where
  pub current_pid : ℤ
  pub tasks : List Task
  pub paging : Paging
  pub phys_to_virt : ℕ → ℕ

-- A command with the structure that its argument points to. The Booleans say whether
-- `copy_from_user` and `copy_to_user` succeed.
pub data Command : Type 0 where
  get_physical_addr : Bool → Bool → GetPAddr → Command
  write_physical_mem : Bool → WritePMem → Command
  other_command : Command

-- What a call changes: the structure of the caller, and the kernel's memory.
pub record Effect : Type 0 where
  pub answer : Option GetPAddr
  pub memory : Bytes

-- `gpa.physical_addr = page_table_walk(…)` and the copy to the user; `none` as an address is the access
-- through a null pointer.
abbrev pub answered : Option ℕ → Bool → GetPAddr → Bytes → Option (ℕ × Effect)
answered none copied gpa m = none
answered (some a) copied gpa m = some (
  0,
  record { answer = if copied then some (record gpa { physical_addr = a }) else none; memory = m },
)

-- A byte as a word of eight: the first byte is the value, the others are 0.
le_bytes-byte : (n : ℕ) → n < 256 → le_bytes 8 n ≡ n ∷ replicate 7 0
unfolding le_bytes
le_bytes-byte n small =
    let low : n % 256 ≡ n = omega arith in
    let high : n / 256 ≡ 0 = omega arith in rw low (rw high refl)

get_or-zeros : (n i : ℕ) → get_or (replicate n 0) i 0 ≡ (let z : ℕ = 0 in z)
get_or-zeros zero i = refl
get_or-zeros (suc n) zero = refl
get_or-zeros (suc n) (suc i) = get_or-zeros n i

get_or-byte : (n i : ℕ) → get_or (n ∷ replicate 7 0) i 0 ≡ (if i == 0 then n else 0)
get_or-byte n zero = refl
get_or-byte n (suc i) = get_or-zeros 7 i ∙ ground arith

module _ (sys : System) where
  open sys use {current_pid, tasks, paging, phys_to_virt}

  -- `*virt_addr = wpm.value`, through a pointer to `unsigned long`.
  unfoldable pub write_physical : WritePMem → Bytes → Bytes
  write_physical wpm m =
      let virt_addr = phys_to_virt wpm.physical_addr in
      if virt_addr == 0 then m else store m virt_addr (le_bytes 8 wpm.value)

  unfoldable pub my_ioctl : Command → Bytes → Option (ℕ × Effect)
  my_ioctl (get_physical_addr false copied gpa) m = some (0, record { answer = none; memory = m })
  my_ioctl (get_physical_addr true copied gpa) m =
      answered (returned_address (page_table_walk paging gpa.virtual_addr current_pid tasks)) copied
        gpa m
  my_ioctl (write_physical_mem copied wpm) m =
      some (0, record { answer = none; memory = if copied then write_physical wpm m else m })
  my_ioctl other_command m = some (0, record { answer = none; memory = m })

  -- The second call of `main`, with the address that the first one gave; without an answer,
  -- `gpa.physical_addr` holds the 0 it was set up with.
  abbrev pub write_at : Option (ℕ × Effect) → ℕ → Option (ℕ × Effect)
  write_at none value = none
  write_at (some (ret, effect)) value =
      my_ioctl
        (write_physical_mem true (record {
          physical_addr = elim effect.answer [ none ↦ 0 | some gpa ↦ gpa.physical_addr ];
          value = value;
        }))
        effect.memory

  -- The first call of `main`.
  abbrev pub ask_at : ℕ → Bytes → Option (ℕ × Effect)
  ask_at allocated_byte_address = my_ioctl (
      get_physical_addr true true
        (record { virtual_addr = allocated_byte_address; physical_addr = 0 }))

  -- The two calls.
  unfoldable pub user_program : ℕ → Bytes → Option (ℕ × Effect)
  user_program allocated_byte_address m = write_at (ask_at allocated_byte_address m) 5

  -- A write through a pointer that is not null changes eight bytes: the first becomes the value, the
  -- seven after it become 0, and all others stay.
  pub write_physical_lem :
      (wpm : WritePMem) (m : Bytes) (q : ℕ)
      → phys_to_virt wpm.physical_addr ≢ 0
      → wpm.value < 256
      → let a = phys_to_virt wpm.physical_addr in
        write_physical wpm m q
        ≡ (if q == a then wpm.value else (if leb a q && ltb q (a + 8) then 0 else m q))
  unfolding write_physical store le_bytes
  write_physical_lem wpm m q valid small =
      rw (le_bytes-byte wpm.value small)
        (ground (arith, get_or-byte wpm.value (q - phys_to_virt wpm.physical_addr)))

  -- The two calls of `main`, for a process that is found, whose tables hold an entry for the
  -- address with a page below 2^31, and where the kernel maps the physical address: the second
  -- returns 0, and has set the byte at the address to 5, the seven after it to 0, and no other.
  pub user_program_lem :
      (address mm : ℕ) (task : Task) (m : Bytes) (q : ℕ)
      → find_task current_pid tasks ≡ some task
      → task.mm ≡ some mm
      → IsPresent paging address mm
      → entry paging address mm < 2 ^ 64
      → frame (entry paging address mm) < 2 ^ 31
      → phys_to_virt (frame (entry paging address mm) + address % 4096) ≢ 0
      → let a = phys_to_virt (frame (entry paging address mm) + address % 4096) in
        (effect : Effect) × (user_program address m ≡ some (0, effect))
        × (effect.memory q ≡ (if q == a then 5 else (if leb a q && ltb q (a + 8) then 0 else m q)))
  unfolding user_program my_ioctl
  user_program_lem address mm task m q found has present small low valid =
      let walk =
        page_table_walk-present paging address current_pid tasks task mm found has present small
          low in
      rw walk ((_, refl, write_physical_lem _ m q valid (omega arith)))
