-- ===== src/PageWalk/Outcome.antt =====
-- What `page_table_walk` gives for a process, and for a kernel thread.
use advance_virtualization_a.Prelude.{
  ℕ, ◌+◌, ◌%◌, ◌^◌, ◌<◌, ◌≡◌, refl, arith, false, Option, none, some, List, [], ◌∷◌, ℤ, same_int,
  if◌then◌else◌,
}
use advance_virtualization_a.PageWalk.{
  Task, Paging, translated, missing, no_process, null_access, walk_tables, page_table_walk,
  physical_address,
}
use advance_virtualization_a.PageWalk.Address.{frame, physical_address-exact_iff}

-- The first task with the pid.
unfoldable pub find_task : ℤ → List Task → Option Task
find_task pid [] = none
find_task pid (task ∷ tasks) = if same_int task.pid pid then some task else find_task pid tasks

module _ (k : Paging) (address mm : ℕ) where
  open k use {
    pgd_offset, pgd_none, pgd_bad, p4d_offset, p4d_none, pud_offset, pud_none, pmd_offset, pmd_none,
    pte_offset_kernel, pte_none, pte_val,
  }

  abbrev pte_pointer : ℕ
  pte_pointer =
      pte_offset_kernel
        (pmd_offset (pud_offset (p4d_offset (pgd_offset mm address) address) address) address)
        address

  -- The entry for the address.
  abbrev pub entry : ℕ
  entry = pte_val pte_pointer

  -- All five levels of the tables have an entry for the address.
  pub record IsPresent : Type 0 where
    pub pgd : pgd_none (pgd_offset mm address) ≡ false
    pub pgd_good : pgd_bad (pgd_offset mm address) ≡ false
    pub p4d : p4d_none (p4d_offset (pgd_offset mm address) address) ≡ false
    pub pud : pud_none (pud_offset (p4d_offset (pgd_offset mm address) address) address) ≡ false
    pub pmd :
        pmd_none
          (pmd_offset (pud_offset (p4d_offset (pgd_offset mm address) address) address) address)
        ≡ false
    pub pte : pte_none pte_pointer ≡ false

  walk_tables-present :
      IsPresent → walk_tables k address mm ≡ translated (physical_address entry address)
  unfolding walk_tables
  walk_tables-present present = ground arith

module _ (k : Paging) (address : ℕ) where
  page_table_walk-found :
      (pid : ℤ) (tasks : List Task) (task : Task)
      → find_task pid tasks ≡ some task
      → page_table_walk k address pid tasks ≡ page_table_walk k address pid (task ∷ [])
  unfolding find_task page_table_walk
  page_table_walk-found pid [] task e = cc
  page_table_walk-found pid (t ∷ tasks) task e =
      ground (arith, page_table_walk-found pid tasks task)

  -- Where the process with the pid is found and has an address space, and the tables hold an entry
  -- for the address whose page lies below 2^31, the walk gives the physical address of the byte.
  pub page_table_walk-present :
      (pid : ℤ) (tasks : List Task) (task : Task) (mm : ℕ)
      → find_task pid tasks ≡ some task
      → task.mm ≡ some mm
      → IsPresent k address mm
      → entry k address mm < 2 ^ 64
      → frame (entry k address mm) < 2 ^ 31
      → page_table_walk k address pid tasks
        ≡ translated (frame (entry k address mm) + address % 4096)
  unfolding page_table_walk find_task
  page_table_walk-present pid [] task mm found has present small low = cc
  page_table_walk-present pid (t ∷ tasks) task mm found has present small low = ground (
    arith,
    walk_tables-present k address mm present,
    physical_address-exact_iff (entry k address mm) address small,
    page_table_walk-present pid tasks task mm,
  )

  -- A pid that no task has gives 0 with a message.
  pub page_table_walk-no_process :
      (pid : ℤ) (tasks : List Task)
      → find_task pid tasks ≡ none
      → page_table_walk k address pid tasks ≡ missing no_process
  unfolding page_table_walk find_task
  page_table_walk-no_process pid [] absent = refl
  page_table_walk-no_process pid (t ∷ tasks) absent =
      ground (arith, page_table_walk-no_process pid tasks)

  -- For a kernel thread, a process without an address space, the function goes through a null
  -- pointer.
  pub page_table_walk-null_access :
      (pid : ℤ) (tasks : List Task) (task : Task)
      → find_task pid tasks ≡ some task
      → task.mm ≡ none
      → page_table_walk k address pid tasks ≡ null_access
  unfolding page_table_walk find_task
  page_table_walk-null_access pid [] task found no_mm = cc
  page_table_walk-null_access pid (t ∷ tasks) task found no_mm =
      ground (arith, page_table_walk-null_access pid tasks task)
