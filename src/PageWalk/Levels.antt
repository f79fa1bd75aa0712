-- ===== src/PageWalk/Levels.antt =====
-- `page_table_walk` against a walk that is the same at each level: it takes the entry for the address, and
-- stops at the first one that is missing.
use advance_virtualization_a.Prelude.{
  ℕ, ◌+◌, ◌%◌, ◌^◌, ◌<◌, ◌≡◌, refl, Bool, ◌||◌, Option, none, some, List, [], ◌∷◌, ℤ, same_int,
  if◌then◌else◌, arith, Bool-cases, inl, inr,
}
use advance_virtualization_a.Memory.{u32}
use advance_virtualization_a.PageWalk.{
  Task, Paging, Missing, no_pgd, no_p4d, no_pud, no_pmd, no_pte, no_process, Walk, translated,
  missing, null_access, sign_extend, walk_tables, walk_task, page_table_walk,
}
use advance_virtualization_a.PageWalk.Address.{frame, physical_address-frame}
use advance_virtualization_a.PageWalk.Outcome.{find_task}

-- A level of the tables: the place of the entry in a table, whether the entry there is missing, and the
-- message about that.
pub record Level : Type 0 where
  pub place : ℕ → ℕ
  pub is_missing : ℕ → Bool
  pub message : Missing

-- Where the walk through some levels ends.
pub data Descent : Type 0 where
  stops : Missing → Descent
  reaches : ℕ → Descent

unfoldable pub descend : List Level → ℕ → Descent
descend [] table = reaches table
descend (level ∷ levels) table =
    let entry = level.place table in
    let rest = descend levels entry in if level.is_missing entry then stops level.message else rest

module _ (k : Paging) (address : ℕ) where
  open k use {
    pgd_offset, pgd_none, pgd_bad, p4d_offset, p4d_none, pud_offset, pud_none, pmd_offset, pmd_none,
    pte_offset_kernel, pte_none, pte_val,
  }

  -- The five levels of the kernel's tables.
  abbrev pub levels : List Level
  levels =
      record {
        place = λ mm. pgd_offset mm address;
        is_missing = λ pgd. pgd_none pgd || pgd_bad pgd;
        message = no_pgd;
      }
      ∷ record { place = λ pgd. p4d_offset pgd address; is_missing = p4d_none; message = no_p4d }
      ∷ record { place = λ p4d. pud_offset p4d address; is_missing = pud_none; message = no_pud }
      ∷ record { place = λ pud. pmd_offset pud address; is_missing = pmd_none; message = no_pmd }
      ∷ record {
        place = λ pmd. pte_offset_kernel pmd address;
        is_missing = pte_none;
        message = no_pte;
      }
      ∷ []

  -- What is found behind the last level: of the address of the byte, the page and the offset in the page,
  -- the low 32 bits with their sign.
  abbrev pub found : Descent → Walk
  found (stops message) = missing message
  found (reaches pte) = translated (sign_extend (u32 (frame (pte_val pte)) + address % 4096))

  abbrev pub walk_mm : Option ℕ → Walk
  walk_mm none = null_access
  walk_mm (some mm) = found (descend levels mm)

  abbrev pub walk_found : Option Task → Walk
  walk_found none = missing no_process
  walk_found (some task) = walk_mm task.mm

  module _ (small : (pte : ℕ) → pte_val pte < 2 ^ 64) where
    walk_tables-descend : (mm : ℕ) → walk_tables k address mm ≡ found (descend levels mm)
    unfolding walk_tables descend
    walk_tables-descend mm =
        let pte =
          pte_offset_kernel
            (pmd_offset (pud_offset (p4d_offset (pgd_offset mm address) address) address) address)
            address in
        ground (arith, physical_address-frame (pte_val pte) address (small pte))

    walk_task-walk_mm : (mm : Option ℕ) → walk_task k address mm ≡ walk_mm mm
    unfolding walk_task
    walk_task-walk_mm none = refl
    walk_task-walk_mm (some mm) = walk_tables-descend mm

    -- Where the entries of the last level have 64 bits, and for every pid, task list and address, the walk
    -- gives the message about the process where no task has the pid, and goes through a null pointer where
    -- the first task that has it has no address space. Else it descends the five levels of its tables: it
    -- stops with the message of the first one that has no entry for the address, and where all have one it
    -- gives the low 32 bits of the address of the byte, extended to 64 bits by their sign.
    pub page_table_walk-descends :
        (pid : ℤ) (tasks : List Task)
        → page_table_walk k address pid tasks ≡ walk_found (find_task pid tasks)
    unfolding page_table_walk find_task
    page_table_walk-descends pid [] = refl
    page_table_walk-descends pid (task ∷ tasks) = elim (Bool-cases (same_int task.pid pid)) [
      | inl same ↦ rw same (walk_task-walk_mm task.mm)
      | inr other ↦ rw other (page_table_walk-descends pid tasks)
    ]
