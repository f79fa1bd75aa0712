-- ===== src/PageWalk.antt =====
-- `page_table_walk` of `Linux Internals Exploration/1/lkm3.c` and `2_I/driver.c`, which is the same
-- function twice.
pub mod Address
pub mod Outcome
pub mod Levels
use advance_virtualization_a.Prelude.{
  ℕ, ◌+◌, ◌-◌, ◌*◌, ◌/◌, ◌%◌, ◌^◌, ◌≤◌, ◌<◌, ◌≡◌, ◌↔◌, Bool, ◌||◌, Option, none, some, List, [],
  ◌∷◌, bit_and, bit_or, ltb, ℤ, same_int, if◌then◌else◌,
}
use advance_virtualization_a.Memory.{u32}

-- `struct task_struct`, as far as it is read: `mm` is a null pointer for a kernel thread.
pub record Task : Type 0 where
  pub pid : ℤ
  pub mm : Option ℕ

-- The kernel's functions on page tables; a `…_none p` is applied to what `p` points to.
pub record Paging : Type 0 where
  pub pgd_offset : ℕ → ℕ → ℕ
  pub pgd_none : ℕ → Bool
  pub pgd_bad : ℕ → Bool
  pub p4d_offset : ℕ → ℕ → ℕ
  pub p4d_none : ℕ → Bool
  pub pud_offset : ℕ → ℕ → ℕ
  pub pud_none : ℕ → Bool
  pub pmd_offset : ℕ → ℕ → ℕ
  pub pmd_none : ℕ → Bool
  pub pte_offset_kernel : ℕ → ℕ → ℕ
  pub pte_none : ℕ → Bool
  pub pte_val : ℕ → ℕ

-- The messages of the function.
pub data Missing : Type 0 where
  no_pgd no_p4d no_pud no_pmd no_pte no_process : Missing

-- How the walk ends: with an address, with a message and 0, or with an access through the null
-- pointer `task->mm`.
pub data Walk : Type 0 where
  translated : ℕ → Walk
  missing : Missing → Walk
  null_access : Walk

abbrev pub page_mask : ℕ
page_mask = 0xffff_ffff_ffff_f000

-- A conversion of an `int` to 64 bits extends its sign.
abbrev pub sign_extend : ℕ → ℕ
sign_extend w = if ltb w 0x8000_0000 then w else w + 0xffff_ffff_0000_0000

-- `(int)(pte_val(…) & PAGE_MASK) | (int)((~PAGE_MASK) & given_virtual_address)`, in 64 bits;
-- `~PAGE_MASK` is 0xfff.
unfoldable pub physical_address : ℕ → ℕ → ℕ
physical_address pte address =
    sign_extend (bit_or (u32 (bit_and pte page_mask)) (u32 (bit_and 0xfff address)))

module _ (k : Paging) (address : ℕ) where
  open k use {
    pgd_offset, pgd_none, pgd_bad, p4d_offset, p4d_none, pud_offset, pud_none, pmd_offset, pmd_none,
    pte_offset_kernel, pte_none, pte_val,
  }

  -- The body of the loop, once the process is found.
  unfoldable pub walk_tables : ℕ → Walk
  walk_tables mm =
      let pgd = pgd_offset mm address in
      let p4d = p4d_offset pgd address in
      let pud = pud_offset p4d address in
      let pmd = pmd_offset pud address in
      let pte = pte_offset_kernel pmd address in
      if pgd_none pgd || pgd_bad pgd
      then missing no_pgd
      else (if p4d_none p4d
          then missing no_p4d
          else (if pud_none pud
              then missing no_pud
              else (if pmd_none pmd
                  then missing no_pmd
                  else (if pte_none pte
                      then missing no_pte
                      else translated (physical_address (pte_val pte) address)))))

  walk_task : Option ℕ → Walk
  walk_task none = null_access
  walk_task (some mm) = walk_tables mm

  -- `for_each_process`: the first task with the pid decides.
  unfoldable pub page_table_walk : ℤ → List Task → Walk
  unfolding walk_task
  page_table_walk pid [] = missing no_process
  page_table_walk pid (task ∷ tasks) =
      let rest = page_table_walk pid tasks in
      if same_int task.pid pid then walk_task task.mm else rest

-- The value that the function returns: 0 with each message.
abbrev pub returned_address : Walk → Option ℕ
returned_address (translated a) = some a
returned_address (missing _) = some 0
returned_address null_access = none
