-- ===== src/Lkm/Sizes.antt =====
-- lkm4.c: the module prints the size of a process's address space, mapped and virtual.
use advance_virtualization_a.Prelude.{
  ◌≢◌, ◌⊎◌, inl, inr, same_int_iff, Bool-cases, ℕ, ◌+◌, ◌*◌, ◌^◌, ◌<◌, ◌≡◌, refl, Option, none,
  some, List, [], ◌↔◌, ◌∷◌, ◌++◌, ℤ, pos, negsuc, same_int, if◌then◌else◌, arith,
}
use mathlib.Core.List.{append_assoc}
use advance_virtualization_a.Memory.{u32}
use advance_virtualization_a.Lkm.Kernel.{
  Message, module_loaded, pid_not_found, mm_not_found, virtual_size, physical_size, Kernel, printk,
  rcu_read_lock, rcu_read_unlock, take_mm,
}

-- The kernel's answers: `pid_task(find_vpid(pid), PIDTYPE_PID)`, the address space that
-- `get_task_mm` finds for a task, and the counters of an address space, in pages.
pub record Processes : Type 0 where
  pub pid_task : ℤ → Option ℕ
  pub task_mm : ℕ → Option ℕ
  pub file_pages : ℕ → ℕ
  pub anon_pages : ℕ → ℕ
  pub shmem_pages : ℕ → ℕ
  pub swap_entries : ℕ → ℕ
  pub total_vm : ℕ → ℕ

module _ (p : Processes) where
  open p use {pid_task, task_mm, file_pages, anon_pages, shmem_pages, swap_entries, total_vm}

  -- `int mapped_physical_address_space`
  abbrev pub mapped_pages : ℕ → ℕ
  mapped_pages mm = u32 (file_pages mm + anon_pages mm + shmem_pages mm + swap_entries mm)

  -- The numbers are printed with `%d`, which takes 32 bits.
  sizes_of : Option ℕ → Kernel → Kernel
  sizes_of none k = printk mm_not_found k
  sizes_of (some mm) k =
      printk (physical_size (u32 (mapped_pages mm * 4)))
        (printk (virtual_size (u32 (total_vm mm * 4))) (take_mm mm k))

  task_sizes : Option ℕ → Kernel → Kernel
  task_sizes none k = printk pid_not_found k
  task_sizes (some task) k = sizes_of (task_mm task) k

  unfoldable pub get_vm_info : ℤ → Kernel → ℕ × Kernel
  unfolding sizes_of task_sizes
  get_vm_info given_pid k = (0, task_sizes (pid_task given_pid) k)

  -- `-EINVAL` is -22.
  unfoldable pub lkm4_init : ℤ → Kernel → ℤ × Kernel
  unfolding get_vm_info
  lkm4_init given_pid k =
      let k' = printk module_loaded k in
      if same_int given_pid (negsuc 0)
      then (negsuc 21, k')
      else (pos 0, rcu_read_unlock (get_vm_info given_pid (rcu_read_lock k')).1)

  -- The pages that the four counters name.
  abbrev pub all_pages : ℕ → ℕ
  all_pages mm = file_pages mm + anon_pages mm + shmem_pages mm + swap_entries mm

  sizes_lines : Option ℕ → List Message
  sizes_lines none = mm_not_found ∷ []
  sizes_lines (some mm) = virtual_size (total_vm mm * 4) ∷ physical_size (all_pages mm * 4) ∷ []

  task_lines : Option ℕ → List Message
  unfolding sizes_lines
  task_lines none = pid_not_found ∷ []
  task_lines (some task) = sizes_lines (task_mm task)

  -- What there is to print for a process: its two sizes in KB, of pages of 4 KB; or what is missing.
  unfoldable pub size_lines : ℤ → List Message
  unfolding task_lines
  size_lines given_pid = task_lines (pid_task given_pid)

  sizes_of-lines :
      (o : Option ℕ) (k : Kernel)
      → ((mm : ℕ) → all_pages mm < 2 ^ 29)
      → ((mm : ℕ) → total_vm mm < 2 ^ 29)
      → ((sizes_of o k).log ≡ k.log ++ sizes_lines o)
        × ((sizes_of o k).rcu_depth ≡ k.rcu_depth)
        × ((mm : ℕ) → ((sizes_of o k).mm_users mm ≢ k.mm_users mm) ↔ (o ≡ some mm))
  unfolding sizes_of sizes_lines
  sizes_of-lines none k pages total = (refl, refl, λ mm. (λ ne. absurd (ne refl), λ e. cc))
  sizes_of-lines (some mm') k pages total = (
    rw (append_assoc k.log) (ground (arith, pages mm', total mm')),
    refl,
    λ mm. (λ ne. ground arith, λ e. ground arith),
  )

  task_sizes-lines :
      (o : Option ℕ) (k : Kernel)
      → ((mm : ℕ) → all_pages mm < 2 ^ 29)
      → ((mm : ℕ) → total_vm mm < 2 ^ 29)
      → ((task_sizes o k).log ≡ k.log ++ task_lines o)
        × ((task_sizes o k).rcu_depth ≡ k.rcu_depth)
        × ((mm : ℕ)
            → ((task_sizes o k).mm_users mm ≢ k.mm_users mm)
              ↔ ((task : ℕ) × (o ≡ some task) × (task_mm task ≡ some mm)))
  unfolding task_sizes task_lines
  task_sizes-lines none k pages total = (refl, refl, λ mm. (λ ne. absurd (ne refl), λ e. cc))
  task_sizes-lines (some task) k pages total =
      let (lines, depth, users) = sizes_of-lines (task_mm task) k pages total in
      (lines, depth, λ mm. (λ ne. (task, refl, (users mm).0 ne), λ (t, e, has). (users mm).1 cc))

  -- For each process id that is given, where all address spaces have less than 2^29 pages, lkm4
  -- prints the two sizes of the process in KB, or that there is no such process or no address space,
  -- returns 0, and gives the RCU lock back. The users of an address space are other than before
  -- exactly if it is that of the process: the reference of `get_task_mm` is not given back.
  pub lkm4_init_lem :
      (given_pid : ℤ) (k : Kernel)
      → given_pid ≢ negsuc 0
      → ((mm : ℕ) → all_pages mm < 2 ^ 29)
      → ((mm : ℕ) → total_vm mm < 2 ^ 29)
      → let (ret, k') = lkm4_init given_pid k in
        (ret ≡ pos 0)
        × (k'.log ≡ (k.log ++ module_loaded ∷ []) ++ size_lines given_pid)
        × (k'.rcu_depth ≡ k.rcu_depth)
        × ((mm : ℕ)
            → (k'.mm_users mm ≢ k.mm_users mm)
              ↔ ((task : ℕ) × (pid_task given_pid ≡ some task) × (task_mm task ≡ some mm)))
  unfolding lkm4_init size_lines
  lkm4_init_lem given_pid k given pages total =
      let loaded = printk module_loaded k in
      let (lines, depth, users) =
        task_sizes-lines (pid_task given_pid) (rcu_read_lock loaded) pages total in
      elim (Bool-cases (same_int given_pid (negsuc 0))) [
        | inl same ↦ absurd (given ((same_int_iff given_pid (negsuc 0)).0 same))
        | inr differs ↦ rw differs (refl, lines, ground (arith, depth), users)
      ]

  -- Without a pid lkm4 fails with -EINVAL, before it takes the lock.
  pub lkm4_init-no_pid :
      (k : Kernel)
      → lkm4_init (negsuc 0) k ≡ (negsuc 21, record k { log = k.log ++ module_loaded ∷ [] })
  unfolding lkm4_init
  lkm4_init-no_pid k = ground arith

  -- Without a process, or without an address space, lkm4 says so, gives the lock back and takes no
  -- reference.
  pub lkm4_init-missing :
      (given_pid : ℤ) (k : Kernel)
      → given_pid ≢ negsuc 0
      → (pid_task given_pid ≡ none)
        ⊎ ((task : ℕ) × (pid_task given_pid ≡ some task) × (task_mm task ≡ none))
      → (m : Message) × (m ≡ pid_not_found ⊎ m ≡ mm_not_found)
        × (lkm4_init given_pid k
            ≡ (pos 0, record k { log = (k.log ++ module_loaded ∷ []) ++ m ∷ [] }))
  unfolding lkm4_init
  lkm4_init-missing given_pid k given (inl absent) =
      (pid_not_found, inl refl, ground (arith, same_int_iff given_pid (negsuc 0)))
  lkm4_init-missing given_pid k given (inr (task, found, no_mm)) =
      (mm_not_found, inr refl, ground (arith, same_int_iff given_pid (negsuc 0)))
