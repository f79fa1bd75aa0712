-- ===== src/Examples/Lkm.antt =====
-- The kernel modules on a small list of processes.
use advance_virtualization_a.Prelude.{
  ℕ, ◌+◌, ◌*◌, ◌%◌, ◌^◌, ◌<◌, ◌≡◌, ◌≢◌, ◌↔◌, refl, false, some, none, List, [], ◌∷◌, arith, pos,
  negsuc, codes, leb, ltb, if◌then◌else◌,
}
use advance_virtualization_a.PageWalk.{Task, Paging, physical_address, page_table_walk, translated}
use advance_virtualization_a.PageWalk.Levels.{descend, page_table_walk-descends}
use advance_virtualization_a.PageWalk.Address.{frame, physical_address-exact_iff}
use advance_virtualization_a.PageWalk.Outcome.{IsPresent, find_task}
use advance_virtualization_a.Lkm.Kernel.{
  Kernel, module_loaded, physical_is, virtual_size, physical_size,
}
use advance_virtualization_a.Lkm.Listing
use advance_virtualization_a.Lkm.Translation.{lkm3_init}
use advance_virtualization_a.Lkm.Clients.{
  process_id, virtual_address, memory_allocated, allocation_failed, waits, lkm3_test, lkm4_test,
  lkm3_test-located, lkm4_test_lem,
}
use advance_virtualization_a.Lkm.Sizes.{Processes, lkm4_init, size_lines, lkm4_init_lem}

-- Tables in which the page of an address follows its number.
abbrev pub paging : Paging
paging = record {
  pgd_offset = λ mm a. mm;
  pgd_none = λ _. false;
  pgd_bad = λ _. false;
  p4d_offset = λ pgd a. pgd;
  p4d_none = λ _. false;
  pud_offset = λ p4d a. p4d;
  pud_none = λ _. false;
  pmd_offset = λ pud a. pud;
  pmd_none = λ _. false;
  pte_offset_kernel = λ pmd a. pmd;
  pte_none = λ _. false;
  pte_val = λ pte. pte * 4096 + 0x67;
}

abbrev pub tasks : List Task
tasks = record { pid = pos 2; mm = none } ∷ record { pid = pos 40; mm = some 5 } ∷ []

pub present : IsPresent paging 0x1234 5
present = record { pgd = refl; pgd_good = refl; p4d = refl; pud = refl; pmd = refl; pte = refl }

pub task_found : find_task (pos 40) tasks ≡ some (record { pid = pos 40; mm = some 5 })
unfolding find_task
task_found = refl

-- A page above 2^31.
physical_address-exact_iff_example :
    (physical_address 0x8000_0067 0x1234 ≡ frame 0x8000_0067 + 0x1234 % 4096)
    ↔ (frame 0x8000_0067 < 2 ^ 31)
physical_address-exact_iff_example = physical_address-exact_iff 0x8000_0067 0x1234 (omega arith)

-- Entries of 64 bits.
abbrev wrapped_paging : Paging
wrapped_paging = record paging { pte_val = λ pte. (pte * 4096 + 0x67) % 2 ^ 64 }

page_table_walk-descends_example :
    page_table_walk wrapped_paging 0x1234 (pos 40) tasks ≡ translated 0x5234
unfolding find_task descend
page_table_walk-descends_example =
    page_table_walk-descends wrapped_paging 0x1234 (λ pte. omega arith) (pos 40) tasks

abbrev kernel : Kernel
kernel = record { log = []; rcu_depth = 0; mm_users = λ _. 1 }

abbrev listed : List Listing.Task
listed =
    record { pid = pos 1; state = 1; comm = codes "init"; real_parent = none }
    ∷ record { pid = pos 7; state = 0; comm = codes "sh"; real_parent = some (pos 1) }
    ∷ []

lkm3_test-located_example :
    ((lkm3_test (pos 40) 0x1234).events
      ≡ process_id (pos 40) ∷ virtual_address 0x1234 ∷ waits 5000 ∷ [])
    × (k' : Kernel) × (lkm3_init paging (pos 40) 0x1234 tasks kernel ≡ some (0, k'))
    × (k'.rcu_depth ≡ 0)
    × (k'.log ≡ module_loaded ∷ physical_is 0x5234 ∷ [])
lkm3_test-located_example =
    lkm3_test-located paging (pos 40) 0x1234 5 (record { pid = pos 40; mm = some 5 }) tasks kernel
      (λ e. ground arith) task_found refl present (omega arith) (omega arith) (omega arith)

-- The third request fails.
lkm4_test_lem_example :
    lkm4_test 9 (λ bytes. ltb bytes 1000000) (pos 40)
    ≡ some (record {
      live = 0;
      events =
          process_id (pos 40)
          ∷ memory_allocated 40
          ∷ waits 40960
          ∷ memory_allocated 840
          ∷ waits 860160
          ∷ allocation_failed
          ∷ [];
    })
lkm4_test_lem_example = lkm4_test_lem 3 (λ bytes. ltb bytes 1000000) (pos 40)

abbrev processes : Processes
processes = record {
  pid_task = λ p. elim p [ pos n ↦ some n | negsuc _ ↦ none ];
  task_mm = λ t. if leb t 10 then none else some t;
  file_pages = λ _. 100;
  anon_pages = λ _. 50;
  shmem_pages = λ _. 3;
  swap_entries = λ _. 0;
  total_vm = λ _. 1000;
}

differ : (n : ℕ) → pos n ≢ negsuc 0
differ n e = ground arith

lkm4_init_lem_example :
    let (ret, k') = lkm4_init processes (pos 40) kernel in
    (ret ≡ pos 0)
    × (k'.log ≡ module_loaded ∷ virtual_size 4000 ∷ physical_size 612 ∷ [])
    × (k'.rcu_depth ≡ 0)
    × ((mm : ℕ)
        → (k'.mm_users mm ≢ kernel.mm_users mm) ↔ (
            (task : ℕ) × (processes.pid_task (pos 40) ≡ some task)
            × (processes.task_mm task ≡ some mm)))
unfolding size_lines
lkm4_init_lem_example =
    lkm4_init_lem processes (pos 40) kernel (differ 40) (λ mm. omega arith) (λ mm. omega arith)
