-- ===== src/Examples/Drivers.antt =====
-- The two drivers on concrete requests.
use advance_virtualization_a.Prelude.{
  ℕ, ◌+◌, ◌≡◌, ◌⊎◌, refl, true, false, Option, some, none, List, [], ◌∷◌, ◌++◌, arith, ℤ, pos,
  negsuc, is_negative, ◌==◌, ◌&&◌, leb, if◌then◌else◌, leb, ltb,
}
use advance_virtualization_a.Drivers.Module.{
  Answers, valid, error, nothing_held, my_init, my_exit, IsSetUp, my_init_lem,
}
use advance_virtualization_a.Memory.{Bytes}
use advance_virtualization_a.Drivers.PhysicalMemory.{System}
use advance_virtualization_a.Drivers.UserProgram.{
  exited, ruler, virtual_address, physical_address, modified_value, main, main-modifies,
}
use advance_virtualization_a.Drivers.Reparent.{
  Family, returned, corrupted_list, update, send_sigchld_signal, my_ioctl,
}
use advance_virtualization_a.Drivers.Reparent.Links.{
  IsLinked, count, my_ioctl-reparents, my_ioctl-traced,
}
use advance_virtualization_a.Examples.Lkm.{paging, tasks, present, task_found}

abbrev answers : Answers
answers = record {
  alloc_chrdev_region = pos 0;
  cdev_add = pos 0;
  class_create = valid 1;
  device_create = error 11;
}

my_init_lem_example :
    ((((my_init answers nothing_held).0) ≡ pos 0)
      × IsSetUp (my_init answers nothing_held).1
      × (my_exit (my_init answers nothing_held).1 ≡ nothing_held))
    ⊎ (((is_negative (my_init answers nothing_held).0 ≡ true)
          × ((my_init answers nothing_held).1 ≡ nothing_held))
        ⊎ ((is_negative answers.alloc_chrdev_region ≡ false)
            × (is_negative answers.cdev_add ≡ true)
            × ((my_init answers nothing_held).0 ≡ answers.cdev_add)
            × ((my_init answers nothing_held).1 ≡ record nothing_held { chrdev_region = true })))
my_init_lem_example = my_init_lem answers

abbrev system : System
system = record {
  current_pid = pos 40;
  tasks = tasks;
  paging = paging;
  phys_to_virt = λ p. p + 0x10_0000;
}

main-modifies_example :
    (m' : Bytes) × (main system (λ a. some (a + 0x10_4000)) 0x1234 (pos 3) (λ _. 9)
      ≡ exited 0
          (ruler ∷ virtual_address 0x1234 6 ∷ physical_address 0x5234 ∷ modified_value 5 ∷ [])
          m')
    × ((q : ℕ)
        → m' q
          ≡ (if q == 0x10_5234 then 5 else (if leb 0x10_5234 q && ltb q 0x10_523c then 0 else 9)))
main-modifies_example =
    main-modifies system (λ a. some (a + 0x10_4000)) 0x1234 5 3
      (record { pid = pos 40; mm = some 5 }) (λ _. 9) task_found refl present (omega arith)
      (omega arith) (λ e. ground arith) refl

-- Task 7 is a child of 1, and task 8 a child of 1 that task 9 traces.
abbrev pub family : Family
family = record {
  parent = λ t. if t == 8 then 9 else 1;
  real_parent = λ _. 1;
  children = λ t. if t == 1 then 7 ∷ 8 ∷ [] else [];
  in_list = λ t. leb 7 t && leb t 8;
  rcu_depth = 0;
}

abbrev pub pid_task : ℤ → Option ℕ
pid_task (pos n) = some n
pid_task (negsuc _) = none

pub linked : IsLinked family
unfolding IsLinked count
linked x p = ground arith

my_ioctl-reparents_example :
    (f' : Family) × (my_ioctl pid_task 7 (send_sigchld_signal (some (pos 3))) family
      ≡ returned 0 f')
    × IsLinked f'
    × (f'.parent ≡ update family.parent 7 3)
    × (f'.real_parent ≡ update family.real_parent 7 3)
    × (f'.rcu_depth ≡ 0)
    × ((earlier : List ℕ) × (f'.children 3 ≡ earlier ++ 7 ∷ []))
my_ioctl-reparents_example = my_ioctl-reparents pid_task 7 (pos 3) 3 family refl linked refl refl

my_ioctl-traced_example :
    my_ioctl pid_task 8 (send_sigchld_signal (some (pos 3))) family ≡ corrupted_list
my_ioctl-traced_example =
    my_ioctl-traced pid_task 8 (pos 3) 3 family refl linked refl (λ e. ground arith)

abbrev still_locked : Family
still_locked = record family { rcu_depth = 1 }

failed_copy : my_ioctl pid_task 7 (send_sigchld_signal none) family ≡ returned 0 still_locked
unfolding my_ioctl
failed_copy = refl
