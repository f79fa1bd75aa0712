-- ===== src/Lkm/Listing.antt =====
-- lkm1.c lists the processes that run or can run; lkm2.c the children of a process.
use advance_virtualization_a.Prelude.{
  ℕ, suc, ◌-◌, ◌≡◌, ap, inl, inr, Bool-cases, ◌∙◌, sym, Bool, false, Option, none, some, List, [],
  ◌∷◌, ◌++◌, map, ℤ, same_int, ◌==◌, if◌then◌else◌, arith,
}
use mathlib.Core.List.{append-nil, append_assoc}
use advance_virtualization_a.Lkm.Kernel.{
  Message, module_loaded, listing_running, running_task, listing_children, child_task, Kernel,
  printk, rcu_read_lock, rcu_read_unlock,
}

-- `struct task_struct`: `real_parent` is the parent's pid, or null.
pub record Task : Type 0 where
  pub pid : ℤ
  pub state : ℕ
  pub comm : List ℕ
  pub real_parent : Option ℤ

-- TASK_RUNNING is 0.
abbrev pub is_running : Task → Bool
is_running task = task.state == 0

abbrev pub is_child_of : ℤ → Task → Bool
is_child_of pid task = elim task.real_parent [ none ↦ false | some parent ↦ same_int parent pid ]

-- The loops of the two modules.
unfoldable pub list_running : List Task → Kernel → Kernel
list_running [] k = k
list_running (task ∷ tasks) k =
    list_running tasks (if is_running task then printk (running_task task.pid task.comm) k else k)

unfoldable pub list_children : ℤ → List Task → Kernel → Kernel
list_children pid [] k = k
list_children pid (task ∷ tasks) k =
    list_children pid tasks
      (if is_child_of pid task then printk (child_task task.pid task.state) k else k)

-- Both return 0.
unfoldable pub lkm1_init : List Task → Kernel → ℕ × Kernel
lkm1_init tasks k = (
  0,
  rcu_read_unlock
      (list_running tasks (printk listing_running (rcu_read_lock (printk module_loaded k)))),
)

unfoldable pub lkm2_init : ℤ → List Task → Kernel → ℕ × Kernel
lkm2_init given_pid tasks k = (
  0,
  rcu_read_unlock (
      list_children given_pid tasks
        (printk listing_children (rcu_read_lock (printk module_loaded k)))),
)

-- The tasks that pass a test, in their order.
unfoldable pub select : (Task → Bool) → List Task → List Task
select test [] = []
select test (task ∷ tasks) = if test task then task ∷ select test tasks else select test tasks

-- A kernel with more in its log.
abbrev pub logged : List Message → Kernel → Kernel
logged ms k = record k { log = k.log ++ ms }

logged-printk :
    (ms : List Message) (m : Message) (k : Kernel) → logged ms (printk m k) ≡ logged (m ∷ ms) k
logged-printk ms m k = ap (λ l. record k { log = l }) (append_assoc k.log (m ∷ []) ms)

logged-nil : (k : Kernel) → k ≡ logged [] k
logged-nil k = ap (λ l. record k { log = l }) (sym (append-nil k.log))

-- The lines of the two modules.
abbrev pub running_lines : List Task → List Message
running_lines tasks = map (λ t. running_task t.pid t.comm) (select is_running tasks)

abbrev pub child_lines : ℤ → List Task → List Message
child_lines pid tasks = map (λ t. child_task t.pid t.state) (select (is_child_of pid) tasks)

list_running-logged :
    (tasks : List Task) (k : Kernel) → list_running tasks k ≡ logged (running_lines tasks) k
unfolding list_running select
list_running-logged [] k = logged-nil k
list_running-logged (task ∷ tasks) k = elim (Bool-cases (is_running task)) [
  | inl yes' ↦ rw yes' (
      list_running-logged tasks (printk (running_task task.pid task.comm) k)
      ∙ logged-printk (running_lines tasks) (running_task task.pid task.comm) k)
  | inr no' ↦ rw no' (list_running-logged tasks k)
]

-- The lock that both modules take is given back.
unlocked :
    (ms : List Message) (m m' : Message) (k : Kernel)
    → rcu_read_unlock (logged ms (printk m' (rcu_read_lock (printk m k)))) ≡ logged (m ∷ m' ∷ ms) k
unlocked ms m m' k =
    let depth : suc k.rcu_depth - 1 ≡ k.rcu_depth = omega arith in
    rw depth (
      ap (λ l. record k { log = l })
        (append_assoc (k.log ++ m ∷ []) (m' ∷ []) ms ∙ append_assoc k.log (m ∷ []) (m' ∷ ms)))

-- lkm1 prints its two lines and then one for each task in state TASK_RUNNING, in the order of the
-- task list; it gives the RCU lock back and changes nothing else.
pub lkm1_init-logged :
    (tasks : List Task) (k : Kernel)
    → lkm1_init tasks k ≡ (0, logged (module_loaded ∷ listing_running ∷ running_lines tasks) k)
unfolding lkm1_init
lkm1_init-logged tasks k =
    ap (λ (k' : Kernel). let p : ℕ × Kernel = (0, k') in p)
      (ap rcu_read_unlock (list_running-logged tasks _)
        ∙ unlocked (running_lines tasks) module_loaded listing_running k)
