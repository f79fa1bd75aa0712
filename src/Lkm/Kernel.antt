-- ===== src/Lkm/Kernel.antt =====
-- What the modules change in the kernel: the log, the depth of RCU read locks, and the number of users
-- of each address space.
use advance_virtualization_a.Prelude.{ℕ, suc, ◌-◌, List, [], ◌∷◌, ◌++◌, ℤ, ◌==◌, if◌then◌else◌}
use advance_virtualization_a.PageWalk.{Missing}

-- The messages of the modules.
pub data Message : Type 0 where
  module_loaded : Message
  module_unloaded : Message
  listing_running : Message
  running_task : ℤ → List ℕ → Message
  listing_children : Message
  child_task : ℤ → ℕ → Message
  walk_failed : Missing → Message
  physical_is : ℕ → Message
  pid_not_found : Message
  mm_not_found : Message
  virtual_size : ℕ → Message
  physical_size : ℕ → Message

pub record Kernel : Type 0 where
  pub log : List Message
  pub rcu_depth : ℕ
  pub mm_users : ℕ → ℕ

abbrev pub printk : Message → Kernel → Kernel
printk m k = record k { log = k.log ++ m ∷ [] }

abbrev pub rcu_read_lock : Kernel → Kernel
rcu_read_lock k = record k { rcu_depth = suc k.rcu_depth }

abbrev pub rcu_read_unlock : Kernel → Kernel
rcu_read_unlock k = record k { rcu_depth = k.rcu_depth - 1 }

-- `get_task_mm` takes a reference, which `mmput` would give back.
abbrev pub take_mm : ℕ → Kernel → Kernel
take_mm mm k = record k { mm_users = λ m. if m == mm then suc (k.mm_users m) else k.mm_users m }

-- `lkm1_exit`, `lkm2_exit`, `lkm3_exit` and `lkm4_exit` print one line each, of their own module.
abbrev lkm1_exit : Kernel → Kernel
lkm1_exit = printk module_unloaded

abbrev lkm2_exit : Kernel → Kernel
lkm2_exit = printk module_unloaded

abbrev lkm3_exit : Kernel → Kernel
lkm3_exit = printk module_unloaded

abbrev lkm4_exit : Kernel → Kernel
lkm4_exit = printk module_unloaded
