-- ===== src/Drivers/Reparent.antt =====
-- `my_ioctl` of `2_II/doom.c`, with which a soldier process becomes a child of its control station.
pub mod Links
use advance_virtualization_a.Prelude.{
  ℕ, suc, ◌+◌, ◌-◌, ◌≡◌, ◌≢◌, refl, ap, inl, inr, Bool, Bool-cases, true, false, not, ◌&&◌, ◌||◌,
  Option, none, some, List, [], ◌∷◌, ◌++◌, ℤ, ◌==◌, ==_iff, if◌then◌else◌, arith,
}
use advance_virtualization_a.Drivers.Module
use advance_virtualization_a.Drivers.Module.{Answers, Held}

-- The links between tasks, which are named by numbers: `parent`, `real_parent`, the list `children`,
-- and whether the entry `sibling` stands in a list. `rcu_depth` counts the RCU read locks held.
pub record Family : Type 0 where
  pub parent : ℕ → ℕ
  pub real_parent : ℕ → ℕ
  pub children : ℕ → List ℕ
  pub in_list : ℕ → Bool
  pub rcu_depth : ℕ

-- How the call ends: with the value it returns, in an access through the null pointer
-- `control_station`, or in `list_add_tail` of an entry that still stands in another list.
pub data Outcome : Type 0 where
  returned : ℕ → Family → Outcome
  null_access : Outcome
  corrupted_list : Outcome

-- A function with one value changed.
abbrev pub update {ℓ} : {A : Type ℓ} → (ℕ → A) → ℕ → A → ℕ → A
update f i a j = if j == i then a else f j

-- The list is searched for the entry.
abbrev pub mem : ℕ → List ℕ → Bool
mem x [] = false
mem x (y ∷ ys) = y == x || mem x ys

-- The list without the first entry for the task: `list_for_each_safe` with its `list_del`.
unfoldable pub unlink : ℕ → List ℕ → List ℕ
unlink x [] = []
unlink x (y ∷ ys) = let rest = unlink x ys in if y == x then ys else y ∷ rest

-- The loop over `current->parent->children`.
abbrev pub leave_parent : ℕ → Family → Family
leave_parent current f =
    let old = f.parent current in
    if mem current (f.children old)
    then record f {
      children = update f.children old (unlink current (f.children old));
      in_list = update f.in_list current false;
    }
    else f

-- `current->real_parent = …; current->parent = …`
abbrev pub set_parents : ℕ → ℕ → Family → Family
set_parents current station f = record f {
  parent = update f.parent current station;
  real_parent = update f.real_parent current station;
}

-- `list_add_tail(&current->sibling, &control_station->children); rcu_read_unlock();`
abbrev pub join_station : ℕ → ℕ → Family → Outcome
join_station current station f =
    if f.in_list current
    then corrupted_list
    else returned 0 (record f {
      children = update f.children station (f.children station ++ current ∷ []);
      in_list = update f.in_list current true;
      rcu_depth = f.rcu_depth - 1;
    })

abbrev pub reparent : ℕ → Option ℕ → Family → Outcome
reparent current none f = null_access
reparent current (some station) f =
    join_station current station (set_parents current station (leave_parent current f))

-- `pid_task(find_get_pid(pid), PIDTYPE_PID)` is the kernel's; `none` as argument is a failure of
-- `copy_from_user`, and leaves the switch.
abbrev pub locked : (ℤ → Option ℕ) → ℕ → Option ℤ → Family → Outcome
locked pid_task current none f = returned 0 f
locked pid_task current (some pid) f = reparent current (pid_task pid) f

-- The command is IOCTL_SEND_SIGCHLD_SIGNAL, or another.
pub data Command : Type 0 where
  send_sigchld_signal : Option ℤ → Command
  other_command : Command

unfoldable pub my_ioctl : (ℤ → Option ℕ) → ℕ → Command → Family → Outcome
my_ioctl pid_task current other_command f = returned 0 f
my_ioctl pid_task current (send_sigchld_signal arg) f =
    locked pid_task current arg (record f { rcu_depth = suc f.rcu_depth })

-- The module's set-up and its release: its own copies of those of driver.c, word for word.
abbrev my_init : Answers → Held → ℤ × Held
my_init = Module.my_init

abbrev my_exit : Held → Held
my_exit = Module.my_exit
