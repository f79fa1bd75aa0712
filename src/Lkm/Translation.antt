-- ===== src/Lkm/Translation.antt =====
-- lkm3.c: the module prints the physical address of a virtual one.
use advance_virtualization_a.Prelude.{
  suc, ◌⊎◌, inl, inr, ◌∙◌, ℕ, ◌-◌, ◌≡◌, refl, Option, none, some, List, [], ◌∷◌, ◌++◌, ℤ, ◌==◌,
  if◌then◌else◌, arith,
}
use mathlib.Core.List.{append-nil}
use advance_virtualization_a.PageWalk
use advance_virtualization_a.PageWalk.{Task, Paging, Walk, translated, missing, null_access}
use advance_virtualization_a.Lkm.Kernel.{
  Message, module_loaded, walk_failed, physical_is, Kernel, printk, rcu_read_lock, rcu_read_unlock,
}

-- The module's own copy of the walk, word for word that of `2_I/driver.c`.
abbrev pub page_table_walk : Paging → ℕ → ℤ → List Task → Walk
page_table_walk = PageWalk.page_table_walk

-- `if (translated_physical_address) printk(…)`
abbrev print_address : ℕ → Kernel → Kernel
print_address a k = if a == 0 then k else printk (physical_is a) k

-- After the walk: `none` is the access through a null pointer, with the lock still held.
after_walk : Walk → Kernel → Option (ℕ × Kernel)
after_walk (translated a) k = some (0, rcu_read_unlock (print_address a k))
after_walk (missing m) k = some (0, rcu_read_unlock (printk (walk_failed m) k))
after_walk null_access k = none

unfoldable pub lkm3_init : Paging → ℤ → ℕ → List Task → Kernel → Option (ℕ × Kernel)
unfolding after_walk
lkm3_init p given_pid given_virtual_address tasks k =
    after_walk (page_table_walk p given_virtual_address given_pid tasks)
      (rcu_read_lock (printk module_loaded k))

-- What is printed about a walk.
abbrev pub walk_lines : Walk → List Message
walk_lines (translated a) = if a == 0 then [] else physical_is a ∷ []
walk_lines (missing m) = walk_failed m ∷ []
walk_lines null_access = []

after_walk-lines :
    (w : Walk) (k : Kernel)
    → ((w ≡ null_access) × (after_walk w k ≡ none))
      ⊎ ((k' : Kernel) × (after_walk w k ≡ some (0, k'))
          × (k'.rcu_depth ≡ k.rcu_depth - 1)
          × (k'.log ≡ k.log ++ walk_lines w))
unfolding after_walk
after_walk-lines (translated a) k =
    inr (rcu_read_unlock (print_address a k), refl, ground arith, ground (arith, append-nil k.log))
after_walk-lines (missing m) k = inr (rcu_read_unlock (printk (walk_failed m) k), refl, refl, refl)
after_walk-lines null_access k = inl (refl, refl)

-- lkm3 either comes back with 0, the RCU lock given back, and one line about the walk in the log
-- (none where the address is 0), or the walk went through a null pointer.
pub lkm3_init_lem :
    (p : Paging) (pid : ℤ) (address : ℕ) (tasks : List Task) (k : Kernel)
    → ((page_table_walk p address pid tasks ≡ null_access)
        × (lkm3_init p pid address tasks k ≡ none))
      ⊎ ((k' : Kernel) × (lkm3_init p pid address tasks k ≡ some (0, k'))
          × (k'.rcu_depth ≡ k.rcu_depth)
          × (k'.log
              ≡ (k.log ++ module_loaded ∷ []) ++ walk_lines (page_table_walk p address pid tasks)))
unfolding lkm3_init
lkm3_init_lem p pid address tasks k =
    let depth : suc k.rcu_depth - 1 ≡ k.rcu_depth = omega arith in
    elim (after_walk-lines (page_table_walk p address pid tasks)
      (rcu_read_lock (printk module_loaded k))) [
        | inl h ↦ inl h
        | inr (k', runs, unlocked, lines) ↦ inr (k', runs, unlocked ∙ depth, lines)
      ]
