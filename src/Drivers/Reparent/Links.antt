-- ===== src/Drivers/Reparent/Links.antt =====
-- What the `my_ioctl` of `2_II/doom.c` does to the links between tasks.
use advance_virtualization_a.Prelude.{
  ℕ, suc, ◌+◌, ◌-◌, ◌≡◌, ◌≢◌, refl, true, false, ◌&&◌, Option, none, some, List, [], ◌∷◌, ◌++◌, ℤ,
  ◌==◌, if◌then◌else◌, arith,
}
use advance_virtualization_a.Drivers.Reparent.{
  Family, returned, corrupted_list, update, mem, unlink, Command, send_sigchld_signal,
  other_command, my_ioctl,
}

-- How often a task stands in a list.
unfoldable pub count : ℕ → List ℕ → ℕ
count x [] = 0
count x (y ∷ ys) = (if y == x then 1 else 0) + count x ys

-- The kernel's invariant: a task whose `sibling` entry is in a list stands once, among the children
-- of its real parent, and any other task nowhere.
unfoldable pub IsLinked : Family → Type 0
IsLinked f =
    (x p : ℕ) → count x (f.children p) ≡ (if f.in_list x && (f.real_parent x == p) then 1 else 0)

count-append : (x : ℕ) (xs ys : List ℕ) → count x (xs ++ ys) ≡ count x xs + count x ys
unfolding count
count-append x [] ys = omega arith
count-append x (y ∷ xs) ys = omega (arith, count-append x xs ys)

mem-count : (x : ℕ) (xs : List ℕ) → count x xs ≡ 1 → mem x xs ≡ true
unfolding count
mem-count x [] e = ground arith
mem-count x (y ∷ ys) e = ground (arith, mem-count x ys)

mem-count_zero : (x : ℕ) (xs : List ℕ) → count x xs ≡ 0 → mem x xs ≡ false
unfolding count
mem-count_zero x [] e = refl
mem-count_zero x (y ∷ ys) e = ground (arith, mem-count_zero x ys)

count-unlink :
    (x z : ℕ) (xs : List ℕ)
    → count x xs ≡ 1
    → count z (unlink x xs) ≡ (if z == x then 0 else count z xs)
unfolding count unlink
count-unlink x z [] e = ground arith
count-unlink x z (y ∷ ys) e = ground (arith, count-unlink x z ys)

-- The lists once the task has left its parent's, and once it has joined its station's.
abbrev left : ℕ → Family → ℕ → List ℕ
left current f =
    update f.children (f.parent current) (unlink current (f.children (f.parent current)))

abbrev moved : ℕ → ℕ → Family → Family
moved current station f = record f {
  parent = update f.parent current station;
  real_parent = update f.real_parent current station;
  children = update (left current f) station (left current f station ++ current ∷ []);
  in_list = update (update f.in_list current false) current true;
}

module _ (current : ℕ) (f : Family) (linked : IsLinked f) where
  listed :
      f.in_list current ≡ true
      → f.parent current ≡ f.real_parent current
      → count current (f.children (f.parent current)) ≡ 1
  unfolding IsLinked
  listed in_list same = ground (arith, linked current (f.parent current))

  -- Without the task, the lists are as before.
  count-left :
      (x p : ℕ)
      → f.in_list current ≡ true
      → f.parent current ≡ f.real_parent current
      → count x (left current f p) ≡ (if x == current then 0 else count x (f.children p))
  unfolding IsLinked
  count-left x p in_list same = ground (
    arith,
    linked current p,
    count-unlink current x (f.children (f.parent current)) (listed in_list same),
  )

  moved-IsLinked :
      (station : ℕ)
      → f.in_list current ≡ true
      → f.parent current ≡ f.real_parent current
      → IsLinked (moved current station f)
  unfolding IsLinked count
  moved-IsLinked station in_list same x p = ground (
    arith,
    linked x p,
    count-left x p in_list same,
    count-append x (left current f p) (current ∷ []),
  )

my_ioctl-moved :
    (pid_task : ℤ → Option ℕ) (current : ℕ) (pid : ℤ) (station : ℕ) (f : Family)
    → pid_task pid ≡ some station
    → IsLinked f
    → f.in_list current ≡ true
    → f.parent current ≡ f.real_parent current
    → my_ioctl pid_task current (send_sigchld_signal (some pid)) f
      ≡ returned 0 (moved current station f)
unfolding my_ioctl
my_ioctl-moved pid_task current pid station f found linked in_list same =
    let once = listed current f linked in_list same in
    let found_in = mem-count current (f.children (f.parent current)) once in
    let self : (current == current) ≡ true = ground arith in
    let depth : suc f.rcu_depth - 1 ≡ f.rcu_depth = omega arith in
    rw found (rw found_in (rw self (rw depth refl)))

-- A task that is not traced (its parent is its real parent) and stands in a list moves to a
-- process that is found, where each task in a list stands once, among the children of its real
-- parent: the call returns 0, gives the RCU read lock back, makes the task the last child of its
-- new parent, changes no other task's parent, and leaves each task in a list once, among the
-- children of its real parent.
pub my_ioctl-reparents :
    (pid_task : ℤ → Option ℕ) (current : ℕ) (pid : ℤ) (station : ℕ) (f : Family)
    → pid_task pid ≡ some station
    → IsLinked f
    → f.in_list current ≡ true
    → f.parent current ≡ f.real_parent current
    → (f' : Family) × (my_ioctl pid_task current (send_sigchld_signal (some pid)) f ≡ returned 0 f')
      × IsLinked f'
      × (f'.parent ≡ update f.parent current station)
      × (f'.real_parent ≡ update f.real_parent current station)
      × (f'.rcu_depth ≡ f.rcu_depth)
      × ((earlier : List ℕ) × (f'.children station ≡ earlier ++ current ∷ []))
my_ioctl-reparents pid_task current pid station f found linked in_list same = (
  moved current station f,
  my_ioctl-moved pid_task current pid station f found linked in_list same,
  moved-IsLinked current f linked station in_list same,
  refl,
  refl,
  refl,
  (left current f station, ground arith),
)

-- Where the new parent is not the one before, the task joins the children that it has.
pub my_ioctl-joins :
    (pid_task : ℤ → Option ℕ) (current : ℕ) (pid : ℤ) (station : ℕ) (f : Family)
    → pid_task pid ≡ some station
    → IsLinked f
    → f.in_list current ≡ true
    → f.parent current ≡ f.real_parent current
    → f.parent current ≢ station
    → (f' : Family) × (my_ioctl pid_task current (send_sigchld_signal (some pid)) f ≡ returned 0 f')
      × IsLinked f'
      × (f'.children station ≡ f.children station ++ current ∷ [])
my_ioctl-joins pid_task current pid station f found linked in_list same other = (
  moved current station f,
  my_ioctl-moved pid_task current pid station f found linked in_list same,
  moved-IsLinked current f linked station in_list same,
  ground arith,
)

-- For a task that is traced (its parent, the tracer, is not its real parent) and stands in the
-- list of its real parent, where each task in a list stands once, the loop looks in the list of
-- the tracer: the call goes on to add an entry that still stands in another list.
pub my_ioctl-traced :
    (pid_task : ℤ → Option ℕ) (current : ℕ) (pid : ℤ) (station : ℕ) (f : Family)
    → pid_task pid ≡ some station
    → IsLinked f
    → f.in_list current ≡ true
    → f.parent current ≢ f.real_parent current
    → my_ioctl pid_task current (send_sigchld_signal (some pid)) f ≡ corrupted_list
unfolding my_ioctl IsLinked
my_ioctl-traced pid_task current pid station f found linked in_list other =
    let nowhere : count current (f.children (f.parent current)) ≡ 0 =
      ground (arith, linked current (f.parent current)) in
    let not_found = mem-count_zero current (f.children (f.parent current)) nowhere in
    rw found (rw not_found (rw in_list refl))

-- A call that returns, returns 0, and leaves as many RCU read locks held as before, but for a
-- call whose `copy_from_user` fails: it leaves one more.
pub my_ioctl-rcu :
    (pid_task : ℤ → Option ℕ) (current : ℕ) (command : Command) (f f' : Family) (ret : ℕ)
    → my_ioctl pid_task current command f ≡ returned ret f'
    → (ret ≡ 0)
      × (f'.rcu_depth
          ≡ (elim command [ send_sigchld_signal none ↦ suc f.rcu_depth | _ ↦ f.rcu_depth ]))
unfolding my_ioctl
my_ioctl-rcu pid_task current other_command f f' ret e = ground arith
my_ioctl-rcu pid_task current (send_sigchld_signal none) f f' ret e = ground arith
my_ioctl-rcu pid_task current (send_sigchld_signal (some pid)) f f' ret e = ground arith
