-- ===== src/Containers/Documented.antt =====
-- What the manual pages say of the system calls of `namespace_prog.c`.
use advance_virtualization_a.Prelude.{ℕ, ◌≡◌, ◌≢◌, true, false, some, List, ℤ}
use advance_virtualization_a.Containers.Namespaces.{Kernel}

-- What the manual pages say of the calls, for a caller with the rights that they ask for.
pub record Documented {S : Type 0} (k : Kernel S) : Type 0 where
  -- The child is new, and has a new UTS namespace; nothing else changes.
  pub cloned :
      (p : ℕ) (s : S)
      → (c : ℕ) × (s' : S) × (k.clone p s ≡ some (c, s'))
        × (k.exists c s ≡ false)
        × (k.exists c s' ≡ true)
        × ((q : ℕ) → q ≢ c → (k.exists q s' ≡ k.exists q s) × (k.uts q s' ≡ k.uts q s))
        × ((q : ℕ) → k.exists q s ≡ true → k.uts q s ≢ k.uts c s')
        × ((n : ℕ) → n ≢ k.uts c s' → k.name_of n s' ≡ k.name_of n s)
  -- The call names the caller's namespace, and no other.
  pub named :
      (p : ℕ) (name : List ℕ) (s : S)
      → (s' : S) × (k.sethostname p name s ≡ (true, s'))
        × ((q : ℕ) → (k.exists q s' ≡ k.exists q s) × (k.uts q s' ≡ k.uts q s))
        × (k.name_of (k.uts p s) s' ≡ name)
        × ((n : ℕ) → n ≢ k.uts p s → k.name_of n s' ≡ k.name_of n s)
  -- Joining a PID namespace touches no UTS namespace.
  pub pid_joined :
      (p : ℕ) (fd : ℤ) (s : S)
      → let s' = k.setns_newpid p fd s in
        ((q : ℕ) → (k.exists q s' ≡ k.exists q s) × (k.uts q s' ≡ k.uts q s))
        × ((n : ℕ) → k.name_of n s' ≡ k.name_of n s)
  -- The child is new; nothing else changes.
  pub forked :
      (p : ℕ) (s : S)
      → (c : ℕ) × (s' : S) × (k.fork p s ≡ some (c, s'))
        × (k.exists c s ≡ false)
        × (k.exists c s' ≡ true)
        × ((q : ℕ) → q ≢ c → (k.exists q s' ≡ k.exists q s) × (k.uts q s' ≡ k.uts q s))
        × ((n : ℕ) → k.name_of n s' ≡ k.name_of n s)
  -- The caller joins the UTS namespace of the process that the descriptor is for.
  pub uts_joined :
      (p target : ℕ) (s₀ s : S)
      → let s' = k.setns_newuts p (k.pidfd_open target s₀) s in
        (k.uts p s' ≡ k.uts target s)
        × ((q : ℕ) → k.exists q s' ≡ k.exists q s)
        × ((q : ℕ) → q ≢ p → k.uts q s' ≡ k.uts q s)
        × ((n : ℕ) → k.name_of n s' ≡ k.name_of n s)
  -- The process is gone; the others keep their namespaces, with their names.
  pub has_ended :
      (p : ℕ) (s : S)
      → let s' = k.ended p s in
        (k.exists p s' ≡ false)
        × ((q : ℕ) → q ≢ p → (k.exists q s' ≡ k.exists q s) × (k.uts q s' ≡ k.uts q s))
        × ((q : ℕ)
            → q ≢ p
            → k.exists q s ≡ true
            → k.name_of (k.uts q s) s' ≡ k.name_of (k.uts q s) s)
