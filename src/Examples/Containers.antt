-- ===== src/Examples/Containers.antt =====
-- namespace_prog.c on a small kernel.
use advance_virtualization_a.Prelude.{
  ℕ, zero, suc, ◌+◌, ◌<◌, ◌≡◌, ◌↔◌, refl, Bool, true, false, ◌&&◌, none, some, List, [], ◌∷◌, ℤ,
  pos, negsuc, codes, arith, ltb, ◌==◌, if◌then◌else◌,
}
use advance_virtualization_a.Containers.Namespaces.{
  Kernel, Line, parent_is, child2_is, exited, waits_forever, main,
}
use advance_virtualization_a.Containers.Documented.{Documented}
use advance_virtualization_a.Containers.Children.{new_name}
use advance_virtualization_a.Containers.Hostnames.{main-hostnames}
use advance_virtualization_a.Containers.Waits.{main-waits_forever_iff}

-- The live processes are those numbers below `next` for which `alive` holds; `ns` gives their
-- namespaces.
record System : Type 0 where
  next : ℕ
  alive : ℕ → Bool
  ns : ℕ → ℕ
  names : ℕ → List ℕ

abbrev set {ℓ} : {A : Type ℓ} → (ℕ → A) → ℕ → A → ℕ → A
set f i a j = if j == i then a else f j

-- A number that is none of the first `n` values.
unfoldable fresh : ℕ → (ℕ → ℕ) → ℕ
fresh zero f = 1
fresh (suc n) f = f n + 1 + fresh n f

fresh-above : (n : ℕ) (f : ℕ → ℕ) (q : ℕ) → q < n → f q < fresh n f
unfolding fresh
fresh-above zero f q lt = elim lt [ ]
fresh-above (suc n) f q lt = ground (arith, fresh-above n f q)

abbrev join : ℕ → ℤ → System → System
join p (pos target) s = record s { ns = set s.ns p (s.ns target) }
join p (negsuc _) s = s

abbrev kernel : Kernel System
kernel = record {
  exists = λ q s. ltb q s.next && s.alive q;
  uts = λ q s. s.ns q;
  name_of = λ n s. s.names n;
  getpid = λ q s. q;
  sethostname = λ p name s. (true, record s { names = set s.names (s.ns p) name });
  clone = λ p s.
      let n = fresh s.next s.ns in
      some (
        s.next,
        record {
          next = suc s.next;
          alive = set s.alive s.next true;
          ns = set s.ns s.next n;
          names = set s.names n (s.names (s.ns p));
        },
      );
  pidfd_open = λ q s. pos q;
  setns_newpid = λ p fd s. s;
  setns_newuts = join;
  fork = λ p s. some (
    s.next,
    record s { next = suc s.next; alive = set s.alive s.next true; ns = set s.ns s.next (s.ns p) },
  );
  ended = λ p s. record s { alive = set s.alive p false };
}

kernel-Documented : Documented kernel
kernel-Documented = record {
  cloned = λ p s. (
    _,
    _,
    refl,
    ground arith,
    ground arith,
    λ q other. (ground arith, ground arith),
    λ q lives. ground (arith, fresh-above s.next s.ns q),
    λ n other. ground arith,
  );
  named = λ p name s. (_, refl, λ q. (refl, refl), ground arith, λ n other. ground arith);
  pid_joined = λ p fd s. (λ q. (refl, refl), λ n. refl);
  forked = λ p s.
      (_, _, refl, ground arith, ground arith, λ q other. (ground arith, ground arith), λ n. refl);
  uts_joined = λ p target s₀ s. (ground arith, λ q. refl, λ q other. ground arith, λ n. refl);
  has_ended = λ p s. (ground arith, λ q other. (ground arith, refl), λ q other lives. refl);
}

abbrev booted : System
booted = record { next = 1; alive = λ _. true; ns = λ _. 7; names = λ _. codes "host" }

-- The output goes to a file.
main-hostnames_example :
    let old = some (codes "host") in
    (p₁ c₁ p₂ c₂ p₃ : ℕ) × (s' : System) × (main kernel false true true 0 booted
      ≡ exited 0
          (parent_is p₁ old
            ∷ parent_is p₂ old
            ∷ child2_is c₂ (some new_name)
            ∷ parent_is p₁ old
            ∷ parent_is p₂ old
            ∷ parent_is p₃ old
            ∷ [])
          s')
    × ((q : ℕ) → kernel.exists q s' ≡ kernel.exists q booted)
main-hostnames_example = main-hostnames kernel kernel-Documented false 0 booted refl (omega arith)

-- A kernel that has no room for the second child.
abbrev full_kernel : Kernel System
full_kernel = record kernel { fork = λ p s. none }

main-waits_forever_iff_example :
    ((written : List Line) × (s' : System) × (main full_kernel true true true 0 booted
        ≡ waits_forever written s'))
    ↔ ((true ≡ true)
        × (true ≡ true)
        × (child : ℕ) × (s₁ : System) × (s₂ : System) × (full_kernel.clone 0 booted
            ≡ some (child, s₁))
        × (full_kernel.sethostname child new_name s₁ ≡ (true, s₂))
        × (full_kernel.fork 0 (full_kernel.setns_newpid 0 (full_kernel.pidfd_open child s₂) s₂)
            ≡ none))
main-waits_forever_iff_example = main-waits_forever_iff full_kernel true true true 0 booted

-- The program hangs there, as it prints the first child's line.
full_kernel_hangs :
    (written : List Line) × (s' : System) × (main full_kernel true true true 0 booted
      ≡ waits_forever written s')
full_kernel_hangs =
    (main-waits_forever_iff full_kernel true true true 0 booted).1
      (refl, refl, _, _, _, refl, refl, refl)
