-- ===== src/Guest/Traced.antt =====
-- The exits that a guest's program causes, as `run_vm` of simple-kvm.c gets them.
pub mod Programs
pub mod Whole
use advance_virtualization_a.Prelude.{
  ℕ, ◌≡◌, refl, sym, subst, ◌∙◌, ap, Option, none, some, List, [], ◌∷◌, ◌++◌, arith,
}
use mathlib.Core.List.{append_assoc, append-nil}
use advance_virtualization_a.Memory.{Bytes}
use advance_virtualization_a.SimpleKvm.{
  KvmRun, KvmEnv, Host, Step, resume, halted, exit_failure, out_of_bounds, handle_exit, RunResult,
  exited, RunOutcome, run_vm, with_bytes, Direction, io_in, load_u32,
}
use advance_virtualization_a.Guest.Machine.{
  Machine, Guest, pure, ◌>>=◌, ◌>>◌, io_exit, leaves, after_exit, exits_with, outb, outl, inl,
}

-- The hypervisor's state `h` between two exits, while the guest has come to `m`: what the guest has
-- written to its memory meanwhile is handed over at its next exit.
abbrev pub Matches : Host → Machine → Type 0
Matches h m = with_bytes m.host.mem.bytes h ≡ m.host

pub second_of :
    {A : Type 0} {a b : A} {m n : Machine}
    → ◌≡◌ {A = Option (A × Machine)} (some (a, m)) (some (b, n))
    → m ≡ n
second_of e = cc

module _ (env : KvmEnv) (regs : Option ℕ) (sz : ℕ) where
  -- What a program that goes from `m` to `m'` causes: results of KVM_RUN that take `run_vm` from a
  -- state that matches the one to a state that matches the other.
  pub record Trace (h : Host) (m m' : Machine) : Type 0 where
    pub results : List RunResult
    pub logged : m'.exits ≡ m.exits ++ results
    pub host : Host
    pub matches : Matches host m'
    pub runs :
        (rest : List RunResult)
        → run_vm env regs sz (results ++ rest) h ≡ run_vm env regs sz rest host

  -- Wherever the program runs to its end, the results that it causes take `run_vm` along.
  pub IsTraced : {A : Type 0} → Guest A → Type 0
  IsTraced {A} c =
      (m m' : Machine) (a : A) (h : Host) → c m ≡ some (a, m') → Matches h m → Trace h m m'

  -- A step that only reads.
  pub read-IsTraced : {A : Type 0} (g : Machine → A) → IsTraced (λ m. some (g m, m))
  unfolding IsTraced
  read-IsTraced g m m' a' h e same = record {
    results = [];
    logged = sym (ap (λ k. k.exits) (second_of e)) ∙ sym (append-nil m.exits);
    host = h;
    matches = subst (Matches h) (second_of e) same;
    runs = λ rest. refl;
  }

  -- A step that changes the variable `turn` alone.
  pub turn-IsTraced :
      {A : Type 0} (g : Machine → A) (t : Machine → ℕ)
      → IsTraced (λ m. some (g m, record m { turn = t m }))
  unfolding IsTraced
  turn-IsTraced g t m m' a h e same = record {
    results = [];
    logged = sym (ap (λ k. k.exits) (second_of e)) ∙ sym (append-nil m.exits);
    host = h;
    matches = subst (Matches h) (second_of e) same;
    runs = λ rest. refl;
  }

  pub bind-IsTraced :
      {A B : Type 0} (c : Guest A) (f : A → Guest B)
      → IsTraced c
      → ((a : A) → IsTraced (f a))
      → IsTraced (c >>= f)
  unfolding IsTraced
  bind-IsTraced {A} {B} c f tc tf m m' b h e same = go (c m) refl e
    where
      go :
          (o : Option (A × Machine))
          → c m ≡ o
          → (elim o [ none ↦ none | some (a, m₁) ↦ f a m₁ ]) ≡ some (b, m')
          → Trace h m m'
      go none e₁ e₂ = ground arith
      go (some (a, m₁)) e₁ e₂ =
          let first = tc m m₁ a h e₁ same in
          let second = tf a m₁ m' b first.host e₂ first.matches in
          record {
            results = first.results ++ second.results;
            logged =
                second.logged
                ∙ ap (λ l. l ++ second.results) first.logged
                ∙ append_assoc m.exits first.results second.results;
            host = second.host;
            matches = second.matches;
            runs = λ rest.
                ap (λ l. run_vm env regs sz l h) (append_assoc first.results second.results rest)
                ∙ (first.runs (second.results ++ rest) ∙ second.runs rest);
          }

  -- One exit with a port instruction.
  exit-Trace :
      (run : KvmRun) (m m' : Machine) (h : Host)
      → exits_with env run m ≡ some (tt, m')
      → Matches h m
      → Trace h m m'
  unfolding run_vm
  exit-Trace run m m' h e same = go (handle_exit env run m.host) refl e
    where
      go :
          (s : Step)
          → handle_exit env run m.host ≡ s
          → after_exit (leaves run m) s ≡ some (tt, m')
          → Trace h m m'
      go (resume h' page) e₁ e₂ = record {
        results = exited m.host.mem.bytes run ∷ [];
        logged = sym (ap (λ k. k.exits) (second_of e₂));
        host = h';
        matches = subst (λ k. with_bytes k.mem.bytes h' ≡ k) (ap (λ k. k.host) (second_of e₂)) refl;
        runs = λ rest. rw (run_vm, same, e₁) refl;
      }
      go (halted h') e₁ e₂ = ground arith
      go (exit_failure h') e₁ e₂ = ground arith
      go out_of_bounds e₁ e₂ = ground arith

  pub outb-IsTraced : (port value : ℕ) → IsTraced (outb env port value)
  unfolding IsTraced outb
  outb-IsTraced port value m m' a h e same = exit-Trace _ m m' h e same

  pub outl-IsTraced : (port value : ℕ) → IsTraced (outl env port value)
  unfolding IsTraced outl
  outl-IsTraced port value m m' a h e same = exit-Trace _ m m' h e same

  asks-IsTraced : (port : ℕ) → IsTraced (λ m. exits_with env (io_exit io_in port 4 m.io_page) m)
  unfolding IsTraced
  asks-IsTraced port m m' a h e same = exit-Trace _ m m' h e same

  pub inl-IsTraced : (port : ℕ) → IsTraced (inl env port)
  unfolding inl
  inl-IsTraced port =
      bind-IsTraced _ _ (asks-IsTraced port) (λ _. read-IsTraced (λ m. load_u32 m.io_page))
