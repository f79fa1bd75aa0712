-- ===== src/Containers/Children.antt =====
-- The two children of `namespace_prog.c`: which names of hosts the processes see once they run, and
-- which processes are left when they have ended.
use native.Mathlib.Decide.{ℕ_discrete}
use advance_virtualization_a.Prelude.{
  ℕ, ◌<◌, ◌≡◌, ◌≢◌, refl, ◌∙◌, sym, true, false, some, List, codes, length, lt→ltb,
}
use advance_virtualization_a.Containers.Namespaces.{Kernel, gethostname}
use advance_virtualization_a.Containers.Documented.{Documented}

-- The name that the first child gives.
abbrev pub new_name : List ℕ
new_name = codes "Child1Hostname"

module _ {S : Type 0} (k : Kernel S) where
  -- A live process, and the name of its namespace.
  pub record Sees (q : ℕ) (s : S) (name : List ℕ) : Type 0 where
    pub lives : k.exists q s ≡ true
    pub named : k.name_of (k.uts q s) s ≡ name

  -- A step that keeps a process, its namespace and the name of that.
  Sees-kept :
      {q : ℕ} {s s' : S} {name : List ℕ}
      → Sees q s name
      → k.exists q s' ≡ k.exists q s
      → k.uts q s' ≡ k.uts q s
      → k.name_of (k.uts q s) s' ≡ k.name_of (k.uts q s) s
      → Sees q s' name
  Sees-kept h lives same name = record { lives = lives ∙ h.lives; named = rw same (name ∙ h.named) }

  -- A live process is none that is not there.
  pub ne-absent : {q c : ℕ} {s : S} → k.exists q s ≡ true → k.exists c s ≡ false → q ≢ c
  ne-absent there absent e = cc

  pub gethostname-Sees :
      {q : ℕ} {s : S} {name : List ℕ}
      → length name < 32
      → Sees q s name
      → gethostname k q s ≡ some name
  unfolding gethostname
  gethostname-Sees short h = rw h.named (rw (lt→ltb _ _ short) refl)

-- The first child runs, and has named its namespace.
pub record FirstChild {S : Type 0} (k : Kernel S) (parent : ℕ) (s : S) : Type 0 where
  pub child : ℕ
  pub cloned : S
  pub renamed : S
  pub clones : k.clone parent s ≡ some (child, cloned)
  pub renames : k.sethostname child new_name cloned ≡ (true, renamed)
  pub absent : k.exists child s ≡ false
  pub sees_new : Sees k child renamed new_name
  pub sees_old : Sees k parent renamed (k.name_of (k.uts parent s) s)
  pub others : (q : ℕ) → q ≢ child → k.exists q renamed ≡ k.exists q s

-- The second child runs, and has joined the namespace of the target.
pub record SecondChild {S : Type 0} (k : Kernel S) (parent target : ℕ) (s : S) : Type 0 where
  pub child : ℕ
  pub forked : S
  pub forks : k.fork parent (k.setns_newpid parent (k.pidfd_open target s) s) ≡ some (child, forked)
  pub absent : k.exists child s ≡ false
  pub joins :
      (q : ℕ) (name : List ℕ)
      → Sees k q s name
      → Sees k q (k.setns_newpid parent (k.pidfd_open target s) s) name
        × Sees k q (k.setns_newuts child (k.pidfd_open target s) forked) name
  pub sees_joined :
      (name : List ℕ)
      → Sees k target s name
      → Sees k child (k.setns_newuts child (k.pidfd_open target s) forked) name
  pub others :
      (q : ℕ)
      → q ≢ child
      → k.exists q (k.setns_newuts child (k.pidfd_open target s) forked) ≡ k.exists q s

module _ {S : Type 0} (k : Kernel S) (laws : Documented k) where
  pub first_child : (parent : ℕ) (s : S) → k.exists parent s ≡ true → FirstChild k parent s
  first_child parent s alive =
      let (c, s₁, clones, absent, born, same₁, apart, names₁) = laws.cloned parent s in
      let (s₂, renames, same₂, mine, names₂) = laws.named c new_name s₁ in
      let (there₁, kept₁) = same₁ parent (ne-absent k alive absent) in
      let before : Sees k parent s₁ (k.name_of (k.uts parent s) s) = record {
        lives = there₁ ∙ alive;
        named = rw kept₁ (names₁ _ (apart parent alive));
      } in
      record {
        child = c;
        cloned = s₁;
        renamed = s₂;
        clones = clones;
        renames = renames;
        absent = absent;
        sees_new = record { lives = (same₂ c).0 ∙ born; named = rw (same₂ c).1 mine };
        sees_old =
            Sees-kept k before (same₂ parent).0 (same₂ parent).1
              (names₂ _ (rw kept₁ (apart parent alive)));
        others = λ q other. (same₂ q).0 ∙ (same₁ q other).0;
      }

  pub second_child : (parent target : ℕ) (s : S) → SecondChild k parent target s
  second_child parent target s =
      let fd = k.pidfd_open target s in
      let s₁ = k.setns_newpid parent fd s in
      let (same₁, names₁) = laws.pid_joined parent fd s in
      let (c, s₂, forks, absent, born, same₂, names₂) = laws.forked parent s₁ in
      let (joined, there₃, same₃, names₃) = laws.uts_joined c target s s₂ in
      let step₁ : (q : ℕ) (name : List ℕ) → Sees k q s name → Sees k q s₁ name =
        λ q name h. Sees-kept k h (same₁ q).0 (same₁ q).1 (names₁ _) in
      let step₂ : (q : ℕ) (name : List ℕ) → Sees k q s name → Sees k q s₂ name = λ q name h.
        let h₁ = step₁ q name h in
        let (there, kept) = same₂ q (ne-absent k h₁.lives absent) in
        Sees-kept k h₁ there kept (names₂ _) in
      record {
        child = c;
        forked = s₂;
        forks = forks;
        absent = sym (same₁ c).0 ∙ absent;
        joins = λ q name h. (
          step₁ q name h,
          Sees-kept k (step₂ q name h) (there₃ q)
              (same₃ q (ne-absent k (step₁ q name h).lives absent)) (names₃ _),
        );
        sees_joined = λ name h. record {
          lives = there₃ c ∙ born;
          named = rw joined (names₃ _ ∙ (step₂ target name h).named);
        };
        others = λ q other. there₃ q ∙ (same₂ q other).0 ∙ (same₁ q).0;
      }

  -- A process that sees a name goes on to see it when another one ends.
  pub ended-Sees :
      {q p : ℕ} {s : S} {name : List ℕ} → Sees k q s name → q ≢ p → Sees k q (k.ended p s) name
  ended-Sees {q} {p} {s} h other =
      let (gone, same, names) = laws.has_ended p s in
      Sees-kept k h (same q other).0 (same q other).1 (names q other h.lives)

  -- After the ends of two new processes only those remain that there were before.
  pub remaining :
      (c₁ c₂ q : ℕ) (s s₂ s₅ : S)
      → k.exists c₁ s ≡ false
      → k.exists c₂ s₂ ≡ false
      → ((r : ℕ) → r ≢ c₁ → k.exists r s₂ ≡ k.exists r s)
      → ((r : ℕ) → r ≢ c₂ → k.exists r s₅ ≡ k.exists r s₂)
      → k.exists q (k.ended c₁ (k.ended c₂ s₅)) ≡ k.exists q s
  remaining c₁ c₂ q s s₂ s₅ absent₁ absent₂ others₁ others₂ =
      let (gone₁, same₁, _) = laws.has_ended c₁ (k.ended c₂ s₅) in
      let (gone₂, same₂, _) = laws.has_ended c₂ s₅ in
      elim (ℕ_discrete q c₁) [
        | yes e ↦ rw e (gone₁ ∙ sym absent₁)
        | no ne₁ ↦ elim (ℕ_discrete q c₂) [
          | yes e ↦
              let ne : c₂ ≢ c₁ = λ f. ne₁ (e ∙ f) in
              rw e ((same₁ c₂ ne).0 ∙ gone₂ ∙ sym absent₂ ∙ others₁ c₂ ne)
          | no ne₂ ↦ (same₁ q ne₁).0 ∙ (same₂ q ne₂).0 ∙ others₂ q ne₂ ∙ others₁ q ne₁
        ]
      ]
