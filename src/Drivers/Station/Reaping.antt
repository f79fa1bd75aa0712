-- ===== src/Drivers/Station/Reaping.antt =====
-- Which dead soldiers the control station reports.
use mathlib.Core.List.{append-nil, append_assoc}
use advance_virtualization_a.Prelude.{
  ℕ, ◌+◌, ◌≡◌, ◌≢◌, refl, sym, ap, ◌∙◌, true, false, List, [], ◌∷◌, ◌++◌, pos, ◌==◌, if◌then◌else◌,
  arith,
}
use advance_virtualization_a.Drivers.Station.{
  Line, started, terminated, sigchld_handler, main, Station, reaps, no_child, Step, joins, dies,
  handles, at_loop, Reach, start, later,
}

abbrev occurs : ℕ → List ℕ → ℕ
occurs x [] = 0
occurs x (y ∷ ys) = (if y == x then 1 else 0) + occurs x ys

abbrev reports_once : ℕ → Line → ℕ
reports_once x (terminated (pos pid)) = if pid == x then 1 else 0
reports_once x _ = 0

-- How often the program has printed that the process has terminated.
abbrev pub reports : ℕ → List Line → ℕ
reports x [] = 0
reports x (line ∷ lines) = reports_once x line + reports x lines

occurs-append : (x : ℕ) (xs ys : List ℕ) → occurs x (xs ++ ys) ≡ occurs x xs + occurs x ys
occurs-append x [] ys = omega arith
occurs-append x (y ∷ xs) ys = omega (arith, occurs-append x xs ys)

reports-append : (x : ℕ) (xs ys : List Line) → reports x (xs ++ ys) ≡ reports x xs + reports x ys
reports-append x [] ys = omega arith
reports-append x (y ∷ xs) ys = omega (arith, reports-append x xs ys)

-- The station runs; each death is reported, or stands among the children to wait for; and a
-- pending signal means that there is one of these.
pub record IsReaping (s : Station) : Type 0 where
  pub runs : s.process.running ≡ true
  pub accounted : (x : ℕ) → occurs x s.died ≡ reports x s.process.lines + occurs x s.zombies
  pub waiting : s.pending ≡ true → s.zombies ≢ []

start-IsReaping : (pid : ℕ) → IsReaping (at_loop pid)
unfolding main
start-IsReaping pid = record { runs = refl; accounted = λ x. refl; waiting = λ e. ground arith }

snoc-ne-nil : (xs : List ℕ) (x : ℕ) → xs ++ x ∷ [] ≢ []
snoc-ne-nil [] x e = ground arith
snoc-ne-nil (y ∷ ys) x e = ground arith

occurs-middle :
    (x pid : ℕ) (before after : List ℕ)
    → occurs x (before ++ pid ∷ after) ≡ (if pid == x then 1 else 0) + occurs x (before ++ after)
occurs-middle x pid before after =
    omega (arith, occurs-append x before (pid ∷ after), occurs-append x before after)

ruleset counting = (arith, occurs-append, reports-append, occurs-middle)

Step-IsReaping : {s t : Station} → Step s t → IsReaping s → IsReaping t
unfolding sigchld_handler
Step-IsReaping (joins pid) h = record {
  runs = h.runs;
  accounted = h.accounted;
  waiting = h.waiting;
}
Step-IsReaping {s} (dies pid before after e) h = record {
  runs = h.runs;
  accounted = λ x. grind (counting, h.accounted x);
  waiting = λ _. snoc-ne-nil s.zombies pid;
}
Step-IsReaping {s} (handles on pending (reaps pid before after e)) h = record {
  runs = on;
  accounted = λ x. let here = ap (occurs x) e in grind (counting, h.accounted x);
  waiting = λ e'. ground arith;
}
Step-IsReaping (handles on pending (no_child e _)) h = absurd (h.waiting pending e)

-- In each state that the control station reaches it still runs (`wait` never fails in the
-- handler), each death of a soldier is either reported, once, or still to be waited for, and
-- where SIGCHLD is pending there is one to wait for.
pub Reach-IsReaping : (pid : ℕ) {s : Station} → Reach pid s → IsReaping s
Reach-IsReaping pid start = start-IsReaping pid
Reach-IsReaping pid (later r st) = Step-IsReaping st (Reach-IsReaping pid r)

-- One soldier after another joins and dies, and the handler does not run.
die_in_turn :
    (pid : ℕ) (soldiers : List ℕ) {s : Station}
    → Reach pid s
    → s.alive ≡ []
    → s.pending ≡ true
    → (t : Station) × Reach pid t
      × (t.alive ≡ [])
      × (t.pending ≡ true)
      × (t.process ≡ s.process)
      × (t.zombies ≡ s.zombies ++ soldiers)
      × (t.died ≡ s.died ++ soldiers)
die_in_turn pid [] {s} r none on =
    (s, r, none, on, refl, sym (append-nil s.zombies), sym (append-nil s.died))
die_in_turn pid (q ∷ qs) {s} r none on =
    let joined = later r (joins q) in
    let (t, reach, none', on', same, zombies, died) =
      die_in_turn pid qs (later joined (dies q [] [] (rw none refl))) refl refl in
    (
      t,
      reach,
      none',
      on',
      same,
      zombies ∙ append_assoc s.zombies (q ∷ []) qs,
      died ∙ append_assoc s.died (q ∷ []) qs,
    )

-- Any number of soldiers that die before the handler runs cost the station all but one of them:
-- it reaches a state in which the first is reported, the others are dead and not waited for, and
-- no signal is pending that would make the handler run for them.
pub Reach-unreported :
    (pid q : ℕ) (qs : List ℕ)
    → (s : Station) × Reach pid s
      × (s.died ≡ q ∷ qs)
      × (s.process.lines ≡ started pid ∷ terminated (pos q) ∷ [])
      × (s.zombies ≡ qs)
      × (s.pending ≡ false)
unfolding main sigchld_handler
Reach-unreported pid q qs =
    let joined = later start (joins q) in
    let (t, reach, none, on, same, zombies, died) =
      die_in_turn pid qs (later joined (dies q [] [] refl)) refl refl in
    (
      _,
      later reach (handles (rw same refl) on (reaps q [] qs zombies)),
      died,
      rw same refl,
      refl,
      refl,
    )
