-- ===== src/Guest/Start/Steps.antt =====
-- The hypercalls of guest.c as steps between machines of which the counters, the memory and the
-- output are known.
use advance_virtualization_a.Prelude.{
  length, ℕ, ◌+◌, ◌%◌, ◌^◌, ◌≤◌, ◌<◌, ◌≡◌, refl, Option, none, some, List, [], ◌∷◌, ◌++◌, arith,
  codes, ◌∙◌, ap,
}
use mathlib.Core.List.{append-nil, append_assoc}
use advance_virtualization_a.Memory.{u32, Ram, read_string}
use advance_virtualization_a.Memory.Decimal.{show_u32}
use advance_virtualization_a.SimpleKvm.{KvmEnv, exits_text}
use advance_virtualization_a.Guest.Machine.{Machine, Guest, ◌>>=◌}
use advance_virtualization_a.Guest.Calls.{
  Arrays, array_of_turn, hc_print8bit, hc_print32bit, hc_num_exits, hc_print_str, hc_gva_to_hva,
  hc_num_exits_by_type,
}
use advance_virtualization_a.Guest.Ports.{
  counted_in, at_in, wrote, outb-byte, outl-value, outl-string,
}
use advance_virtualization_a.Guest.Translate.{seen_hva, complaint, hc_gva_to_hva_lem}
use advance_virtualization_a.Guest.Counts.{hc_num_exits_lem, written}
use advance_virtualization_a.Guest.ByType.{after_call, hc_num_exits_by_type-runs, u32-address}
use advance_virtualization_a.Guest.Start.{print_chars}

-- The counters are far from their bound.
pub record IsAt (m : Machine) (ins outs turn : ℕ) (mem : Ram) (out : List ℕ) : Type 0 where
  pub ins_eq : m.host.exits_due_to_io_in ≡ ins
  pub outs_eq : m.host.exits_due_to_io_out ≡ outs
  pub total_eq : m.host.total_exits ≡ ins + outs
  pub turn_eq : m.turn ≡ turn
  pub mem_eq : m.host.mem ≡ mem
  pub out_eq : m.host.stdout ≡ out
  pub small : ins + outs < 1000

-- A computation that gives `a` and a machine with the given counters, memory and output.
pub record Reaches {A : Type 0} (c : Guest A) (m : Machine) (a : A) (ins outs turn : ℕ) (mem : Ram)
    (out : List ℕ) : Type 0 where
  pub machine : Machine
  pub runs : c m ≡ some (a, machine)
  pub at : IsAt machine ins outs turn mem out

module _ (env : KvmEnv) (m : Machine) {i o t : ℕ} {mem : Ram} {out : List ℕ}
    (at : IsAt m i o t mem out) where
  pub print32-Reaches :
      (v : ℕ)
      → v < 2 ^ 32
      → i + (o + 1) < 1000
      → Reaches (hc_print32bit env v) m tt i (o + 1) t mem (out ++ (show_u32 v ++ codes "\n"))
  unfolding hc_print32bit
  print32-Reaches v lt room =
      let e : u32 v ≡ v = omega arith in
      record { machine = _; runs = outl-value env m v; at = rw e (ground arith) }

  pub print8-Reaches :
      (v : ℕ)
      → i + (o + 1) < 1000
      → Reaches (hc_print8bit env v) m tt i (o + 1) t mem (out ++ v % 256 ∷ [])
  unfolding hc_print8bit
  print8-Reaches v room = record { machine = _; runs = outb-byte env m v; at = ground arith }

  pub print_str-Reaches :
      (str : ℕ) (text : List ℕ)
      → read_string mem (u32 str) ≡ some text
      → i + (o + 1) < 1000
      → Reaches (hc_print_str env str) m tt i (o + 1) t mem (out ++ text)
  unfolding hc_print_str
  print_str-Reaches str text found room =
      let e : u32 (u32 str) ≡ u32 str = omega arith in
      record {
        machine = _;
        runs = outl-string env m (u32 str) text (rw e (rw at.mem_eq found));
        at = ground arith;
      }

  pub num_exits-Reaches :
      i + 1 + o < 1000 → Reaches (hc_num_exits env) m (i + 1 + o) (i + 1) o t mem out
  num_exits-Reaches room =
      let e : u32 (m.host.total_exits + 1) ≡ i + 1 + o = omega arith in
      record {
        machine = wrote (at_in 0xF4 m) (counted_in m.host) (u32 (m.host.total_exits + 1));
        runs = hc_num_exits_lem env m ∙ rw e refl;
        at = ground arith;
      }

  pub gva_to_hva-Reaches :
      (gva : ℕ)
      → gva < 2 ^ 32
      → i + 1 + (o + 1) < 1000
      → Reaches
          (hc_gva_to_hva env gva)
          m
          (seen_hva env (env.kvm_translate gva))
          (i + 1)
          (o + 1)
          t
          mem
          (out ++ complaint (env.kvm_translate gva))
  gva_to_hva-Reaches gva lt room =
      let (m', runs, exits, printed) = hc_gva_to_hva_lem env gva m lt in
      record { machine = m'; runs = runs; at = ground arith }

  pub by_type-Reaches :
      (s : Arrays)
      → array_of_turn s t + 100 ≤ mem.size
      → i + 1 + (o + 1) < 1000
      → Reaches
          (hc_num_exits_by_type env s)
          m
          (array_of_turn s t)
          (i + 1)
          (o + 1)
          ((t + 1) % 10)
          (written env (exits_text (i + 1) (o + 1)) mem (array_of_turn s t))
          out
  by_type-Reaches s fits room =
      let e : array_of_turn s m.turn ≡ array_of_turn s t = ap (array_of_turn s) at.turn_eq in
      let ins : u32 (m.host.exits_due_to_io_in + 1) ≡ i + 1 = omega arith in
      let outs : u32 (m.host.exits_due_to_io_out + 1) ≡ o + 1 = omega arith in
      let at' = u32-address env s m in
      record {
        machine = after_call env s m;
        runs = hc_num_exits_by_type-runs env s m (rw e (rw at.mem_eq fits)) ∙ rw e refl;
        at = record {
          ins_eq = ins;
          outs_eq = outs;
          total_eq = omega arith;
          turn_eq = rw at.turn_eq refl;
          mem_eq = rw at' (rw e (rw ins (rw outs (rw at.mem_eq refl))));
          out_eq = at.out_eq;
          small = room;
        };
      }

bind-some :
    {A B : Type 0} (r : Option (A × Machine)) (f : A → Guest B) {a : A} {m : Machine}
    → r ≡ some (a, m)
    → (elim r [ none ↦ none | some (a', m') ↦ f a' m' ]) ≡ f a m
bind-some r f e = rw e refl

-- One computation after another.
module _ {A B : Type 0} (c : Guest A) (f : A → Guest B) {m : Machine} {a : A} {b : B} where
  pub Reaches-bind :
      {i o t i' o' t' : ℕ} {mem mem' : Ram} {out out' : List ℕ}
      → Reaches c m a i o t mem out
      → ((m' : Machine) → IsAt m' i o t mem out → Reaches (f a) m' b i' o' t' mem' out')
      → Reaches (c >>= f) m b i' o' t' mem' out'
  Reaches-bind first next =
      let second = next first.machine first.at in
      record {
        machine = second.machine;
        runs = bind-some (c m) f first.runs ∙ second.runs;
        at = second.at;
      }

-- The loop over the characters of a text, each of them a byte.
abbrev pub AreBytes : List ℕ → Type 0
AreBytes [] = Unit
AreBytes (c ∷ cs) = (c < 256) × AreBytes cs

pub print_chars-Reaches :
    (env : KvmEnv) (cs : List ℕ) (m : Machine) (i o t : ℕ) (mem : Ram) (out : List ℕ)
    → IsAt m i o t mem out
    → AreBytes cs
    → i + (o + length cs) < 1000
    → Reaches (print_chars env cs) m tt i (o + length cs) t mem (out ++ cs)
unfolding print_chars
print_chars-Reaches env [] m i o t mem out at bytes room = record {
  machine = m;
  runs = refl;
  at = ground (arith, append-nil out);
}
print_chars-Reaches env (c ∷ cs) m i o t mem out at (byte, bytes) room =
    let e : c % 256 ≡ c = omega arith in
    let all =
      Reaches-bind (hc_print8bit env c) (λ _. print_chars env cs)
        (print8-Reaches env m at c (omega arith))
        (λ m₁ at₁. print_chars-Reaches env cs m₁ i (o + 1) t mem _ at₁ bytes (omega arith)) in
    record {
      machine = all.machine;
      runs = all.runs;
      at = ground (arith, append_assoc out (c ∷ []) cs);
    }
