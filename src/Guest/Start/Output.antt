-- ===== src/Guest/Start/Output.antt =====
-- What `_start` of guest.c prints.
use advance_virtualization_a.Prelude.{
  ℕ, ◌+◌, ◌^◌, ◌≤◌, ◌<◌, ◌≡◌, refl, some, List, [], ◌∷◌, ◌++◌, arith, codes, ◌∙◌, ap,
}
use advance_virtualization_a.Memory.{u32, Ram, read_string, store, le_bytes}
use advance_virtualization_a.Memory.Decimal.{show_u32}
use advance_virtualization_a.SimpleKvm.{check_result, returned, KvmEnv, Translation, exits_text}
use advance_virtualization_a.SimpleKvm.Success.{check_result-one_iff}
use advance_virtualization_a.Guest.Machine.{Guest, ◌>>=◌, ◌>>◌, Machine}
use advance_virtualization_a.Guest.Calls.{
  hc_print32bit, hc_print_str, hc_gva_to_hva, hc_num_exits_by_type, Arrays, array_of_turn,
}
use advance_virtualization_a.Guest.Translate.{seen_hva, complaint}
use advance_virtualization_a.Guest.ByType.{IsLaidOut}
use advance_virtualization_a.Guest.Start.{store_result, start}
use advance_virtualization_a.Guest.Start.Steps.{
  IsAt, Reaches, Reaches-bind, print_chars-Reaches, print32-Reaches, print_str-Reaches,
  num_exits-Reaches, gva_to_hva-Reaches, by_type-Reaches,
}
use advance_virtualization_a.Guest.Start.Texts.{
  result-in_memory, first_array, second_array, first_text, second_text, mem₂, first_stays,
  second_stays,
}

-- A text after several others.
abbrev pub said : List ℕ → List (List ℕ) → List ℕ
said out [] = out
said out (text ∷ texts) = said (out ++ text) texts

abbrev pub line : ℕ → List ℕ
line v = show_u32 v ++ codes "\n"

pub seen_hva-bound : (env : KvmEnv) (tr : Translation) → seen_hva env tr < 2 ^ 32
seen_hva-bound env tr = ground arith

-- What the guest makes the host print: `text` is its string, `near` and `far` the answers to
-- KVM_TRANSLATE for its two addresses.
abbrev pub spoken : KvmEnv → List ℕ → List (List ℕ)
spoken env text =
    let near = env.kvm_translate 1024 in
    let far = env.kvm_translate 4294967295 in
    codes "Hello 695!\n"
    ∷ codes "2048\n"
    ∷ codes "4294967295\n"
    ∷ text
    ∷ codes "14\n"
    ∷ codes "16\n"
    ∷ complaint near
    ∷ line (seen_hva env near)
    ∷ complaint far
    ∷ line (seen_hva env far)
    ∷ codes "IO in: 3\nIO out: 17\n"
    ∷ codes "IO in: 6\nIO out: 22\n"
    ∷ []

module _ (env : KvmEnv) (s : Arrays) (str : ℕ) (text : List ℕ) (m : Machine) (mem : Ram) where
  abbrev reported_lines : List (List ℕ)
  reported_lines =
      complaint (env.kvm_translate 1024)
      ∷ line (seen_hva env (env.kvm_translate 1024))
      ∷ complaint (env.kvm_translate 4294967295)
      ∷ line (seen_hva env (env.kvm_translate 4294967295))
      ∷ first_text env s mem
      ∷ second_text env s mem
      ∷ []

  abbrev lines : List (List ℕ)
  lines =
      codes "Hello 695!\n" ∷ line 2048 ∷ line 4294967295 ∷ text ∷ line 14 ∷ line 16 ∷ reported_lines

  abbrev mem₃ : ℕ → Ram
  mem₃ long_size = record (mem₂ env s mem) {
    bytes = store (mem₂ env s mem).bytes 0x400 (le_bytes long_size 42);
  }

  store_result-Reaches :
      {i o t : ℕ} {out : List ℕ} (long_size : ℕ) (m' : Machine)
      → IsAt m' i o t (mem₂ env s mem) out
      → Reaches (store_result env long_size) m' tt i o t (mem₃ long_size) out
  unfolding store_result
  store_result-Reaches long_size m' at = record {
    machine = _;
    runs = refl;
    at = record {
      ins_eq = at.ins_eq;
      outs_eq = at.outs_eq;
      total_eq = at.total_eq;
      turn_eq = at.turn_eq;
      mem_eq = rw at.mem_eq refl;
      out_eq = at.out_eq;
      small = at.small;
    };
  }

  -- `_start` from its first call of HC_numExitsByType on.
  abbrev report : ℕ → Guest (Unit {0})
  report long_size = do
    firststr ← hc_num_exits_by_type env s
    hva ← hc_gva_to_hva env 1024
    hc_print32bit env hva
    hva₂ ← hc_gva_to_hva env 4294967295
    hc_print32bit env hva₂
    secondstr ← hc_num_exits_by_type env s
    hc_print_str env firststr
    hc_print_str env secondstr
    store_result env long_size

  report-Reaches :
      (long_size : ℕ) (k : Machine) (out : List ℕ)
      → IsAt k 2 16 0 mem out
      → IsLaidOut s mem.size
      → Reaches (report long_size) k tt 6 24 2 (mem₃ long_size) (said out reported_lines)
  unfolding array_of_turn
  report-Reaches long_size k out at laid =
      let bound = seen_hva-bound env in
      let first = by_type-Reaches env k at s (laid.inside 0 (omega arith)) (omega arith) in
      Reaches-bind _ _ first λ k₁ at₁.
        Reaches-bind _ _ (gva_to_hva-Reaches env k₁ at₁ 1024 (omega arith) (omega arith)) λ k₂ at₂.
          Reaches-bind _ _ (print32-Reaches env k₂ at₂ _ (bound _) (omega arith)) λ k₃ at₃.
            Reaches-bind _ _ (gva_to_hva-Reaches env k₃ at₃ 4294967295 (omega arith) (omega arith))
              λ k₄ at₄.
                Reaches-bind _ _ (print32-Reaches env k₄ at₄ _ (bound _) (omega arith)) λ k₅ at₅.
                  Reaches-bind _ _
                    (by_type-Reaches env k₅ at₅ s (laid.inside 1 (omega arith)) (omega arith))
                    λ k₆ at₆.
                      Reaches-bind _ _
                        (print_str-Reaches env k₆ at₆ (first_array env s mem) (first_text env s mem)
                          (first_stays env s mem laid) (omega arith))
                        λ k₇ at₇.
                          Reaches-bind _ _
                            (print_str-Reaches env k₇ at₇ (second_array env s mem)
                              (second_text env s mem) (second_stays env s mem laid) (omega arith))
                            λ k₈ at₈. store_result-Reaches long_size k₈ at₈

  start-Reaches :
      {out : List ℕ} (long_size : ℕ)
      → IsAt m 0 0 0 mem out
      → IsLaidOut s mem.size
      → read_string mem (u32 str) ≡ some text
      → Reaches (start env s str long_size) m tt 6 24 2 (mem₃ long_size) (said out lines)
  unfolding start
  start-Reaches {out} long_size at laid found =
      let hello =
        print_chars-Reaches env (codes "Hello 695!\n") m 0 0 0 mem out at (omega arith)
          (omega arith) in
      Reaches-bind _ _ hello λ m₁ at₁.
        Reaches-bind _ _ (print32-Reaches env m₁ at₁ 2048 (omega arith) (omega arith)) λ m₂ at₂.
          Reaches-bind _ _ (print32-Reaches env m₂ at₂ 4294967295 (omega arith) (omega arith))
            λ m₃ at₃. Reaches-bind _ _ (num_exits-Reaches env m₃ at₃ (omega arith)) λ m₄ at₄.
              Reaches-bind _ _ (print_str-Reaches env m₄ at₄ str text found (omega arith)) λ m₅ at₅.
                Reaches-bind _ _ (num_exits-Reaches env m₅ at₅ (omega arith)) λ m₆ at₆.
                  Reaches-bind _ _ (print32-Reaches env m₆ at₆ 14 (omega arith) (omega arith))
                    λ m₇ at₇.
                      Reaches-bind _ _ (print32-Reaches env m₇ at₇ 16 (omega arith) (omega arith))
                        λ m₈ at₈. report-Reaches long_size m₈ _ at₈ laid

  lines-spoken : lines ≡ spoken env text
  unfolding show_u32 exits_text
  lines-spoken = refl

  -- The guest program runs to its HLT on a host with fresh counters, where its string, its arrays,
  -- of which no two overlap, and the word at 0x400 lie in memory: the host has printed the guest's
  -- lines in their order after what it had printed before, counted 6 exits by IN and 24 by OUT, and reports
  -- success for a guest with 42 in `rax`.
  pub start_lem :
      {out : List ℕ} (long_size : ℕ)
      → IsAt m 0 0 0 mem out
      → IsLaidOut s mem.size
      → read_string mem (u32 str) ≡ some text
      → 0 < long_size
      → 0x400 + long_size ≤ mem.size
      → (m' : Machine) × (start env s str long_size m ≡ some (tt, m'))
        × (m'.host.stdout ≡ said out (spoken env text))
        × (m'.host.exits_due_to_io_in ≡ 6)
        × (m'.host.exits_due_to_io_out ≡ 24)
        × (m'.host.total_exits ≡ 30)
        × (check_result (some 42) long_size m'.host ≡ returned 1 m'.host)
  start_lem {out} long_size at laid found positive room =
      let r = start-Reaches long_size at laid found in
      (
        r.machine,
        r.runs,
        r.at.out_eq ∙ ap (said out) lines-spoken,
        r.at.ins_eq,
        r.at.outs_eq,
        r.at.total_eq,
        (check_result-one_iff (some 42) long_size r.machine.host r.machine.host).1 (
          record {
            in_rax = refl;
            inside = rw r.at.mem_eq room;
            in_memory = rw r.at.mem_eq (result-in_memory (mem₂ env s mem).bytes long_size positive);
          },
          refl,
        ),
      )
