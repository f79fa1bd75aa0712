-- ===== src/Guest/Traced/Programs.antt =====
-- The hypercalls of guest.c and its `_start` are traced.
use advance_virtualization_a.Prelude.{
  ℕ, refl, sym, ◌∙◌, subst, ap, ◌%◌, ◌+◌, Option, List, [], ◌∷◌, codes,
}
use mathlib.Core.List.{append-nil}
use advance_virtualization_a.Memory.{store, le_bytes}
use advance_virtualization_a.SimpleKvm.{KvmEnv, with_bytes}
use advance_virtualization_a.Guest.Machine.{Guest, ◌>>=◌}
use advance_virtualization_a.Guest.Calls.{
  Arrays, array_of_turn, hc_print8bit, hc_print32bit, hc_num_exits, hc_print_str, hc_gva_to_hva,
  hc_num_exits_by_type,
}
use advance_virtualization_a.Guest.Start.{print_chars, store_result, start}
use advance_virtualization_a.Guest.Traced.{
  Matches, IsTraced, second_of, read-IsTraced, turn-IsTraced, bind-IsTraced, outb-IsTraced,
  outl-IsTraced, inl-IsTraced,
}

module _ (env : KvmEnv) (regs : Option ℕ) (sz : ℕ) where
  abbrev Traced : {A : Type 0} → Guest A → Type 0
  Traced = IsTraced env regs sz

  print32-IsTraced : (v : ℕ) → Traced (hc_print32bit env v)
  unfolding hc_print32bit
  print32-IsTraced v = outl-IsTraced env regs sz 0xF1 v

  num_exits-IsTraced : Traced (hc_num_exits env)
  unfolding hc_num_exits
  num_exits-IsTraced = inl-IsTraced env regs sz 0xF4

  print_str-IsTraced : (str : ℕ) → Traced (hc_print_str env str)
  unfolding hc_print_str
  print_str-IsTraced str = outl-IsTraced env regs sz 0xF2 _

  gva_to_hva-IsTraced : (gva : ℕ) → Traced (hc_gva_to_hva env gva)
  unfolding hc_gva_to_hva
  gva_to_hva-IsTraced gva =
      bind-IsTraced env regs sz _ _ (outl-IsTraced env regs sz 0xEE gva)
        λ _. inl-IsTraced env regs sz 0xEF

  by_type-IsTraced : (s : Arrays) → Traced (hc_num_exits_by_type env s)
  unfolding hc_num_exits_by_type
  by_type-IsTraced s =
      bind-IsTraced env regs sz _ _
        (bind-IsTraced env regs sz _ _
          (turn-IsTraced env regs sz (λ m. m.turn) (λ m. (m.turn + 1) % 10))
          (λ turn. outl-IsTraced env regs sz 0xFF (array_of_turn s turn)))
        (λ _. inl-IsTraced env regs sz 0xF3)

  print_chars-IsTraced : (cs : List ℕ) → Traced (print_chars env cs)
  unfolding print_chars hc_print8bit
  print_chars-IsTraced [] = read-IsTraced env regs sz (λ _. tt)
  print_chars-IsTraced (c ∷ cs) =
      bind-IsTraced env regs sz _ _ (outb-IsTraced env regs sz 0xE9 c) λ _. print_chars-IsTraced cs

  store_result-IsTraced : (long_size : ℕ) → Traced (store_result env long_size)
  unfolding store_result IsTraced
  store_result-IsTraced long_size m m' a h e same = record {
    results = [];
    logged = sym (ap (λ k. k.exits) (second_of e)) ∙ sym (append-nil m.exits);
    host = h;
    matches =
        subst (Matches h) (second_of e)
          (ap (with_bytes (store m.host.mem.bytes 0x400 (le_bytes long_size 42))) same);
    runs = λ rest. refl;
  }

  follow :
      {A B : Type 0} (c : Guest A) (f : A → Guest B)
      → Traced c
      → ((a : A) → Traced (f a))
      → Traced (c >>= f)
  follow = bind-IsTraced env regs sz

  pub start-IsTraced : (s : Arrays) (str long_size : ℕ) → Traced (start env s str long_size)
  unfolding start
  start-IsTraced s str long_size = follow _ _ (print_chars-IsTraced (codes "Hello 695!\n")) λ _.
      follow _ _ (print32-IsTraced 2048) λ _. follow _ _ (print32-IsTraced 4294967295) λ _.
        follow _ _ num_exits-IsTraced λ a. follow _ _ (print_str-IsTraced str) λ _.
          follow _ _ num_exits-IsTraced λ b. follow _ _ (print32-IsTraced a) λ _.
            follow _ _ (print32-IsTraced b) λ _. follow _ _ (by_type-IsTraced s) λ firststr.
              follow _ _ (gva_to_hva-IsTraced 1024) λ hva. follow _ _ (print32-IsTraced hva) λ _.
                follow _ _ (gva_to_hva-IsTraced 4294967295) λ hva₂.
                  follow _ _ (print32-IsTraced hva₂) λ _.
                    follow _ _ (by_type-IsTraced s) λ secondstr.
                      follow _ _ (print_str-IsTraced firststr) λ _.
                        follow _ _ (print_str-IsTraced secondstr)
                          λ _. store_result-IsTraced long_size
