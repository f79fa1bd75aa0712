-- ===== src/Guest/Calls.antt =====
-- The hypercalls of guest.c.
use advance_virtualization_a.Prelude.{ℕ, ◌+◌, ◌%◌, ◌==◌, if◌then◌else◌}
use advance_virtualization_a.Memory.{u32}
use advance_virtualization_a.SimpleKvm.{KvmEnv}
use advance_virtualization_a.Guest.Machine.{Guest, pure, ◌>>=◌, ◌>>◌, outb, outl, inl}

-- The addresses of `s0` to `s9`.
abbrev pub Arrays : Type 0
Arrays = ℕ → ℕ

module _ (env : KvmEnv) where
  unfoldable pub hc_print8bit : ℕ → Guest (Unit {0})
  hc_print8bit val = outb env 0xE9 val

  unfoldable pub hc_print32bit : ℕ → Guest (Unit {0})
  hc_print32bit val = outl env 0xF1 val

  unfoldable pub hc_num_exits : Guest ℕ
  hc_num_exits = inl env 0xF4

  unfoldable pub hc_print_str : ℕ → Guest (Unit {0})
  hc_print_str str = outl env 0xF2 (u32 str)

  unfoldable pub hc_gva_to_hva : ℕ → Guest ℕ
  hc_gva_to_hva gva = do outl env 0xEE gva; inl env 0xEF

-- The `switch (turn)`.
unfoldable pub array_of_turn : Arrays → ℕ → ℕ
array_of_turn s turn =
    if turn == 0
    then u32 (s 0)
    else (if turn == 1
        then u32 (s 1)
        else (if turn == 2
            then u32 (s 2)
            else (if turn == 3
                then u32 (s 3)
                else (if turn == 4
                    then u32 (s 4)
                    else (if turn == 5
                        then u32 (s 5)
                        else (if turn == 6
                            then u32 (s 6)
                            else (if turn == 7
                                then u32 (s 7)
                                else (if turn == 8
                                    then u32 (s 8)
                                    else (if turn == 9 then u32 (s 9) else u32 (s 0))))))))))

next_turn : Guest ℕ
next_turn m = pure m.turn (record m { turn = (m.turn + 1) % 10 })

module _ (env : KvmEnv) (s : Arrays) where
  unfoldable pub hc_num_exits_by_type : Guest ℕ
  unfolding next_turn
  hc_num_exits_by_type = do turn ← next_turn; outl env 0xFF (array_of_turn s turn); inl env 0xF3
