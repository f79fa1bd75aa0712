-- ===== src/Guest/Start.antt =====
-- `_start` of guest.c.
pub mod Steps
mod Texts
pub mod Output
use advance_virtualization_a.Prelude.{ℕ, List, [], ◌∷◌, codes}
use advance_virtualization_a.Memory.{le_bytes, store}
use advance_virtualization_a.SimpleKvm.{KvmEnv}
use advance_virtualization_a.Guest.Machine.{Machine, Guest, pure, ◌>>=◌, ◌>>◌}
use advance_virtualization_a.Guest.Calls.{
  Arrays, hc_print8bit, hc_print32bit, hc_num_exits, hc_print_str, hc_gva_to_hva,
  hc_num_exits_by_type,
}

module _ (env : KvmEnv) where
  -- `for (p = …; *p; ++p) HC_print8bit(*p);`
  unfoldable pub print_chars : List ℕ → Guest (Unit {0})
  print_chars [] = pure tt
  print_chars (c ∷ cs) = do hc_print8bit env c; print_chars cs

  -- `*(long *) 0x400 = 42`, where `long` has `long_size` bytes.
  unfoldable pub store_result : ℕ → Guest (Unit {0})
  store_result long_size m = pure tt (record m {
    host = record (m.host) {
      mem = record (m.host.mem) { bytes = store m.host.mem.bytes 0x400 (le_bytes long_size 42) };
    };
  })

  -- The body of `_start` up to the loop of HLT; `str` is the address of "CS695 Assignment 2\n".
  unfoldable pub start : Arrays → ℕ → ℕ → Guest (Unit {0})
  start s str long_size = do
    print_chars (codes "Hello 695!\n")
    hc_print32bit env 2048
    hc_print32bit env 4294967295
    num_exits_a ← hc_num_exits env
    hc_print_str env str
    num_exits_b ← hc_num_exits env
    hc_print32bit env num_exits_a
    hc_print32bit env num_exits_b
    firststr ← hc_num_exits_by_type env s
    hva ← hc_gva_to_hva env 1024
    hc_print32bit env hva
    hva₂ ← hc_gva_to_hva env 4294967295
    hc_print32bit env hva₂
    secondstr ← hc_num_exits_by_type env s
    hc_print_str env firststr
    hc_print_str env secondstr
    store_result long_size
