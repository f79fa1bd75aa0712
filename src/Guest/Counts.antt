-- ===== src/Guest/Counts.antt =====
-- HC_numExits and HC_numExitsByType of guest.c, through the hypervisor's ports.
use advance_virtualization_a.Prelude.{
  ◌∙◌, ℕ, zero, suc, ◌+◌, ◌-◌, ◌≤◌, ◌<◌, ◌≡◌, ◌⊎◌, refl, some, List, [], ◌∷◌, ◌++◌, arith, codes,
  length, length-append, get_or,
}
use advance_virtualization_a.Memory.{
  u32, Ram, store, load, write_ram, read_string, HasNoNul, HasNoNul-append, c_string-eq,
  length-load, get_or-load, store-inside, store-outside,
}
use advance_virtualization_a.Memory.Decimal.{show_u32, length-show_u32, show_u32-HasNoNul}
use advance_virtualization_a.SimpleKvm.{KvmEnv, exits_text, fill_buffer}
use advance_virtualization_a.Guest.Machine.{Machine}
use advance_virtualization_a.Guest.Calls.{hc_num_exits}
use advance_virtualization_a.Guest.Ports.{counted_in, at_in, wrote, inl-total_exits}

-- HC_numExits gives the number of exits so far, its own included.
pub hc_num_exits_lem :
    (env : KvmEnv) (m : Machine)
    → let m' = wrote (at_in 0xF4 m) (counted_in m.host) (u32 (m.host.total_exits + 1)) in
      hc_num_exits env m ≡ some (m'.host.total_exits, m')
unfolding hc_num_exits
hc_num_exits_lem env m = ground (arith, inl-total_exits env m)

-- The text has at most 37 bytes, none of them NUL, so `snprintf` into 100 bytes cuts nothing.
pub length-exits_text : (ins outs : ℕ) → length (exits_text ins outs) ≤ 37
unfolding exits_text
length-exits_text ins outs =
    omega (arith, length-append {0}, length-show_u32 ins, length-show_u32 outs)

pub exits_text-HasNoNul : (ins outs : ℕ) → HasNoNul (exits_text ins outs)
unfolding exits_text
exits_text-HasNoNul ins outs = HasNoNul-append (codes "IO in: ") _ (omega arith) (
    HasNoNul-append (show_u32 ins) _ (show_u32-HasNoNul ins) (
      HasNoNul-append (codes "\nIO out: ") _ (omega arith)
        (HasNoNul-append (show_u32 outs) _ (show_u32-HasNoNul outs) (omega arith))))

get_or-snoc_zero : (text : List ℕ) (i : ℕ) → get_or (text ++ 0 ∷ []) i 0 ≡ get_or text i 0
get_or-snoc_zero [] zero = refl
get_or-snoc_zero [] (suc i) = refl
get_or-snoc_zero (c ∷ text) zero = refl
get_or-snoc_zero (c ∷ text) (suc i) = get_or-snoc_zero text i

module _ (env : KvmEnv) (text : List ℕ) where
  abbrev pub buffer : List ℕ
  buffer = load (fill_buffer env.stack text) 0 100

  length-buffer : length buffer ≡ 100
  length-buffer = length-load _ 0 100

  buffer-text : (i : ℕ) → length text ≤ 37 → i ≤ length text → get_or buffer i 0 ≡ get_or text i 0
  unfolding fill_buffer
  buffer-text i short le =
      get_or-load (fill_buffer env.stack text) 0 100 i (omega arith)
      ∙ store-inside env.stack 0 (text ++ 0 ∷ []) i (omega (arith, length-append text (0 ∷ [])))
      ∙ get_or-snoc_zero text i

-- The 100 bytes at `off` lie in memory, and begin with the text and its NUL.
abbrev pub Holds : Ram → ℕ → List ℕ → Type 0
Holds ram off text =
    (off + 100 ≤ ram.size) × ((i : ℕ) → i ≤ length text → ram.bytes (off + i) ≡ get_or text i 0)

pub read_string-Holds :
    (ram : Ram) (off : ℕ) (text : List ℕ)
    → HasNoNul text
    → length text ≤ 37
    → Holds ram off text
    → read_string ram off ≡ some text
unfolding read_string
read_string-Holds ram off text nz short h =
    c_string-eq ram.bytes off (ram.size - off) text nz (omega arith) h.1

module _ (env : KvmEnv) (text : List ℕ) (ram : Ram) (off : ℕ) where
  -- The memory after the buffer with the text was copied to `off`.
  abbrev pub written : Ram
  written = record ram { bytes = store ram.bytes off (buffer env text) }

  pub write_ram-written : off + 100 ≤ ram.size → write_ram ram off (buffer env text) ≡ some written
  unfolding write_ram
  write_ram-written fits = ground (arith, length-buffer env text)

  pub written-frame : (q : ℕ) → (q < off) ⊎ (off + 100 ≤ q) → written.bytes q ≡ ram.bytes q
  written-frame q outside =
      store-outside ram.bytes off (buffer env text) q (ground (arith, length-buffer env text))

  pub written-Holds : length text ≤ 37 → off + 100 ≤ ram.size → Holds written off text
  written-Holds short fits = (fits, λ i le. at_text i le)
    where
      at_text : (i : ℕ) → i ≤ length text → written.bytes (off + i) ≡ get_or text i 0
      at_text i le =
          store-inside ram.bytes off (buffer env text) i (omega (arith, length-buffer env text))
          ∙ buffer-text env text i short le

  -- A copy to another array leaves a text where it is.
  pub written-Holds_apart :
      (a : ℕ) (old : List ℕ)
      → length old ≤ 37
      → (a + 100 ≤ off) ⊎ (off + 100 ≤ a)
      → Holds ram a old
      → Holds written a old
  written-Holds_apart a old short apart h = (h.0, λ i le. frame i le ∙ h.1 i le)
    where
      frame : (i : ℕ) → i ≤ length old → written.bytes (a + i) ≡ ram.bytes (a + i)
      frame i le = written-frame (a + i) (ground arith)
