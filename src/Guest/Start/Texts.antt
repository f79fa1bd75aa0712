-- ===== src/Guest/Start/Texts.antt =====
-- The two texts that `_start` of guest.c asks for, and its result, in the guest's memory.
use advance_virtualization_a.Prelude.{ℕ, zero, suc, ◌<◌, ◌≡◌, ◌≢◌, refl, some, List, arith}
use advance_virtualization_a.Memory.{
  Bytes, u32, Ram, read_string, load, store, le_bytes, load-store, length-le_bytes, of_le_bytes,
}
use advance_virtualization_a.SimpleKvm.{KvmEnv, exits_text}
use advance_virtualization_a.Guest.Calls.{Arrays, array_of_turn}
use advance_virtualization_a.Guest.Counts.{
  written, written-Holds, written-Holds_apart, read_string-Holds, length-exits_text,
  exits_text-HasNoNul,
}
use advance_virtualization_a.Guest.ByType.{IsLaidOut}

-- The result as a number, whatever its size.
of_le_bytes-result : (n : ℕ) → 0 < n → of_le_bytes (le_bytes n 42) ≡ 42
unfolding le_bytes of_le_bytes
of_le_bytes-result zero pos = ground arith
of_le_bytes-result (suc n) pos = rw (zeros n) refl
  where
    zeros : (n : ℕ) → of_le_bytes (le_bytes n 0) ≡ 0
    zeros zero = refl
    zeros (suc n) = rw (zeros n) refl

pub result-in_memory :
    (b : Bytes) (n : ℕ) → 0 < n → of_le_bytes (load (store b 0x400 (le_bytes n 42)) 0x400 n) ≡ 42
result-in_memory b n positive =
    let read = load-store b 0x400 (le_bytes n 42) in
    rw (rw (length-le_bytes n 42) at read) (of_le_bytes-result n positive)

module _ (env : KvmEnv) (s : Arrays) (mem : Ram) where
  abbrev pub first_array : ℕ
  first_array = array_of_turn s 0

  abbrev pub second_array : ℕ
  second_array = array_of_turn s 1

  abbrev pub first_text : List ℕ
  first_text = exits_text 3 17

  abbrev pub second_text : List ℕ
  second_text = exits_text 6 22

  abbrev pub mem₁ : Ram
  mem₁ = written env first_text mem first_array

  abbrev pub mem₂ : Ram
  mem₂ = written env second_text mem₁ second_array

  pub first_stays : IsLaidOut s mem.size → read_string mem₂ (u32 first_array) ≡ some first_text
  unfolding array_of_turn
  first_stays laid =
      let e : u32 (u32 (s 0)) ≡ u32 (s 0) = omega arith in
      let distinct : (let z : ℕ = 0 in z) ≢ 1 = omega arith in
      rw e (
        read_string-Holds mem₂ first_array first_text (exits_text-HasNoNul 3 17)
          (length-exits_text 3 17)
          (written-Holds_apart env second_text mem₁ second_array first_array first_text
            (length-exits_text 3 17) (laid.apart 0 1 (omega arith) (omega arith) distinct)
            (written-Holds env first_text mem first_array (length-exits_text 3 17)
              (laid.inside 0 (omega arith)))))

  pub second_stays : IsLaidOut s mem.size → read_string mem₂ (u32 second_array) ≡ some second_text
  unfolding array_of_turn
  second_stays laid =
      let e : u32 (u32 (s 1)) ≡ u32 (s 1) = omega arith in
      rw e (
        read_string-Holds mem₂ second_array second_text (exits_text-HasNoNul 6 22)
          (length-exits_text 6 22)
          (written-Holds env second_text mem₁ second_array (length-exits_text 6 22)
            (laid.inside 1 (omega arith))))
