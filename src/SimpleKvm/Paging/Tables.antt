-- ===== src/SimpleKvm/Paging/Tables.antt =====
-- What the page tables of `setup_paged_32bit_mode` and `setup_long_mode` map.
use advance_virtualization_a.Prelude.{
  ℕ, zero, suc, ◌+◌, ◌*◌, ◌/◌, ◌%◌, ◌^◌, ◌≤◌, ◌<◌, ◌≡◌, refl, none, some, arith, ltb, if◌then◌else◌,
}
use advance_virtualization_a.Memory.{Bytes, of_le_bytes, load}
use native.Mathlib.Decide.{dec_lt}
use advance_virtualization_a.SimpleKvm.Paging.Walk.{entry_at, walk32, walk64}

-- The bytes from `lo` up to `hi` are zero.
abbrev pub IsZero : Bytes → ℕ → ℕ → Type 0
IsZero m lo hi = (q : ℕ) → lo ≤ q → q < hi → m q ≡ 0

load-zero :
    (m : Bytes) (lo hi a n : ℕ)
    → IsZero m lo hi
    → lo ≤ a
    → a + n ≤ hi
    → of_le_bytes (load m a n) ≡ 0
unfolding load of_le_bytes
load-zero m lo hi a zero z ge le = refl
load-zero m lo hi a (suc n) z ge le =
    omega (arith, z a ge (omega arith), load-zero m lo hi (a + 1) n z (omega arith) (omega arith))

entry_at-zero :
    (m : Bytes) (lo hi w a : ℕ) → IsZero m lo hi → lo ≤ a → a + w ≤ hi → entry_at m w a ≡ 0
unfolding entry_at
entry_at-zero m lo hi w a z ge le = load-zero m lo hi a w z ge le

-- A table that holds `first` and, up to its end, zeros.
pub record IsTable (m : Bytes) (table width first : ℕ) : Type 0 where
  pub holds : entry_at m width table ≡ first
  pub rest : IsZero m (table + width) (table + 4096)

module _ (m : Bytes) (table width first : ℕ) (t : IsTable m table width first) where
  -- The entry at an index: the first, or zero.
  first_entry : (a : ℕ) → a ≡ table → entry_at m width a ≡ first
  first_entry a e = rw e t.holds

  other_entry : (a : ℕ) → table + width ≤ a → a + width ≤ table + 4096 → entry_at m width a ≡ 0
  other_entry a ge le = entry_at-zero m (table + width) (table + 4096) width a t.rest ge le

-- The page directory of `setup_paged_32bit_mode` maps the first 4 MB to themselves, and nothing
-- else.
pub walk32-IsTable :
    (m : Bytes) (va : ℕ)
    → va < 2 ^ 32
    → IsTable m 0x2000 4 0x87
    → walk32 m 0x2000 va ≡ (if ltb va 0x400000 then some va else none)
unfolding walk32
walk32-IsTable m va lt t = elim (dec_lt va 0x400000) [
  | yes low ↦
      let e = first_entry m 0x2000 4 0x87 t (0x2000 + va / 0x400000 * 4) (omega arith) in
      ground (arith, e)
  | no high ↦
      let e =
        other_entry m 0x2000 4 0x87 t (0x2000 + va / 0x400000 * 4) (omega arith) (omega arith) in
      ground (arith, e)
]

-- The three tables of `setup_long_mode` map the first 2 MB to themselves, and nothing else.
pub walk64-IsTable :
    (m : Bytes) (va : ℕ)
    → va < 2 ^ 48
    → IsTable m 0x2000 8 0x3007
    → IsTable m 0x3000 8 0x4007
    → IsTable m 0x4000 8 0x87
    → walk64 m 0x2000 va ≡ (if ltb va 0x200000 then some va else none)
unfolding walk64
walk64-IsTable m va lt t4 t3 t2 =
    let at4 : ℕ = 0x2000 + va / 0x8000000000 % 512 * 8 in
    let at3 : ℕ = 0x3000 + va / 0x40000000 % 512 * 8 in
    let at2 : ℕ = 0x4000 + va / 0x200000 % 512 * 8 in
    elim (dec_lt va 0x8000000000) [
      | no high ↦ ground (arith, other_entry m 0x2000 8 0x3007 t4 at4 (omega arith) (omega arith))
      | yes low4 ↦
          let e4 = first_entry m 0x2000 8 0x3007 t4 at4 (omega arith) in
          elim (dec_lt va 0x40000000) [
            | no high ↦
                let e3 = other_entry m 0x3000 8 0x4007 t3 at3 (omega arith) (omega arith) in
                rw e4 (ground (arith, e3))
            | yes low3 ↦
                let e3 = first_entry m 0x3000 8 0x4007 t3 at3 (omega arith) in
                elim (dec_lt va 0x200000) [
                  | no high ↦
                      let e2 = other_entry m 0x4000 8 0x87 t2 at2 (omega arith) (omega arith) in
                      rw (e4, e3) (ground (arith, e2))
                  | yes low2 ↦
                      let e2 = first_entry m 0x4000 8 0x87 t2 at2 (omega arith) in
                      rw (e4, e3) (ground (arith, e2))
                ]
          ]
    ]
