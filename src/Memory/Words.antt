-- ===== src/Memory/Words.antt =====
-- Bytes, little-endian words and the accesses to a memory of a fixed size.
use advance_virtualization_a.Prelude.{
  ℕ, zero, suc, ◌+◌, ◌-◌, ◌*◌, ◌/◌, ◌%◌, Bool, ◌&&◌, Option, none, some, List, [], ◌∷◌, leb, ltb,
  ◌==◌, if◌then◌else◌, length, get_or,
}
use mathlib.Core.Option

-- A conversion to `uint32_t`.
abbrev pub u32 : ℕ → ℕ
u32 n = n % 4294967296

-- A conversion to `uint64_t`.
abbrev pub u64 : ℕ → ℕ
u64 n = n % 18446744073709551616

-- The bytes of a word of `width` bytes, the lowest first.
unfoldable pub le_bytes : ℕ → ℕ → List ℕ
le_bytes zero n = []
le_bytes (suc width) n = n % 256 ∷ le_bytes width (n / 256)

unfoldable pub of_le_bytes : List ℕ → ℕ
of_le_bytes [] = 0
of_le_bytes (b ∷ bs) = b + 256 * of_le_bytes bs

-- The contents of a memory: a byte at each offset.
abbrev pub Bytes : Type 0
Bytes = ℕ → ℕ

-- `memcpy(m + off, bs, length bs)`
unfoldable pub store : Bytes → ℕ → List ℕ → Bytes
store m off bs q = if leb off q && ltb q (off + length bs) then get_or bs (q - off) 0 else m q

-- The `n` bytes from `off` on.
unfoldable pub load : Bytes → ℕ → ℕ → List ℕ
load m off zero = []
load m off (suc n) = m off ∷ load m (off + 1) n

-- The bytes before the first NUL from `off` on; `none` if the `fuel` bytes left hold no NUL.
unfoldable pub c_string : Bytes → ℕ → ℕ → Option (List ℕ)
c_string m off zero = none
c_string m off (suc fuel) =
    let rest = c_string m (off + 1) fuel in
    if m off == 0 then some [] else Option.map (λ s. m off ∷ s) rest

-- A memory object of `size` bytes.
pub record Ram : Type 0 where
  pub size : ℕ
  pub bytes : Bytes

-- An access to `n` bytes at `off` stays inside.
abbrev pub fits : Ram → ℕ → ℕ → Bool
fits r off n = leb (off + n) r.size

unfoldable pub write_ram : Ram → ℕ → List ℕ → Option Ram
write_ram r off bs =
    if fits r off (length bs) then some (record r { bytes = store r.bytes off bs }) else none

unfoldable pub read_ram : Ram → ℕ → ℕ → Option (List ℕ)
read_ram r off n = if fits r off n then some (load r.bytes off n) else none

-- The C string at `off`; a string that does not end inside of the memory is an access outside.
unfoldable pub read_string : Ram → ℕ → Option (List ℕ)
read_string r off = c_string r.bytes off (r.size - off)
