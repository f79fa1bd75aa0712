-- ===== src/PageWalk/Address.antt =====
-- When the address that `page_table_walk` computes is the physical address of the byte.
use advance_virtualization_a.Prelude.{
  ℕ, ◌+◌, ◌*◌, ◌/◌, ◌%◌, ◌^◌, ◌<◌, ◌≡◌, ◌↔◌, refl, arith, bit_and, bit_or, ap,
}
use advance_virtualization_a.Bits.{bit_or-fields, bit_and-high, bit_and-mask}
use advance_virtualization_a.Memory.{u32}
use advance_virtualization_a.PageWalk.{page_mask, sign_extend, physical_address}

-- The address of the page that an entry names: bits 12 to 51 of the entry.
abbrev pub frame : ℕ → ℕ
frame pte = pte % 2 ^ 52 / 4096 * 4096

masked_entry : (pte : ℕ) → pte < 2 ^ 64 → bit_and pte page_mask ≡ pte / 4096 * 4096
masked_entry pte lt =
    bit_and-high 12 52 pte page_mask (pte / 4096) (pte % 4096) (omega arith) (omega arith)
      (omega arith) refl

masked_address : (address : ℕ) → bit_and 0xfff address ≡ address % 4096
masked_address address =
    bit_and-mask 12 0xfff address (address / 4096) (address % 4096) (omega arith) (omega arith) refl

-- The two halves of the address have no bit in common.
joined :
    (pte address : ℕ)
    → pte < 2 ^ 64
    → bit_or (u32 (bit_and pte page_mask)) (u32 (bit_and 0xfff address))
      ≡ u32 (frame pte) + address % 4096
joined pte address lt =
    let high : u32 (bit_and pte page_mask) ≡ pte / 4096 % 2 ^ 20 * 2 ^ 12 =
      omega (arith, masked_entry pte lt) in
    let low : u32 (bit_and 0xfff address) ≡ address % 4096 =
      omega (arith, masked_address address) in
    let both = bit_or-fields 12 (pte / 4096 % 2 ^ 20) (address % 4096) (omega arith) in
    rw (high, low, both) (omega arith)

pub physical_address-frame :
    (pte address : ℕ)
    → pte < 2 ^ 64
    → physical_address pte address ≡ sign_extend (u32 (frame pte) + address % 4096)
unfolding physical_address
physical_address-frame pte address lt = ap sign_extend (joined pte address lt)

-- The computed address is that of the byte (the page's address and the offset in the page) exactly
-- if the page lies below 2^31: the casts to `int` cut the address to 32 bits, and extend its sign.
pub physical_address-exact_iff :
    (pte address : ℕ)
    → pte < 2 ^ 64
    → (physical_address pte address ≡ frame pte + address % 4096) ↔ (frame pte < 2 ^ 31)
physical_address-exact_iff pte address lt = ground (arith, physical_address-frame pte address lt)
