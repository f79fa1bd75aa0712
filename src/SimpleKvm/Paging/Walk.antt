-- ===== src/SimpleKvm/Paging/Walk.antt =====
-- The processor's page walk, as the manuals of the architecture describe it: with 32-bit paging
-- (CR4.PSE set) two levels, where a directory entry may map 4 MB; with 4-level paging four levels,
-- where an entry of the third may map 1 GB and one of the second 2 MB. Access rights and the upper bits
-- of the entries play no part.
use advance_virtualization_a.Prelude.{
  ℕ, ◌+◌, ◌*◌, ◌/◌, ◌%◌, Bool, Option, none, some, ◌==◌, if◌then◌else◌,
}
use advance_virtualization_a.Memory.{Bytes, of_le_bytes, load}

-- Bit `k` of an entry is set, where `weight` is 2^k.
abbrev pub has_bit : ℕ → ℕ → Bool
has_bit entry weight = entry / weight % 2 == 1

-- The entry of `width` bytes at an address.
unfoldable pub entry_at : Bytes → ℕ → ℕ → ℕ
entry_at m width address = of_le_bytes (load m address width)

abbrev frame : ℕ → ℕ → ℕ
frame entry size = entry / size * size

-- The last level: the entry maps a page of `size` bytes.
abbrev mapped : ℕ → ℕ → ℕ → Option ℕ
mapped entry size va = if has_bit entry 1 then some (frame entry size + va % size) else none

unfoldable pub walk32 : Bytes → ℕ → ℕ → Option ℕ
walk32 m cr3 va =
    let pde = entry_at m 4 (frame cr3 4096 + va / 0x400000 * 4) in
    let pte = entry_at m 4 (frame pde 4096 + va / 4096 % 1024 * 4) in
    if has_bit pde 1
    then (if has_bit pde 0x80 then mapped pde 0x400000 va else mapped pte 4096 va)
    else none

-- The entry of a table at `table` for a page of `size` bytes.
abbrev slot64 : Bytes → ℕ → ℕ → ℕ → ℕ
slot64 m table size va = entry_at m 8 (frame table 4096 + va / size % 512 * 8)

walk_pt : Bytes → ℕ → ℕ → Option ℕ
walk_pt m pde va = mapped (slot64 m pde 0x1000 va) 0x1000 va

walk_pd : Bytes → ℕ → ℕ → Option ℕ
unfolding walk_pt
walk_pd m pdpte va =
    let pde = slot64 m pdpte 0x200000 va in
    if has_bit pde 1
    then (if has_bit pde 0x80 then mapped pde 0x200000 va else walk_pt m pde va)
    else none

walk_pdpt : Bytes → ℕ → ℕ → Option ℕ
unfolding walk_pd
walk_pdpt m pml4e va =
    let pdpte = slot64 m pml4e 0x40000000 va in
    if has_bit pdpte 1
    then (if has_bit pdpte 0x80 then mapped pdpte 0x40000000 va else walk_pd m pdpte va)
    else none

unfoldable pub walk64 : Bytes → ℕ → ℕ → Option ℕ
unfolding walk_pdpt
walk64 m cr3 va =
    let pml4e = slot64 m cr3 0x8000000000 va in
    if has_bit pml4e 1 then walk_pdpt m pml4e va else none
