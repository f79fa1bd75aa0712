-- ===== src/SimpleKvm/Paging/Enter.antt =====
-- A guest that simple-kvm.c starts with paging sees its memory at the addresses at which the
-- hypervisor wrote it.
use advance_virtualization_a.Prelude.{
  ℕ, ◌+◌, ◌^◌, ◌≤◌, ◌<◌, ◌≡◌, ◌⊎◌, refl, inl, inr, false, none, some, List, arith, ltb,
  if◌then◌else◌, length, ap, ◌∙◌,
}
use advance_virtualization_a.Memory.{
  Bytes, le_bytes, of_le_bytes, load, store, store-outside, load-store, load-store_apart,
  length-le_bytes, ram_laws,
}
use advance_virtualization_a.Kvm.{Sregs, ok}
use advance_virtualization_a.SimpleKvm.State.{Host}
use advance_virtualization_a.SimpleKvm.Modes.{
  ModeAnswers, Entered, enter_paged_32bit_mode, enter_long_mode, setup_protected_mode,
  setup_64bit_code_segment, cr0_paged, cr4_pse, cr4_pae, efer_long, start_regs, stack_top,
}
use advance_virtualization_a.SimpleKvm.Paging.Walk.{entry_at, walk32, walk64}
use advance_virtualization_a.SimpleKvm.Paging.Tables.{
  IsZero, IsTable, walk32-IsTable, walk64-IsTable,
}

IsZero-store :
    (m : Bytes) (off : ℕ) (bs : List ℕ) (lo hi : ℕ)
    → (hi ≤ off) ⊎ (off + length bs ≤ lo)
    → IsZero m lo hi
    → IsZero (store m off bs) lo hi
IsZero-store m off bs lo hi apart z q ge lt = store-outside m off bs q (ground arith) ∙ z q ge lt

IsTable-store :
    (m : Bytes) (off : ℕ) (bs : List ℕ) (table width first : ℕ)
    → width ≤ 4096
    → (table + 4096 ≤ off) ⊎ (off + length bs ≤ table)
    → IsTable m table width first
    → IsTable (store m off bs) table width first
unfolding entry_at
IsTable-store m off bs table width first w apart t = record {
  holds = ap of_le_bytes (load-store_apart m off bs table width (ground arith)) ∙ t.holds;
  rest = IsZero-store m off bs (table + width) (table + 4096) (ground arith) t.rest;
}

-- A table of zeros, after its first entry was written.
IsTable-first :
    (m : Bytes) (table width value : ℕ)
    → IsZero m table (table + 4096)
    → IsTable
        (store m table (le_bytes width value))
        table
        width
        (of_le_bytes (le_bytes width value))
unfolding entry_at
IsTable-first m table width value z = record {
  holds =
      ap of_le_bytes
        (rw (length-le_bytes width value) at (load-store m table (le_bytes width value)));
  rest = λ q ge lt.
      store-outside m table (le_bytes width value) q
        (inr (omega (arith, length-le_bytes width value)))
      ∙ z q (omega arith) lt;
}

-- The kernel's calls succeed, and the program ends below the page tables.
pub record IsReady (a : ModeAnswers) (sregs : Sregs) (h : Host) : Type 0 where
  pub got : a.get_sregs ≡ some sregs
  pub set_sregs : a.set_sregs_failed ≡ false
  pub set_regs : a.set_regs_failed ≡ false
  pub roomy : 0x5000 ≤ h.mem.size
  pub short : length a.image ≤ 0x2000
  pub clear : IsZero h.mem.bytes 0x2000 0x5000

module _ (a : ModeAnswers) (sregs : Sregs) (h : Host) (ready : IsReady a sregs h) where
  abbrev tables32 : Bytes
  tables32 = store h.mem.bytes 0x2000 (le_bytes 4 0x87)

  abbrev entered32 : Entered
  entered32 = record {
    sregs = record (setup_protected_mode sregs) {
      cr3 = 0x2000;
      cr4 = cr4_pse;
      cr0 = cr0_paged;
      efer = 0;
    };
    regs = start_regs stack_top;
    host = record h { mem = record h.mem { bytes = store tables32 0 a.image } };
  }

  enter_paged-runs : enter_paged_32bit_mode a h ≡ ok entered32
  unfolding enter_paged_32bit_mode
  enter_paged-runs = grind ram_laws

  table32 : IsTable (store tables32 0 a.image) 0x2000 4 0x87
  unfolding le_bytes of_le_bytes
  table32 =
      IsTable-store tables32 0 a.image 0x2000 4 0x87 (omega arith)
        (inr (omega (arith, ready.short)))
        (IsTable-first h.mem.bytes 0x2000 4 0x87 (λ q ge lt. ready.clear q ge (omega arith)))

  -- Where the kernel's calls succeed, the program has at most 8 KB, and the memory behind it is
  -- there and zero: the guest of `run_paged_32bit_mode` starts, at address 0 and with its stack at
  -- 2 MB; its program stands at address 0, and the page walk from its CR3 takes the addresses
  -- below 4 MB to themselves and all other 32-bit addresses nowhere.
  pub enter_paged_32bit_mode_lem :
      (va : ℕ)
      → va < 2 ^ 32
      → (e : Entered) × (enter_paged_32bit_mode a h ≡ ok e)
        × (e.regs.rip ≡ 0)
        × (e.regs.rsp ≡ 0x200000)
        × (load e.host.mem.bytes 0 (length a.image) ≡ a.image)
        × (walk32 e.host.mem.bytes e.sregs.cr3 va ≡ (if ltb va 0x400000 then some va else none))
  enter_paged_32bit_mode_lem va lt = (
    entered32,
    enter_paged-runs,
    refl,
    refl,
    load-store tables32 0 a.image,
    walk32-IsTable (store tables32 0 a.image) va lt table32,
  )

  abbrev tables_1 : Bytes
  tables_1 = store h.mem.bytes 0x2000 (le_bytes 8 0x3007)

  abbrev tables_2 : Bytes
  tables_2 = store tables_1 0x3000 (le_bytes 8 0x4007)

  abbrev tables_3 : Bytes
  tables_3 = store tables_2 0x4000 (le_bytes 8 0x87)

  abbrev entered64 : Entered
  entered64 = record {
    sregs =
        setup_64bit_code_segment
          (record sregs { cr3 = 0x2000; cr4 = cr4_pae; cr0 = cr0_paged; efer = efer_long });
    regs = start_regs stack_top;
    host = record h { mem = record h.mem { bytes = store tables_3 0 a.image } };
  }

  enter_long-runs : enter_long_mode a h ≡ ok entered64
  unfolding enter_long_mode
  enter_long-runs = grind ram_laws

  below : (table : ℕ) → 0x2000 ≤ table → 0 + length a.image ≤ table
  below table le = omega (arith, ready.short)

  pml4 : IsTable (store tables_3 0 a.image) 0x2000 8 0x3007
  unfolding le_bytes of_le_bytes
  pml4 =
      IsTable-store tables_3 0 a.image 0x2000 8 0x3007 (omega arith)
        (inr (below 0x2000 (omega arith)))
        (IsTable-store tables_2 0x4000 (le_bytes 8 0x87) 0x2000 8 0x3007 (omega arith)
          (inl (omega arith))
          (IsTable-store tables_1 0x3000 (le_bytes 8 0x4007) 0x2000 8 0x3007 (omega arith)
            (inl (omega arith))
            (IsTable-first h.mem.bytes 0x2000 8 0x3007
              (λ q ge lt. ready.clear q ge (omega arith)))))

  pdpt : IsTable (store tables_3 0 a.image) 0x3000 8 0x4007
  unfolding le_bytes of_le_bytes
  pdpt =
      IsTable-store tables_3 0 a.image 0x3000 8 0x4007 (omega arith)
        (inr (below 0x3000 (omega arith)))
        (IsTable-store tables_2 0x4000 (le_bytes 8 0x87) 0x3000 8 0x4007 (omega arith)
          (inl (omega arith))
          (IsTable-first tables_1 0x3000 8 0x4007 (
            IsZero-store h.mem.bytes 0x2000 (le_bytes 8 0x3007) 0x3000 0x4000 (inr (omega arith))
              (λ q ge lt. ready.clear q (omega arith) (omega arith)))))

  pd : IsTable (store tables_3 0 a.image) 0x4000 8 0x87
  unfolding le_bytes of_le_bytes
  pd =
      IsTable-store tables_3 0 a.image 0x4000 8 0x87 (omega arith)
        (inr (below 0x4000 (omega arith)))
        (IsTable-first tables_2 0x4000 8 0x87 (
          IsZero-store tables_1 0x3000 (le_bytes 8 0x4007) 0x4000 0x5000 (inr (omega arith)) (
            IsZero-store h.mem.bytes 0x2000 (le_bytes 8 0x3007) 0x4000 0x5000 (inr (omega arith))
              (λ q ge lt. ready.clear q (omega arith) lt))))

  -- Where the kernel's calls succeed, the program has at most 8 KB, and the memory of the three
  -- tables is there and zero: the guest of `run_long_mode` starts, at address 0 and with its stack
  -- at 2 MB; its program stands at address 0, and the page walk from its CR3 takes the addresses
  -- below 2 MB to themselves and all other 48-bit addresses nowhere.
  pub enter_long_mode_lem :
      (va : ℕ)
      → va < 2 ^ 48
      → (e : Entered) × (enter_long_mode a h ≡ ok e)
        × (e.regs.rip ≡ 0)
        × (e.regs.rsp ≡ 0x200000)
        × (load e.host.mem.bytes 0 (length a.image) ≡ a.image)
        × (walk64 e.host.mem.bytes e.sregs.cr3 va ≡ (if ltb va 0x200000 then some va else none))
  unfolding setup_64bit_code_segment
  enter_long_mode_lem va lt = (
    entered64,
    enter_long-runs,
    refl,
    refl,
    load-store tables_3 0 a.image,
    walk64-IsTable (store tables_3 0 a.image) va lt pml4 pdpt pd,
  )
