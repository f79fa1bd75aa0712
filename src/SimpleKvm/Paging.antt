-- ===== src/SimpleKvm/Paging.antt =====
-- The page tables of simple-kvm.c against the page walk of the processor.
pub mod Walk
pub mod Tables
pub mod Enter
