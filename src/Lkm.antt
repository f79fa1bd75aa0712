-- ===== src/Lkm.antt =====
-- `Linux Internals Exploration/1`: the kernel modules lkm1.c to lkm4.c.
pub mod Kernel
pub mod Listing
pub mod Translation
pub mod Sizes
pub mod Clients
