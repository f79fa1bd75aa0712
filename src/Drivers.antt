-- ===== src/Drivers.antt =====
-- The two character-device drivers of `Linux Internals Exploration/2_I` and `2_II`.
pub mod Module
pub mod PhysicalMemory
pub mod UserProgram
pub mod Reparent
pub mod Soldier
pub mod Station
