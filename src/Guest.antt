-- ===== src/Guest.antt =====
-- `KVM Hypervisor + Virtualization/part1/guest.c`: the guest's hypercalls, run against the
-- hypervisor of `SimpleKvm`.
pub mod Machine
pub mod Calls
pub mod Ports
pub mod Translate
pub mod Counts
pub mod ByType
pub mod Start
pub mod Traced
