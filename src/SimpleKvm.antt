-- ===== src/SimpleKvm.antt =====
-- `KVM Hypervisor + Virtualization/part1/simple-kvm.c`, the host side of the hypercall machine.
mod State
mod Exits
mod Run
pub mod Modes
pub mod Main
pub mod Paging
pub mod Counters
pub mod Safety
pub mod Success
pub mod Starts
pub mod RealGuest
pub use State.*
unfoldable pub use Exits.*
unfoldable pub use Run.*
