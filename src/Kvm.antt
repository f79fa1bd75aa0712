-- ===== src/Kvm.antt =====
-- What both hypervisors use of linux/kvm.h: the register structures, and the ends of a program.
mod Registers
mod Exit
pub use Registers.*
unfoldable pub use Exit.*
