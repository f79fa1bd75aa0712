-- ===== src/Matrix.antt =====
-- `KVM Hypervisor + Virtualization/part2`: two guests on one host. matrix.c shares the time of the
-- host by quota, matrix-b.c in turns, matrix-a.c at each I/O exit.
pub mod Sched
pub mod Quota
pub mod Alternate
pub mod Starvation
pub mod Fairness
pub mod Signals
pub mod Guests
pub mod Output
pub mod OnIo
pub mod Thread
pub mod Vm
pub mod Load
pub mod Setup
pub mod StartAddress
pub mod Program
pub mod MatrixA
pub mod MatrixB
pub mod MatrixC
