-- ===== src/Containers.antt =====
-- The program around namespaces of `Containerization/task1`.
pub mod Namespaces
pub mod Documented
pub mod Children
pub mod Hostnames
pub mod Waits
