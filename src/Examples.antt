-- ===== src/Examples.antt =====
-- Concrete runs of the modelled programs.
mod Data
mod SimpleKvm
mod RealGuest
mod Guest
mod Matrix
mod MatrixGuests
mod GuestSetup
mod Lkm
mod Drivers
mod Containers
mod Schedules
mod Clients
