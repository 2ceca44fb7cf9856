-- ===== src/Tests.antt =====
-- Concrete inputs at which the theorems apply.
mod Data
mod Windows
mod Tables
mod Messages
mod Memory
mod Pointers
mod Queue
mod Iterate
mod Command
mod Clients
mod Devices
