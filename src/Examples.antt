-- ===== src/Examples.antt =====
-- Concrete runs: tests of the definitions, and the theorems at concrete inputs.
mod Delivery
mod Transfers
mod Messages
mod Events
mod Selection
mod Network
mod Scan
mod Pdos
mod Persisted
mod Nodes
