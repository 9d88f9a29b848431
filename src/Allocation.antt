-- ===== src/Allocation.antt =====
-- Dividing an expense among the units of a building.
pub mod Float
pub mod Split
pub mod Weights
pub mod Meters
pub mod Ownership
mod Tests
