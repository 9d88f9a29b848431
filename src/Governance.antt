-- ===== src/Governance.antt =====
-- Decisions of the owners of a building.
pub mod Tally
pub mod Quorum
mod Tests
