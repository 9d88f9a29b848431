-- ===== src/Payouts.antt =====
-- The payments of a building to its suppliers.
pub mod Register
pub mod Groups
pub mod Sums
mod Tests
