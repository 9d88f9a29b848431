-- ===== src/Bank.antt =====
-- Bank statements.
pub mod Matching
mod Tests
