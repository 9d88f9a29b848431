-- ===== src/Treasury.antt =====
-- The accounts of a building and the entries that move their balances.
pub mod Ledger
pub mod Journal
pub mod Months
pub mod Replay
mod Tests
