-- ===== src/Fees.antt =====
-- Fees that the platform computes: for late dues, and on awarded contracts.
pub mod LateFee
pub mod Charges
pub mod Commission
mod Tests
