-- ===== src/Plans.antt =====
-- Payment plans.
pub mod Installments
pub mod Settlement
mod Tests
