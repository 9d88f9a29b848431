-- ===== src/Partners.antt =====
-- Referred leads of partners.
pub mod Pipeline
mod Tests
