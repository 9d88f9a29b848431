-- ===== src/Subscriptions.antt =====
-- Paid subscriptions.
pub mod Pricing
pub mod Credits
mod Tests
