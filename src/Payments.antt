-- ===== src/Payments.antt =====
-- Online payments.
pub mod Store
pub mod Settle
pub mod Checkout
mod Tests
