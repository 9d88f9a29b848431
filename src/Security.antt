-- ===== src/Security.antt =====
-- Protection of the login.
pub mod Lockout
mod Tests
