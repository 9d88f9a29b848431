-- ===== src/Reserve.antt =====
-- The reserve fund of a building and its extraordinary levies.
pub mod Store
pub mod Sound
pub mod Fund
pub mod Collect
pub mod Levy
pub mod Requests
mod Tests
