-- ===== src/Dashboard.antt =====
-- The dashboard.
pub mod Jobs
mod Dicts
pub mod Sessions
pub mod Attempts
