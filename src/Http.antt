-- ===== src/Http.antt =====
-- The bounded transport to the sources.
pub mod Throttle
