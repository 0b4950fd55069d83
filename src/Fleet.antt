-- ===== src/Fleet.antt =====
-- The scheduling of several devices (src/fleet).
pub mod Scheduler
