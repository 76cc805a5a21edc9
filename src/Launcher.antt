-- ===== src/Launcher.antt =====
-- The launcher's components, src/launcher.
pub mod RotatingLog
