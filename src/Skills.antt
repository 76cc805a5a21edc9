-- ===== src/Skills.antt =====
-- The parts of src/skills.
pub mod Cache
pub mod Limits
pub mod Files
pub mod Sidecar
pub mod Metadata
pub mod Scopes
pub mod Scan
pub mod Service
mod Checks
