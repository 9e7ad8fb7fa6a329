-- ===== src/Platform.antt =====
-- The part of packages/platform that this library models.
pub mod Framing
pub mod Diagnostics
