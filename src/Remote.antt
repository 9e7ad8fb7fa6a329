-- ===== src/Remote.antt =====
-- The part of packages/remote that this library models.
pub mod Devices
