-- ===== src/RoleContext.antt =====
-- packages/core-service/role-context-store.ts: for each role a numbered log of what its sessions have
-- made visible, and for each session how far it has been told of it.
pub mod Portable
pub mod Store
