-- ===== src/Transfer.antt =====
-- packages/core-service/context-transfer.ts and context-transfer-engine.ts: the context of a role's
-- session is moved to a new session, of the same or of another harness.
pub mod Decide
pub mod Rows
pub mod Ports
pub mod Settle
pub mod Due
pub mod Fork
pub mod Run
pub mod Kept
pub mod Laws
pub mod Bounds
pub mod Ended
pub mod Completes
