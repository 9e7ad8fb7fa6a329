-- ===== src/Protocol.antt =====
-- packages/protocol/index.ts: the errors that the operations throw, and the payloads of the role
-- tools as packages/protocol/route.schema.json admits them.
mod Errors
mod Payload
pub use Errors.*
pub use Payload.*
