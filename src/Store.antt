-- ===== src/Store.antt =====
-- The database of packages/storage as packages/runtime/core.ts reads and writes it: a record of
-- tables. Columns that no operation reads (times of an update, JSON kept for display) are left out.
mod Rows
pub use Rows.*
use agent_router.Prelude.{ℕ, zero, suc, List, [], ◌∷◌, max}
use agent_router.Protocol.{Ident}

pub record Db : Type 0 where
  pub projects : List Project
  pub spaces : List Space
  pub roles : List Role
  pub workspaces : List Workspace
  pub auth_units : List AuthUnit
  pub policies : List Policy
  pub bindings : List Binding
  pub role_sessions : List RoleSession
  pub activations : List Activation
  pub chains : List Chain
  pub tasks : List Task
  pub runs : List Run
  pub role_slots : List RoleSlot
  pub operations : List Operation
  pub messages : List Message
  pub outbox : List Outbox
  pub results : List StagedResult
  pub continuations : List Continuation
  pub wait_records : List WaitRecord
  pub task_inputs : List TaskInput
  pub conversation_items : List ConversationItem
  pub artifacts : List Artifact
  pub resource_leases : List ResourceLease
  pub approvals : List Approval
  pub issues : List Issue
  pub events : List Event
  pub auto_starts : List AutoStart

-- The prefixes with which the runtime calls `id(...)`.
pub data Draw : Type 0 where
  chain task message outbox result run activation continuation artifact : Draw

-- What one call of an operation learns from outside: a reading of the clock, and the identifiers
-- that `id(...)` makes with `randomUUID`. No call draws two with one prefix, but for the issues and
-- events, whose identifiers are not kept.
pub record Outside : Type 0 where
  pub now : ℕ
  pub fresh : Draw → Ident
