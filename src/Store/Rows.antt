-- ===== src/Store/Rows.antt =====
-- The rows of the tables in packages/storage/migrations, with the columns that
-- packages/runtime/core.ts reads.
use agent_router.Prelude.{ℕ, Bool, true, false, Option, List, Text}
use agent_router.Protocol.{Ident, Target, Completion, Request, Notice, Finish, WaitFor}
use agent_router.Domain.{TaskState}

-- The columns `status`, as far as the runtime tells their values apart.
pub data Status : Type 0 where
  active paused disabled archived : Status

abbrev pub is_active : Status → Bool
is_active Status.active = true
is_active _ = false

pub record Project : Type 0 where
  pub id : Ident
  pub status : Status

pub record Space : Type 0 where
  pub id : Ident
  pub project_id : Ident
  pub status : Status

pub record Role : Type 0 where
  pub id : Ident
  pub space_id : Ident
  pub status : Status

pub record Workspace : Type 0 where
  pub id : Ident
  pub canonical_path : Ident
  pub ready : Bool

pub record AuthUnit : Type 0 where
  pub id : Ident
  pub max_active_runs : ℕ
  pub ready : Bool

pub record Policy : Type 0 where
  pub id : Ident
  pub project_id : Ident
  pub revision : ℕ

-- `capability_json`, of which two fields are read
pub record Capability : Type 0 where
  pub mock : Bool
  pub live_tested : Bool

pub record Binding : Type 0 where
  pub id : Ident
  pub role_id : Ident
  pub harness : Ident
  pub workspace_id : Ident
  pub auth_unit_id : Option Ident
  pub epoch : ℕ
  pub is_current : Bool
  pub capability : Capability

-- `workspace_affinity_json`: null, no JSON object, or an object with or without a `workspace_id`.
pub data Affinity : Type 0 where
  absent malformed : Affinity
  workspace : Option Ident → Affinity

pub record RoleSession : Type 0 where
  pub id : Ident
  pub role_id : Ident
  pub harness : Option Ident
  pub driver_id : Option Ident
  pub affinity : Affinity
  pub active : Bool

pub record Activation : Type 0 where
  pub id : Ident
  pub role_id : Ident
  pub role_session_id : Ident
  pub binding_id : Ident
  pub binding_epoch : ℕ
  pub activation_epoch : ℕ
  pub active : Bool

pub record Chain : Type 0 where
  pub id : Ident
  pub space_id : Ident
  pub created_at_ms : ℕ
  pub max_auto_starts : ℕ
  pub max_wall_ms : ℕ
  pub active : Bool

pub record Task : Type 0 where
  pub id : Ident
  pub space_id : Ident
  pub requester_role_id : Option Ident
  pub assignee_role_id : Ident
  pub parent_task_id : Option Ident
  pub chain_id : Ident
  pub policy_id : Ident
  pub request : Request
  pub completion : Completion
  pub problem_target : Target
  pub state : TaskState
  pub role_session_id : Option Ident

pub data RunState : Type 0 where
  created starting running waiting_approval settling : RunState
  succeeded failed cancelled unknown : RunState

pub data Kind : Type 0 where
  task continuation result_handling management : Kind

-- `task_input` in the snapshot of a continuation, with the body that it adds to the request's.
pub data TaskInputNote : Type 0 where
  formal : (input_id : Ident) → Text → TaskInputNote
  legacy : Text → TaskInputNote

pub record Snapshot : Type 0 where
  pub request : Request
  pub task_input : Option TaskInputNote

pub record Run : Type 0 where
  pub id : Ident
  pub role_id : Ident
  pub binding_id : Ident
  pub task_id : Option Ident
  pub chain_id : Option Ident
  pub kind : Kind
  pub binding_epoch : ℕ
  pub snapshot : Snapshot
  pub state : RunState
  pub role_session_id : Option Ident
  pub activation_id : Option Ident

-- `blocked_reason`; `refused` carries what `beforeDispatch` returned.
pub data Reason : Type 0 where
  harness_unverified paused native_run_active reconciling current_task_unresolved : Reason
  clock_rollback global_concurrency chain_budget rate_limited workspace_unavailable : Reason
  auth_concurrency_unsupported auth_unavailable resource_locked work_session_missing : Reason
  work_session_binding_mismatch task_input_missing : Reason
  refused : Ident → Reason

pub record RoleSlot : Type 0 where
  pub role_id : Ident
  pub active_task_id : Option Ident
  pub active_run_id : Option Ident
  pub blocked_reason : Option Reason

-- `scope_key`: the binding, its epoch, and the run or `management`
pub record Scope : Type 0 where
  pub binding_id : Ident
  pub epoch : ℕ
  pub run_id : Option Ident

-- `response_json`; `send`, `finish` and `wait` answer `{}`.
pub data Response : Type 0 where
  empty : Response
  artifact : Ident → (byte_size : ℕ) → Response

pub record Operation : Type 0 where
  pub id : ℕ
  pub scope : Scope
  pub operation_id : Text
  pub request_hash : Ident
  pub response : Response

pub data Content : Type 0 where
  request : Request → Content
  notice : Notice → Content
  result : Ident → Finish → Content

pub record Message : Type 0 where
  pub seq : ℕ
  pub id : Ident
  pub space_id : Ident
  pub task_id : Option Ident
  pub content : Content
  pub from_role_id : Option Ident
  pub to : Target
  pub operation_row_id : ℕ

pub data OutboxState : Type 0 where
  held queued dispatching delivered unknown undeliverable : OutboxState

pub record Outbox : Type 0 where
  pub id : Ident
  pub message_id : Ident
  pub after_run_id : Option Ident
  pub state : OutboxState
  pub claimed_run_id : Option Ident
  pub attempt_count : ℕ

pub data Publication : Type 0 where
  staged published quarantined : Publication

-- A row of `results`.
pub record StagedResult : Type 0 where
  pub id : Ident
  pub task_id : Ident
  pub run_id : Option Ident
  pub finish : Finish
  pub publication_state : Publication

pub record Continuation : Type 0 where
  pub id : Ident
  pub parent_task_id : Ident
  pub result_id : Ident
  pub consumed_run_id : Option Ident

pub record WaitRecord : Type 0 where
  pub task_id : Ident
  pub waiting_for : WaitFor
  pub reason : Text
  pub dependencies : List Ident
  pub ready : Bool
  pub generation : ℕ

pub record TaskInput : Type 0 where
  pub id : Ident
  pub task_id : Ident
  pub payload : Text
  pub created_at_ms : ℕ
  pub consumed_by_run_id : Option Ident
  pub consumed_at_ms : Option ℕ

pub record ConversationItem : Type 0 where
  pub task_id : Option Ident
  pub user_message : Bool
  pub body : Text

pub record Artifact : Type 0 where
  pub id : Ident
  pub project_id : Ident
  pub storage_key : Ident
  pub sha256 : Ident
  pub byte_size : ℕ
  pub available : Bool

-- `workspace:<path>` and `auth:<unit>`
pub data Resource : Type 0 where
  workspace : Ident → Resource
  auth : Ident → Resource

pub record ResourceLease : Type 0 where
  pub resource_key : Resource
  pub run_id : Ident
  pub binding_epoch : ℕ
  pub quarantined : Bool

pub record Approval : Type 0 where
  pub id : Ident
  pub run_id : Ident
  pub pending : Bool

pub data IssueCode : Type 0 where
  run_requires_attention execution_unknown : IssueCode

pub record Issue : Type 0 where
  pub role_id : Ident
  pub task_id : Option Ident
  pub run_id : Ident
  pub code : IssueCode

pub data EventType : Type 0 where
  message_stored user_task_stored result_staged dispatch_intent run_settled : EventType

pub record Event : Type 0 where
  pub event_type : EventType
  pub role_id : Option Ident
  pub task_id : Option Ident
  pub run_id : Option Ident

pub record AutoStart : Type 0 where
  pub run_id : Ident
  pub role_id : Ident
  pub space_id : Ident
  pub chain_id : Ident
  pub started_at_ms : ℕ
