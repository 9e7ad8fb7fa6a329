-- ===== src/Transfer/Rows.antt =====
-- The row of an operation, and the writes on it. `capacity_json` is valid JSON by the schema; its
-- fields that the engine reads and writes are the record `Meta`, but those that are only shown, a field that is not there `none`,
-- `false` or 0.
use agent_router.Prelude.{
  ℕ, Bool, true, false, Option, some, List, [], ◌∷◌, ◌++◌, ◌==◌, ◌&&◌, one, any, update_where, Text,
}
use agent_router.Protocol.{Ident}
use agent_router.Transfer.Decide.{Decision}

pub data State : Type 0 where
  preparing exported seeded committed failed cancelled : State

pub data Code : Type 0 where
  export_unsupported export_failed source_compression_unavailable capacity_ask_user : Code
  target_init_failed ambiguous interrupted race unresolved target_ref_mismatch : Code

-- The resolved context of one side.
pub record Side : Type 0 where
  pub session_home : Option Text
  pub workspace_path : Option Text
  pub profile_ref : Option Text
  pub binding_id : Option Text
  pub role_session_id : Option Ident

pub record Meta : Type 0 where
  pub target_harness : Option Text
  pub source_harness : Option Text
  pub source : Side
  pub target : Side
  pub source_session_home : Option Text
  pub target_session_home : Option Text
  pub name : Option Text
  pub exported_sha256 : Option Text
  pub truncated : Bool
  pub decision : Option Decision
  pub compressed : Bool
  pub compressed_truncated : Bool
  pub seed_sha256 : Option Text
  pub seed_send_started : Bool
  pub native_fork : Bool
  pub source_native_ref : Option Text
  pub target_native_ref : Option Text
  pub target_returned_ref : Option Text
  pub target_created : Bool
  pub target_confirmed : Bool
  pub accepted_payload_sha256 : Option Text
  pub native_receipt : Option Text
  pub confirm_attempts : ℕ
  pub retries : ℕ

pub record Op : Type 0 where
  pub id : Ident
  pub role_id : Ident
  pub from_session_id : Ident
  pub to_session_id : Option Ident
  pub state : State
  pub meta : Meta
  pub error_code : Option Code

-- A row of `role_sessions`, with the columns that the engine reads.
pub record Session : Type 0 where
  pub id : Ident
  pub role_id : Ident
  pub active : Bool
  pub native_session_ref : Option Text

pub record Tables : Type 0 where
  pub ops : List Op
  pub sessions : List Session

pub record Commit : Type 0 where
  pub op_id : Ident
  pub role_id : Ident
  pub from_session_id : Ident
  pub name : Option Text
  pub target_harness : Text
  pub native_session_ref : Text

-- What the engine asks of its surroundings: a timer for an operation, the call of `onSettled`, and
-- a call of `commit` that returned, with the tables at the call.
pub data Event : Type 0 where
  retry_later : Ident → Event
  settled : (role_id : Ident) → Event
  committing : Commit → Tables → Event

pub record World : Type 0 where
  pub tables : Tables
  pub events : List Event

abbrev pub say : Event → World → World
say e w = record w { events = w.events ++ e ∷ [] }

abbrev pub op_of : Ident → Tables → Option Op
op_of id t = one (λ o. o.id == id) t.ops

-- `ACTIVE_STATES`
abbrev pub is_active : State → Bool
is_active State.preparing = true
is_active State.exported = true
is_active State.seeded = true
is_active State.committed = false
is_active State.failed = false
is_active State.cancelled = false

abbrev pub is_preparing : State → Bool
is_preparing State.preparing = true
is_preparing _ = false

abbrev pub is_exported : State → Bool
is_exported State.exported = true
is_exported _ = false

abbrev pub is_seeded : State → Bool
is_seeded State.seeded = true
is_seeded _ = false

unfoldable pub has_active : Ident → Tables → Bool
has_active role_id t = any (λ o. o.role_id == role_id && is_active o.state) t.ops

abbrev pub on_ops : (List Op → List Op) → World → World
on_ops f w = record w { tables = record w.tables { ops = f w.tables.ops } }

abbrev pub failing : Code → Op → Op
failing code o = record o { state = State.failed; error_code = some code }

unfoldable pub fail : Ident → Code → World → World
fail id code w = on_ops (update_where (λ o. o.id == id && is_active o.state) (failing code)) w

abbrev pub with_code : Code → Op → Op
with_code code o = record o { error_code = some code }

unfoldable pub mark_uncertain : Ident → Code → World → World
mark_uncertain id code w = on_ops (update_where (λ o. o.id == id) (with_code code)) w

abbrev pub with_meta : (Meta → Meta) → Op → Op
with_meta patch o = record o { meta = patch o.meta }

unfoldable pub set_meta : Ident → (Meta → Meta) → World → World
set_meta id patch w = on_ops (update_where (λ o. o.id == id) (with_meta patch)) w

-- `update context_transfer_ops set state=?, error_code=? where id=? and state in (...)`
abbrev pub moved : State → (Option Code → Option Code) → Op → Op
moved to code o = record o { state = to; error_code = code o.error_code }

unfoldable pub move : Ident → (State → Bool) → State → (Option Code → Option Code) → World → World
move id from to code w = on_ops (update_where (λ o. o.id == id && from o.state) (moved to code)) w

abbrev pub max_confirm_attempts : ℕ
max_confirm_attempts = 3

abbrev pub max_retries : ℕ
max_retries = 2
