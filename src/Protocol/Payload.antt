-- ===== src/Protocol/Payload.antt =====
-- The payloads of packages/protocol/route.schema.json, as far as the runtime reads them. An
-- identifier is opaque text that is only compared, so it is a number.
use agent_router.Prelude.{ℕ, Bool, true, false, Option, List, Text, ◌==◌}

abbrev pub Ident : Type 0
Ident = ℕ

pub data Target : Type 0 where
  user : Target
  role : Ident → Target

pub target_eq : Target → Target → Bool
target_eq Target.user Target.user = true
target_eq Target.user (Target.role b) = false
target_eq (Target.role a) Target.user = false
target_eq (Target.role a) (Target.role b) = a == b

-- `mode` of a completion
pub data Mode : Type 0 where
  result handoff : Mode

abbrev pub is_handoff : Mode → Bool
is_handoff Mode.handoff = true
is_handoff Mode.result = false

-- `to_type_first` is the order of the fields of `to`, whether `type` comes before `id`: JSON keeps it.
pub record Completion : Type 0 where
  pub mode : Mode
  pub to : Target
  pub to_type_first : Bool

-- `git` and `live` references are one constructor: the runtime resolves neither.
pub data Reference : Type 0 where
  artifact : Ident → Reference
  external : Reference
  unresolved : Reference

-- A `task.request`.
pub record Request : Type 0 where
  pub to : Ident
  pub to_type_first : Bool
  pub summary : Text
  pub body : Text
  pub inputs : List Reference
  pub completion : Completion
  pub on_problem : Option Target

pub record Notice : Type 0 where
  pub to : Target
  pub summary : Text
  pub body : Text
  pub inputs : List Reference

pub data Outcome : Type 0 where
  succeeded partial failed cancelled : Outcome

abbrev pub is_success : Outcome → Bool
is_success Outcome.succeeded = true
is_success _ = false

pub record Finish : Type 0 where
  pub outcome : Outcome
  pub summary : Text
  pub body : Text
  pub outputs : List Reference
  pub next_request : Option Request

pub data WaitFor : Type 0 where
  child_results user_input external_condition : WaitFor

pub record Wait : Type 0 where
  pub waiting_for : WaitFor
  pub reason : Text
  pub child_task_ids : Option (List Ident)

-- What `send`, `finish` and `wait` are given: the payloads that the schema tells apart.
pub data Input : Type 0 where
  request : Request → Input
  notice : Notice → Input
  finish : Finish → Input
  wait : Wait → Input
  error : Input

-- The object that `operation` hashes: `{ tool, input }`.
pub data Tool : Type 0 where
  send finish wait artifact_register artifact_write : Tool

pub record ToolCall : Type 0 where
  pub tool : Tool
  pub input : Input
