-- ===== src/Examples/Office.antt =====
-- One project with one space and two roles: role 4 works on task 20 for role 3, in run 30.
use agent_router.Prelude.{true, false, Option, none, some, [], ◌∷◌, length, Text}
use agent_router.Protocol.{Ident, Target, Mode, Request, Outcome, Input}
use agent_router.Domain.{TaskState}
use agent_router.Store.{
  Db, Outside, Draw, Status, Binding, Affinity, Task, Run, RunState, Kind, RoleSlot, Message,
  Content, Outbox, OutboxState, StagedResult, Publication, ResourceLease, Resource,
}
use agent_router.Core.External.{External, Blob}
use agent_router.Core.Identity.{Identity, Bound}
use agent_router.Core.Dispatch.Gates.{Options}

abbrev pub ask : Request
ask = record {
  to = 4;
  to_type_first = true;
  summary = 83 ∷ [];
  body = 66 ∷ [];
  inputs = [];
  completion = record { mode = Mode.result; to = Target.user; to_type_first = true };
  on_problem = none;
}

abbrev pub request_message : Message
request_message = record {
  seq = 1;
  id = 21;
  space_id = 2;
  task_id = some 20;
  content = Content.request ask;
  from_role_id = none;
  to = Target.role 4;
  operation_row_id = 0;
}

abbrev pub request_entry : OutboxState → Option Ident → Outbox
request_entry state claimed = record {
  id = 22;
  message_id = 21;
  after_run_id = none;
  state = state;
  claimed_run_id = claimed;
  attempt_count = 0;
}

abbrev pub task_in : TaskState → Task
task_in state = record {
  id = 20;
  space_id = 2;
  requester_role_id = none;
  assignee_role_id = 4;
  parent_task_id = none;
  chain_id = 15;
  policy_id = 6;
  request = ask;
  completion = record { mode = Mode.result; to = Target.user; to_type_first = true };
  problem_target = Target.user;
  state = state;
  role_session_id = some 10;
}

abbrev pub binding : Binding
binding = record {
  id = 8;
  role_id = 4;
  harness = 70;
  workspace_id = 5;
  auth_unit_id = none;
  epoch = 1;
  is_current = true;
  capability = record { mock = true; live_tested = false };
}

abbrev pub bound : Bound
bound = record { binding = binding; space_id = 2; project_id = 1 }

abbrev pub slot : Option Ident → Option Ident → RoleSlot
slot task run = record {
  role_id = 4;
  active_task_id = task;
  active_run_id = run;
  blocked_reason = none;
}

-- Task 20 is queued, and no run has begun.
abbrev pub office : Db
office = record {
  projects = record { id = 1; status = Status.active } ∷ [];
  spaces = record { id = 2; project_id = 1; status = Status.active } ∷ [];
  roles =
      record { id = 3; space_id = 2; status = Status.active }
      ∷ record { id = 4; space_id = 2; status = Status.active }
      ∷ [];
  workspaces = record { id = 5; canonical_path = 50; ready = true } ∷ [];
  auth_units = [];
  policies = record { id = 6; project_id = 1; revision = 1 } ∷ [];
  bindings = binding ∷ [];
  role_sessions =
      record {
        id = 10;
        role_id = 4;
        harness = some 70;
        driver_id = some 70;
        affinity = Affinity.absent;
        active = true;
      }
      ∷ [];
  activations = [];
  chains =
      record {
        id = 15;
        space_id = 2;
        created_at_ms = 0;
        max_auto_starts = 100;
        max_wall_ms = 28800000;
        active = true;
      }
      ∷ [];
  tasks = task_in TaskState.queued ∷ [];
  runs = [];
  role_slots = slot none none ∷ [];
  operations = [];
  messages = request_message ∷ [];
  outbox = request_entry OutboxState.queued none ∷ [];
  results = [];
  continuations = [];
  wait_records = [];
  task_inputs = [];
  conversation_items = [];
  artifacts = [];
  resource_leases = [];
  approvals = [];
  issues = [];
  events = [];
  auto_starts = [];
}

abbrev pub run_in : RunState → Run
run_in state = record {
  id = 30;
  role_id = 4;
  binding_id = 8;
  task_id = some 20;
  chain_id = some 15;
  kind = Kind.task;
  binding_epoch = 1;
  snapshot = record { request = ask; task_input = none };
  state = state;
  role_session_id = some 10;
  activation_id = none;
}

abbrev pub lease : ResourceLease
lease = record {
  resource_key = Resource.workspace 50;
  run_id = 30;
  binding_epoch = 1;
  quarantined = false;
}

-- Run 30 works on task 20.
abbrev pub working : Db
working = record office {
  tasks = task_in TaskState.active ∷ [];
  runs = run_in RunState.running ∷ [];
  role_slots = slot (some 20) (some 30) ∷ [];
  outbox = request_entry OutboxState.delivered (some 30) ∷ [];
  resource_leases = lease ∷ [];
}

abbrev pub answer : StagedResult
answer = record {
  id = 40;
  task_id = 20;
  run_id = some 30;
  finish = record {
    outcome = Outcome.succeeded;
    summary = 83 ∷ [];
    body = 66 ∷ [];
    outputs = [];
    next_request = none;
  };
  publication_state = Publication.staged;
}

-- Run 30 has staged its result, and the message of it is held.
abbrev pub staged : Db
staged = record working {
  tasks = task_in TaskState.result_staged ∷ [];
  runs = run_in RunState.settling ∷ [];
  results = answer ∷ [];
  outbox =
      request_entry OutboxState.delivered (some 30)
      ∷ record {
        id = 42;
        message_id = 41;
        after_run_id = some 30;
        state = OutboxState.held;
        claimed_run_id = none;
        attempt_count = 0;
      }
      ∷ [];
}

abbrev pub outside : Outside
outside = record {
  now = 1000;
  fresh = λ d. elim d [
    | Draw.chain ↦ 90
    | Draw.task ↦ 91
    | Draw.message ↦ 92
    | Draw.outbox ↦ 93
    | Draw.result ↦ 94
    | Draw.run ↦ 30
    | Draw.activation ↦ 96
    | Draw.continuation ↦ 97
    | Draw.artifact ↦ 98
  ];
}

-- Every payload is valid, a digest is the length of a notice's body, and no object file is there.
abbrev pub size_of : Input → Ident
size_of (Input.notice n) = length n.body
size_of _ = 0

abbrev pub external : External
external = record {
  valid = λ i. true;
  digest = λ c. size_of c.input;
  sha256 = λ b. length b;
  blob = λ k. Blob.missing;
}

abbrev pub options : Options
options = record {
  allow_mock = true;
  fixture_authorization = λ b. false;
  native_authorization = none;
  before_dispatch = λ s role_id. none;
  kind_for_task = λ t. none;
}

-- The principal of run 30.
abbrev pub worker : Identity
worker = record {
  role_id = 4;
  binding_id = 8;
  epoch = 1;
  activation_id = none;
  activation_epoch = none;
  space_id = 2;
  project_id = 1;
  run_id = some 30;
  task_id = some 20;
  management = false;
  granted_tools = none;
}

abbrev pub notice : Text → Input
notice b = Input.notice (record { to = Target.role 3; summary = 83 ∷ []; body = b; inputs = [] })
