-- ===== src/Core/Messages.antt =====
-- Tasks and messages between roles: the methods `target`, `refs`, `newRequest`, `message`, `send`,
-- `activeSessionId` and `submitFromUser` of packages/runtime/core.ts.
use agent_router.Prelude.{
  ℕ, suc, Bool, true, false, Option, none, some, List, [], ◌∷◌, ◌++◌, ◌&&◌, ◌==◌, ltb, one, any,
  select, max, Text, if◌then◌else◌,
}
use agent_router.Protocol.{
  Ident, Failure, Code, Category, Result, ok, err, ◌>>=◌, ◌>>◌, require, refuse, or_throw, Target,
  Request, Reference, Input, Tool,
}
use agent_router.Domain.{TaskState}
use agent_router.Store.{
  Db, Outside, Draw, Task, Chain, Policy, Content, Message, Outbox, OutboxState, EventType,
  Response, Artifact,
}
use agent_router.Core.External.{External, validate_payload, read_object}
use agent_router.Core.Identity.{Identity}
use agent_router.Core.Operation.{operation}

-- A target is the user, or a role of the caller's own space.
unfoldable pub target : Identity → Target → Db → Result (Unit {0})
target p Target.user s = ok tt
target p (Target.role id) s =
    require (any (λ r. r.id == id && r.space_id == p.space_id) s.roles)
      (Failure.route Code.invalid_target Category.authorization)

abbrev pub artifact_of : Ident → Ident → Db → Option Artifact
artifact_of id project_id s =
    one (λ a. a.id == id && a.project_id == project_id && a.available) s.artifacts

abbrev pub check_reference : External → Identity → Bool → Db → Reference → Result (Unit {0})
check_reference x p outputs s (Reference.artifact id) = do
  a ←
      or_throw (artifact_of id p.project_id s)
        (Failure.route Code.artifact_unavailable Category.validation)
  read_object x a
  ok tt
check_reference x p outputs s Reference.external =
    refuse outputs (Failure.route Code.output_must_be_frozen Category.validation)
check_reference x p outputs s Reference.unresolved = err (
    if outputs
    then Failure.route Code.output_must_be_frozen Category.validation
    else Failure.route Code.reference_resolver_unavailable Category.unavailable)

unfoldable pub refs : External → Identity → List Reference → Bool → Db → Result (Unit {0})
refs x p [] outputs s = ok tt
refs x p (r ∷ rs) outputs s = do check_reference x p outputs s r; refs x p rs outputs s

-- `order by revision desc limit 1`
unfoldable pub latest : List Policy → Option Policy
latest [] = none
latest (q ∷ qs) = elim (latest qs) [
  | none ↦ some q
  | some r ↦ if ltb q.revision r.revision then some r else some q
]

unfoldable pub latest_policy : Ident → List Policy → Option Policy
latest_policy project_id qs = latest (select (λ q. q.project_id == project_id) qs)

unfoldable pub next_seq : List Message → ℕ
next_seq [] = 1
next_seq (m ∷ ms) = max (suc m.seq) (next_seq ms)

abbrev pub event : EventType → Option Ident → Option Ident → Option Ident → Db → Db
event e role task run s = record s {
  events = s.events ++ record { event_type = e; role_id = role; task_id = task; run_id = run } ∷ [];
}

abbrev pub recipient : Content → Target → Target
recipient (Content.request r) to = Target.role r.to
recipient (Content.notice n) to = n.to
recipient (Content.result id f) to = to

abbrev pub is_notice : Content → Bool
is_notice (Content.notice n) = true
is_notice _ = false

abbrev pub outbox_state : Option Ident → OutboxState
outbox_state none = OutboxState.queued
outbox_state (some run) = OutboxState.held

-- The message, its entry in the outbox (held until a run settles, if one is given), and the event.
-- `to` is the recipient of a result, which its payload carries.
unfoldable pub message :
    Outside → Identity → Content → Target → ℕ → Option Ident → Option Ident → Db → Db
message o p content to op task held s =
    event EventType.message_stored (some p.role_id) task none (record s {
      messages = s.messages ++ stored ∷ [];
      outbox = if is_notice content then s.outbox else s.outbox ++ entry ∷ [];
    })
  where
    stored : Message
    stored = record {
      seq = next_seq s.messages;
      id = o.fresh Draw.message;
      space_id = p.space_id;
      task_id = task;
      content = content;
      from_role_id = some p.role_id;
      to = recipient content to;
      operation_row_id = op;
    }

    entry : Outbox
    entry = record {
      id = o.fresh Draw.outbox;
      message_id = o.fresh Draw.message;
      after_run_id = held;
      state = outbox_state held;
      claimed_run_id = none;
      attempt_count = 0;
    }

-- The active session of a role.
unfoldable pub active_session_id : Ident → Db → Option Ident
active_session_id role_id s = elim (one (λ e. e.role_id == role_id && e.active) s.role_sessions) [
  | none ↦ none
  | some e ↦ some e.id
]

abbrev pub problem_of : Request → Target
problem_of r = elim r.on_problem [ none ↦ Target.user | some t ↦ t ]

-- `insert into chains values(...)`
abbrev pub new_chain : Outside → Ident → Chain
new_chain o space_id = record {
  id = o.fresh Draw.chain;
  space_id = space_id;
  created_at_ms = o.now;
  max_auto_starts = 100;
  max_wall_ms = 28800000;
  active = true;
}

abbrev pub parent_of : Identity → Db → Option Task
parent_of p s = elim p.task_id [ none ↦ none | some id ↦ one (λ t. t.id == id) s.tasks ]

-- `inheritChain ?? parent?.chain_id ?? id('chain')`
abbrev pub chain_of : Outside → Option Ident → Option Task → Ident
chain_of o (some c) parent = c
chain_of o none (some t) = t.chain_id
chain_of o none none = o.fresh Draw.chain

abbrev pub policy_of : Identity → Option Task → Db → Option Ident
policy_of p (some t) s = some t.policy_id
policy_of p none s = elim (latest_policy p.project_id s.policies) [
  | none ↦ none
  | some q ↦ some q.id
]

-- The row of a new task.
abbrev pub stored_task :
    Outside → Identity → Request → Option Ident → Option Task → Ident → Db → Task
stored_task o p request inherit parent policy s = record {
  id = o.fresh Draw.task;
  space_id = p.space_id;
  requester_role_id = some p.role_id;
  assignee_role_id = request.to;
  parent_task_id = p.task_id;
  chain_id = chain_of o inherit parent;
  policy_id = policy;
  request = request;
  completion = request.completion;
  problem_target = problem_of request;
  state = TaskState.queued;
  role_session_id = active_session_id request.to s;
}

-- `if (!inheritChain && !parent)` a chain is begun.
abbrev pub chains_with : Outside → Identity → Option Ident → Option Task → Db → List Chain
chains_with o p (some c) parent s = s.chains
chains_with o p none (some t) s = s.chains
chains_with o p none none s = s.chains ++ new_chain o p.space_id ∷ []

abbrev pub insert_task : Outside → Identity → Request → Option Ident → Option Task → Ident → Db → Db
insert_task o p request inherit parent policy s = record s {
  chains = chains_with o p inherit parent s;
  tasks = s.tasks ++ stored_task o p request inherit parent policy s ∷ [];
}

-- The writes of a request that has passed the checks.
unfoldable pub store_request :
    Outside → Identity → Request → ℕ → Option Ident → Option Ident → Ident → Db → Db
store_request o p request op held inherit policy s =
    message o p (Content.request request) Target.user op (some (o.fresh Draw.task)) held
      (insert_task o p request inherit (parent_of p s) policy s)

unfoldable pub new_request :
    External
    → Outside
    → Identity
    → Request
    → ℕ
    → Option Ident
    → Option Ident
    → Db
    → Result (Ident × Db)
new_request x o p request op held inherit s = do
  target p (Target.role request.to) s
  target p request.completion.to s
  target p (problem_of request) s
  refs x p request.inputs false s
  policy ←
      or_throw (policy_of p (parent_of p s) s)
        (Failure.route Code.policy_required Category.validation)
  ok (o.fresh Draw.task, store_request o p request op held inherit policy s)

-- `send` on each kind of payload, inside the operation.
unfoldable pub send_body : External → Outside → Identity → Input → ℕ → Db → Result (Response × Db)
send_body x o p (Input.request r) row s = do
  (task, s') ← new_request x o p r row none none s
  ok (Response.empty, s')
send_body x o p (Input.notice n) row s = do
  target p n.to s
  refs x p n.inputs false s
  ok (Response.empty, message o p (Content.notice n) n.to row none none s)
send_body x o p _ row s = err (Failure.route Code.wrong_tool_payload Category.validation)

abbrev pub is_sendable : Input → Bool
is_sendable (Input.request r) = true
is_sendable (Input.notice n) = true
is_sendable _ = false

unfoldable pub send : External → Outside → Identity → Text → Input → Db → Result (Response × Db)
send x o p op input s = do
  validate_payload x input
  require (is_sendable input) (Failure.route Code.wrong_tool_payload Category.validation)
  operation p op (x.digest (record { tool = Tool.send; input = input })) (send_body x o p input) s
