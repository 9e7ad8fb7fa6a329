-- ===== src/Core/Submit.antt =====
-- A task from the user: the method `submitFromUser` of packages/runtime/core.ts; and `pause`.
use agent_router.Prelude.{
  ℕ, none, some, List, [], ◌∷◌, ◌++◌, ◌&&◌, ◌==◌, any, is_some, update_where,
}
use agent_router.Protocol.{
  Ident, Failure, Code, Category, Result, ok, err, ◌>>=◌, ◌>>◌, require, or_throw, Target, Request,
  Reference, Input,
}
use agent_router.Domain.{TaskState}
use agent_router.Store.{
  Db, Outside, Draw, Task, Content, Message, Outbox, OutboxState, EventType, Status, Role,
}
use agent_router.Core.External.{External, validate_payload}
use agent_router.Core.Messages.{
  artifact_of, event, active_session_id, latest_policy, new_chain, next_seq, problem_of,
}

abbrev pub request_of : Input → Result Request
request_of (Input.request r) = ok r
request_of _ = err (Failure.route Code.wrong_tool_payload Category.validation)

unfoldable pub in_space : Ident → Target → Db → Result (Unit {0})
in_space space_id Target.user s = ok tt
in_space space_id (Target.role id) s =
    require (any (λ r. r.id == id && r.space_id == space_id) s.roles)
      (Failure.route Code.cross_space_denied Category.authorization)

unfoldable pub user_refs : Ident → List Reference → Db → Result (Unit {0})
user_refs project_id [] s = ok tt
user_refs project_id (Reference.artifact id ∷ rs) s = do
  require (is_some (artifact_of id project_id s))
      (Failure.route Code.artifact_scope Category.authorization)
  user_refs project_id rs s
user_refs project_id (Reference.external ∷ rs) s = user_refs project_id rs s
user_refs project_id (Reference.unresolved ∷ rs) s =
    err (Failure.route Code.reference_unsupported Category.validation)

-- The rows of an accepted request.
abbrev pub user_task : Outside → Ident → Ident → Request → Db → Task
user_task o space_id policy r s = record {
  id = o.fresh Draw.task;
  space_id = space_id;
  requester_role_id = none;
  assignee_role_id = r.to;
  parent_task_id = none;
  chain_id = o.fresh Draw.chain;
  policy_id = policy;
  request = r;
  completion = r.completion;
  problem_target = problem_of r;
  state = TaskState.queued;
  role_session_id = active_session_id r.to s;
}

abbrev pub user_message : Outside → Ident → Request → ℕ → Db → Message
user_message o space_id r row s = record {
  seq = next_seq s.messages;
  id = o.fresh Draw.message;
  space_id = space_id;
  task_id = some (o.fresh Draw.task);
  content = Content.request r;
  from_role_id = none;
  to = Target.role r.to;
  operation_row_id = row;
}

abbrev pub user_entry : Outside → Outbox
user_entry o = record {
  id = o.fresh Draw.outbox;
  message_id = o.fresh Draw.message;
  after_run_id = none;
  state = OutboxState.queued;
  claimed_run_id = none;
  attempt_count = 0;
}

unfoldable pub submit_from_user :
    External → Outside → (project_id space_id : Ident) → Input → ℕ → Db → Result (Ident × Db)
submit_from_user x o project_id space_id input row s = do
  validate_payload x input
  r ← request_of input
  in_space space_id (Target.role r.to) s
  in_space space_id r.completion.to s
  in_space space_id (problem_of r) s
  require (any (λ sp. sp.id == space_id && sp.project_id == project_id) s.spaces)
      (Failure.route Code.scope_denied Category.authorization)
  user_refs project_id r.inputs s
  policy ←
      or_throw (latest_policy project_id s.policies)
        (Failure.route Code.policy_required Category.validation)
  ok (
    o.fresh Draw.task,
    event EventType.user_task_stored none (some (o.fresh Draw.task)) none (record s {
      chains = s.chains ++ new_chain o space_id ∷ [];
      tasks = s.tasks ++ user_task o space_id policy.id r s ∷ [];
      messages = s.messages ++ user_message o space_id r row s ∷ [];
      outbox = s.outbox ++ user_entry o ∷ [];
    }),
  )

abbrev pub set_status : Status → Role → Role
set_status to r = record r { status = to }

unfoldable pub pause : Ident → Db → Db
pause role_id s = record s {
  roles = update_where (λ r. r.id == role_id) (set_status Status.paused) s.roles;
}
