-- ===== src/Core/Finish.antt =====
-- The end of a task's work: the method `finish` of packages/runtime/core.ts.
use agent_router.Prelude.{
  ℕ, Bool, true, false, Option, none, some, [], ◌∷◌, ◌++◌, ◌&&◌, not, ◌==◌, holds, is_some, one,
  any, update_where, Text, if◌then◌else◌,
}
use agent_router.Protocol.{
  Ident, Failure, Code, Category, Result, ok, err, ◌>>=◌, ◌>>◌, require, refuse, or_throw, Target,
  Request, Completion, Finish, Input, Tool, target_eq, is_handoff, is_success,
}
use agent_router.Domain.{TaskState}
use agent_router.Store.{
  Db, Outside, Draw, Task, Run, RunState, Content, Publication, StagedResult, EventType, Response,
}
use agent_router.Core.External.{External, validate_payload}
use agent_router.Core.Identity.{Identity}
use agent_router.Core.Operation.{operation}
use agent_router.Core.Messages.{target, refs, message, new_request, event}
use agent_router.Core.Transition.{transition}

-- Where the outcome is reported.
abbrev pub report_to : Task → Finish → Target
report_to t f = if is_success f.outcome then t.completion.to else t.problem_target

abbrev pub same_order : Bool → Bool → Bool
same_order true b = b
same_order false b = not b

-- A handoff names the next request, and the next request goes to the agreed role: `JSON.stringify`
-- writes the two targets alike where they are equal and their fields are in the same order.
abbrev pub handoff_fits : Completion → Option Request → Bool
handoff_fits c none = false
handoff_fits c (some r) =
    target_eq (Target.role r.to) c.to && same_order r.to_type_first c.to_type_first

abbrev pub check_next : Task → Finish → Result (Unit {0})
check_next t f =
    if is_success f.outcome && is_handoff t.completion.mode
    then require (handoff_fits t.completion f.next_request)
        (Failure.route Code.handoff_target_mismatch Category.validation)
    else refuse (is_some f.next_request)
        (Failure.route Code.unexpected_next_request Category.validation)

-- `insert into results`, whose `task_id` is unique.
unfoldable pub insert_result : StagedResult → Db → Result Db
insert_result r s = do
  refuse (any (λ q. q.task_id == r.task_id) s.results) Failure.broken
  ok (record s { results = s.results ++ r ∷ [] })

-- The next request, or the message that carries the result; both are held until the run settles.
unfoldable pub report :
    External → Outside → Identity → Ident → Task → Finish → Option Request → ℕ → Db → Result Db
report x o p task_id t f (some next) row s = do
  (id, s') ← new_request x o p next row p.run_id (some t.chain_id) s
  ok s'
report x o p task_id t f none row s = ok (
    message o p (Content.result (o.fresh Draw.result) f) (report_to t f) row (some task_id) p.run_id
      s)

abbrev pub set_run_state : RunState → Run → Run
set_run_state to r = record r { state = to }

-- The row of a result that is not published yet.
abbrev pub staged_result : Outside → Identity → Ident → Finish → StagedResult
staged_result o p task_id f = record {
  id = o.fresh Draw.result;
  task_id = task_id;
  run_id = p.run_id;
  finish = f;
  publication_state = Publication.staged;
}

-- The run settles, and the event is stored.
abbrev pub settling : Identity → Ident → Db → Db
settling p task_id s =
    event EventType.result_staged (some p.role_id) (some task_id) p.run_id (record s {
      runs = update_where (λ r. holds p.run_id r.id) (set_run_state RunState.settling) s.runs;
    })

unfoldable pub finish_body :
    External → Outside → Identity → Ident → Finish → ℕ → Db → Result (Response × Db)
finish_body x o p task_id f row s = do
  t ← or_throw (one (λ t. t.id == task_id) s.tasks) Failure.broken
  check_next t f
  refs x p f.outputs true s
  target p (report_to t f) s
  s₁ ← insert_result (staged_result o p task_id f) s
  s₂ ← report x o p task_id t f f.next_request row s₁
  s₃ ← transition task_id TaskState.result_staged s₂
  ok (Response.empty, settling p task_id s₃)

-- The payload of a finish and the task of a principal that is a role's run.
abbrev pub finish_of : Input → Result Finish
finish_of (Input.finish f) = ok f
finish_of _ = err (Failure.route Code.finish_requires_task Category.validation)

abbrev pub own_task : Identity → Failure → Result Ident
own_task p e = if p.management then err e else or_throw p.task_id e

unfoldable pub finish : External → Outside → Identity → Text → Input → Db → Result (Response × Db)
finish x o p op input s = do
  validate_payload x input
  f ← finish_of input
  task_id ← own_task p (Failure.route Code.finish_requires_task Category.validation)
  operation p op (x.digest (record { tool = Tool.finish; input = input }))
      (finish_body x o p task_id f) s
