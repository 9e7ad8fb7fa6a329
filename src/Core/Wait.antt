-- ===== src/Core/Wait.antt =====
-- A task that waits: the methods `wait` and `refreshWait` of packages/runtime/core.ts.
use agent_router.Prelude.{
  ℕ, suc, Bool, true, false, Option, none, some, List, [], ◌∷◌, ◌++◌, ◌&&◌, ◌||◌, not, ◌==◌, holds,
  any, all, one, select, update_where, map, Text, if◌then◌else◌,
}
use agent_router.Protocol.{
  Ident, Failure, Code, Category, Result, ok, err, ◌>>=◌, ◌>>◌, Target, Wait, WaitFor, Input, Tool,
  is_handoff, is_success, target_eq,
}
use agent_router.Domain.{TaskState}
use agent_router.Store.{Db, Task, WaitRecord, Publication, Response}
use agent_router.Core.External.{External, validate_payload}
use agent_router.Core.Identity.{Identity}
use agent_router.Core.Operation.{operation}
use agent_router.Core.Finish.{own_task}
use agent_router.Core.Transition.{transition}

abbrev pub is_published : Publication → Bool
is_published Publication.published = true
is_published _ = false

abbrev pub waits_for_children : WaitFor → Bool
waits_for_children WaitFor.child_results = true
waits_for_children _ = false

-- A published result of success for a task.
unfoldable pub delivered : Db → Ident → Bool
delivered s d =
    any (λ r. r.task_id == d && is_published r.publication_state && is_success r.finish.outcome)
      s.results

abbrev pub is_empty : List Ident → Bool
is_empty [] = true
is_empty (d ∷ ds) = false

unfoldable pub deps_ready : Db → List Ident → Bool
deps_ready s deps = not (is_empty deps) && all (delivered s) deps

abbrev pub set_ready : Bool → WaitRecord → WaitRecord
set_ready b w = record w { ready = b }

-- The readiness of a wait for child results is computed afresh; no other wait is touched.
unfoldable pub refresh_wait : Ident → Db → Db
refresh_wait task s = elim (one (λ w. w.task_id == task) s.wait_records) [
  | none ↦ s
  | some w ↦
      if waits_for_children w.waiting_for
      then record s {
        wait_records =
            update_where (λ w. w.task_id == task) (set_ready (deps_ready s w.dependencies))
              s.wait_records;
      }
      else s
]

-- The tasks whose results come back to this role.
abbrev pub is_child : Identity → Ident → Task → Bool
is_child p task t =
    holds t.parent_task_id task
    && not (is_handoff t.completion.mode)
    && target_eq t.completion.to (Target.role p.role_id)

abbrev pub task_ids : List Task → List Ident
task_ids = map (λ t. t.id)

abbrev pub member : List Ident → Ident → Bool
member ids d = any (λ i. i == d) ids

abbrev pub chosen : Option (List Ident) → List Ident → List Ident
chosen none children = children
chosen (some ids) children = ids

unfoldable pub dependencies : Identity → Ident → Wait → Db → Result (List Ident)
dependencies p task w s =
    if waits_for_children w.waiting_for
    then (let children = task_ids (select (is_child p task) s.tasks) in
        let deps = chosen w.child_task_ids children in
        if is_empty deps || not (all (member children) deps)
        then err (Failure.route Code.invalid_wait_dependency Category.validation)
        else ok deps)
    else ok []

-- `insert ... on conflict(task_id) do update`
abbrev pub renew : WaitRecord → WaitRecord → WaitRecord
renew n w = record n { generation = suc w.generation }

unfoldable pub upsert_wait : WaitRecord → List WaitRecord → List WaitRecord
upsert_wait n ws =
    if any (λ w. w.task_id == n.task_id) ws
    then update_where (λ w. w.task_id == n.task_id) (renew n) ws
    else ws ++ n ∷ []

-- The wait is recorded, not ready yet.
abbrev pub recorded_wait : Ident → Wait → List Ident → Db → Db
recorded_wait task w deps s = record s {
  wait_records =
      upsert_wait
        (record {
          task_id = task;
          waiting_for = w.waiting_for;
          reason = w.reason;
          dependencies = deps;
          ready = false;
          generation = 1;
        })
        s.wait_records;
}

unfoldable pub wait_body : Identity → Ident → Wait → ℕ → Db → Result (Response × Db)
wait_body p task w row s = do
  deps ← dependencies p task w s
  s₁ ← transition task TaskState.waiting_input (refresh_wait task (recorded_wait task w deps s))
  ok (Response.empty, s₁)

abbrev pub wait_of : Input → Result Wait
wait_of (Input.wait w) = ok w
wait_of _ = err (Failure.route Code.wait_requires_task Category.validation)

unfoldable pub wait : External → Identity → Text → Input → Db → Result (Response × Db)
wait x p op input s = do
  validate_payload x input
  w ← wait_of input
  task ← own_task p (Failure.route Code.wait_requires_task Category.validation)
  operation p op (x.digest (record { tool = Tool.wait; input = input })) (wait_body p task w) s
