-- ===== src/Core/Transition.antt =====
-- The method `transition` of packages/runtime/core.ts, with the index `one_active_independent_task`
-- of the schema: a role has at most one task that is active, waiting or staged.
use agent_router.Prelude.{Bool, true, false, ◌&&◌, not, ◌==◌, one, any, update_where}
use agent_router.Protocol.{Ident, Failure, Result, ok, ◌>>=◌, ◌>>◌, refuse, or_throw}
use agent_router.Domain.{TaskState, assert_transition}
use agent_router.Store.{Db, Task}

abbrev pub occupies : TaskState → Bool
occupies TaskState.active = true
occupies TaskState.waiting_input = true
occupies TaskState.result_staged = true
occupies _ = false

abbrev pub set_state : TaskState → Task → Task
set_state to t = record t { state = to }

-- Another task of the same role that the index counts.
abbrev pub rival : Task → Task → Bool
rival t o = not (o.id == t.id) && o.assignee_role_id == t.assignee_role_id && occupies o.state

unfoldable pub transition : Ident → TaskState → Db → Result Db
transition id to s = do
  t ← or_throw (one (λ t. t.id == id) s.tasks) Failure.broken
  assert_transition t.state to
  refuse (occupies to && any (rival t) s.tasks) Failure.broken
  ok (record s { tasks = update_where (λ t. t.id == id) (set_state to) s.tasks })
