-- ===== src/Core/Dispatch/Start.antt =====
-- The writes of `dispatch` that start a run, in packages/runtime/core.ts.
use agent_router.Prelude.{
  ℕ, ◌+◌, Bool, true, false, Option, none, some, [], ◌∷◌, ◌++◌, ◌&&◌, not, ◌==◌, is_some, any, map,
  count_where, update_where, if◌then◌else◌,
}
use agent_router.Protocol.{Ident, Failure, Code, Category, Result, ok, ◌>>=◌, ◌>>◌, require, refuse}
use agent_router.Domain.{TaskState}
use agent_router.Store.{
  Db, Outside, Draw, Run, RunState, Kind, Snapshot, RoleSlot, Resource, ResourceLease, AutoStart,
  Outbox, OutboxState, Continuation, TaskInput, Activation, EventType,
}
use agent_router.Core.Identity.{Identity}
use agent_router.Core.Messages.{event}
use agent_router.Core.Transition.{transition}
use agent_router.Core.Wait.{set_ready}
use agent_router.Core.Dispatch.Gates.{Plan, asks}
use agent_router.Core.Dispatch.Input.{Given}

-- What the coordinator is given: the interface `Dispatch`.
pub record Dispatch : Type 0 where
  pub id : Ident
  pub task_id : Ident
  pub kind : Kind
  pub principal : Identity
  pub request : Snapshot

-- The states that the index `one_live_run_per_role` counts.
abbrev pub is_live : RunState → Bool
is_live RunState.created = true
is_live RunState.starting = true
is_live RunState.running = true
is_live RunState.waiting_approval = true
is_live RunState.settling = true
is_live _ = false

-- `insert into runs`
unfoldable pub insert_run : Run → Db → Result Db
insert_run r s = do
  refuse (any (λ q. q.role_id == r.role_id && is_live q.state) s.runs) Failure.broken
  ok (record s { runs = s.runs ++ r ∷ [] })

abbrev pub lease_of : Ident → ℕ → Resource → ResourceLease
lease_of run epoch r = record {
  resource_key = r;
  run_id = run;
  binding_epoch = epoch;
  quarantined = false;
}

abbrev pub occupy : Ident → Ident → RoleSlot → RoleSlot
occupy task run t = record t {
  active_task_id = some task;
  active_run_id = some run;
  blocked_reason = none;
}

abbrev pub claim : Ident → Outbox → Outbox
claim run e = record e {
  state = OutboxState.dispatching;
  claimed_run_id = some run;
  attempt_count = e.attempt_count + 1;
}

-- The entry belongs to the request of the task.
abbrev pub entry_of : Db → Ident → Outbox → Bool
entry_of s task e = any (λ m. m.id == e.message_id && asks task m) s.messages

abbrev pub consume : Ident → Continuation → Continuation
consume run c = record c { consumed_run_id = some run }

abbrev pub claims_outbox : Kind → Bool
claims_outbox Kind.task = true
claims_outbox Kind.result_handling = true
claims_outbox _ = false

-- The request leaves the queue; a continuation uses up what it waited for.
unfoldable pub take_work : Kind → Ident → Ident → Db → Db
take_work kind task run s =
    if claims_outbox kind
    then record s { outbox = update_where (entry_of s task) (claim run) s.outbox }
    else record s {
      continuations =
          update_where (λ c. c.parent_task_id == task && not (is_some c.consumed_run_id))
            (consume run) s.continuations;
      wait_records = update_where (λ w. w.task_id == task) (set_ready false) s.wait_records;
    }

abbrev pub set_consumed : Ident → ℕ → TaskInput → TaskInput
set_consumed run now i = record i { consumed_by_run_id = some run; consumed_at_ms = some now }

abbrev pub unconsumed : Ident → TaskInput → Bool
unconsumed id i = i.id == id && not (is_some i.consumed_at_ms)

-- A formal input is consumed once.
unfoldable pub consume_input : Option Ident → Ident → ℕ → Db → Result Db
consume_input none run now s = ok s
consume_input (some id) run now s = do
  require (count_where (unconsumed id) s.task_inputs == 1)
      (Failure.route Code.task_input_already_consumed Category.validation)
  ok (record s { task_inputs = update_where (unconsumed id) (set_consumed run now) s.task_inputs })

abbrev pub principal_of : Plan → Ident → Activation → Identity
principal_of plan run a = record plan.principal {
  management = false;
  run_id = some run;
  task_id = some plan.task.id;
  activation_id = some a.id;
  activation_epoch = some a.activation_epoch;
}

abbrev pub run_of : Outside → Ident → Plan → Activation → Given → Run
run_of o role_id plan a g = record {
  id = o.fresh Draw.run;
  role_id = role_id;
  binding_id = plan.bound.binding.id;
  task_id = some plan.task.id;
  chain_id = some plan.task.chain_id;
  kind = plan.kind;
  binding_epoch = plan.bound.binding.epoch;
  snapshot = g.snapshot;
  state = RunState.starting;
  role_session_id = some plan.role_session_id;
  activation_id = some a.id;
}

abbrev pub auto_start_of : Outside → Ident → Plan → AutoStart
auto_start_of o role_id plan = record {
  run_id = o.fresh Draw.run;
  role_id = role_id;
  space_id = plan.principal.space_id;
  chain_id = plan.task.chain_id;
  started_at_ms = o.now;
}

-- The leases. Their keys are free: a gate has tested them, and nothing has written leases since.
abbrev pub lease_all : Outside → Plan → Db → Db
lease_all o plan s = record s {
  resource_leases =
      s.resource_leases
      ++ map (lease_of (o.fresh Draw.run) plan.bound.binding.epoch) plan.resources;
}

-- The slot and the record of the start.
abbrev pub enter : Outside → Ident → Plan → Db → Db
enter o role_id plan s = record s {
  role_slots =
      update_where (λ t. t.role_id == role_id) (occupy plan.task.id (o.fresh Draw.run))
        s.role_slots;
  auto_starts = s.auto_starts ++ auto_start_of o role_id plan ∷ [];
}

unfoldable pub start : Outside → Ident → Plan → Activation → Given → Db → Result (Dispatch × Db)
start o role_id plan a g s = do
  s₁ ← insert_run (run_of o role_id plan a g) s
  s₂ ← transition plan.task.id TaskState.active (lease_all o plan s₁)
  s₃ ←
      consume_input g.consumes (o.fresh Draw.run) o.now
        (take_work plan.kind plan.task.id (o.fresh Draw.run) (enter o role_id plan s₂))
  ok (
    record {
      id = o.fresh Draw.run;
      task_id = plan.task.id;
      kind = plan.kind;
      principal = principal_of plan (o.fresh Draw.run) a;
      request = g.snapshot;
    },
    event EventType.dispatch_intent (some role_id) (some plan.task.id) (some (o.fresh Draw.run)) s₃,
  )
