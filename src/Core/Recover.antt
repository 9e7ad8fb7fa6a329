-- ===== src/Core/Recover.antt =====
-- After a restart: the method `recover` of packages/runtime/core.ts. Nothing is known of the runs
-- that were live, so none is started again before a person has looked at them.
pub mod Effects
pub mod Laws
pub mod Success
use agent_router.Prelude.{
  Bool, true, false, Option, none, some, List, [], ◌∷◌, ◌&&◌, ◌==◌, holds, one, select,
  update_where, if◌then◌else◌,
}
use agent_router.Protocol.{Ident, Failure, Result, ok, err, ◌>>=◌}
use agent_router.Domain.{TaskState}
use agent_router.Store.{
  Db, Task, Run, RunState, Outbox, OutboxState, ResourceLease, RoleSlot, Reason, IssueCode,
}
use agent_router.Core.Finish.{set_run_state}
use agent_router.Core.Transition.{transition}
use agent_router.Core.Settle.{issue, is_dispatching, set_outbox}
use agent_router.Core.Dispatch.Gates.{set_reason}
use agent_router.Core.Dispatch.Start.{is_live}

abbrev pub set_quarantined : ResourceLease → ResourceLease
set_quarantined l = record l { quarantined = true }

-- The run, what it was delivering, its leases and its role's slot.
abbrev pub suspect : Run → Db → Db
suspect r s = record s {
  runs = update_where (λ q. q.id == r.id) (set_run_state RunState.unknown) s.runs;
  outbox =
      update_where (λ e. holds e.claimed_run_id r.id && is_dispatching e.state)
        (set_outbox OutboxState.unknown) s.outbox;
  resource_leases = update_where (λ l. l.run_id == r.id) set_quarantined s.resource_leases;
  role_slots =
      update_where (λ p. p.role_id == r.role_id) (set_reason (some Reason.reconciling))
        s.role_slots;
}

abbrev pub needs_attention : TaskState → Bool
needs_attention TaskState.needs_attention = true
needs_attention _ = false

unfoldable pub flag_task : Option Task → Db → Result Db
flag_task none s = ok s
flag_task (some t) s =
    if needs_attention t.state then ok s else transition t.id TaskState.needs_attention s

unfoldable pub recover_run : Run → Db → Result Db
recover_run r s = do
  s' ← flag_task (one (λ t. holds r.task_id t.id) s.tasks) (suspect r s)
  ok (issue r IssueCode.execution_unknown s')

unfoldable pub recover_runs : List Run → Db → Result Db
recover_runs [] s = ok s
recover_runs (r ∷ rs) s = do s' ← recover_run r s; recover_runs rs s'

unfoldable pub recover : Db → Result Db
recover s = recover_runs (select (λ r. is_live r.state) s.runs) s
