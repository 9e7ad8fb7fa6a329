-- ===== src/Core/Settle.antt =====
-- The end of a run: the methods `accepted`, `settle` and `issue` of packages/runtime/core.ts.
pub mod Effects
pub mod Barrier
pub mod Release
use agent_router.Prelude.{
  ℕ, Bool, true, false, Option, none, some, List, [], ◌∷◌, ◌++◌, ◌&&◌, ◌||◌, not, ◌==◌, holds,
  is_some, one, any, update_where, delete_where, if◌then◌else◌,
}
use agent_router.Protocol.{
  Ident, Failure, Code, Category, Result, ok, err, ◌>>=◌, ◌>>◌, require, refuse, or_throw, Target,
  Outcome, Completion, is_handoff, is_success,
}
use agent_router.Domain.{TaskState}
use agent_router.Store.{
  Db, Outside, Draw, Task, Run, RunState, Binding, Activation, Approval, Outbox, OutboxState,
  StagedResult, Publication, Continuation, Issue, IssueCode, RoleSlot, EventType, ResourceLease,
}
use agent_router.Core.Identity.{stale}
use agent_router.Core.Messages.{event}
use agent_router.Core.Finish.{set_run_state}
use agent_router.Core.Transition.{transition}
use agent_router.Core.Wait.{refresh_wait}

-- The outcome that a harness reports; any other text is `other`.
pub data Terminal : Type 0 where
  succeeded failed cancelled other : Terminal

abbrev pub run_state_of : Terminal → RunState
run_state_of Terminal.succeeded = RunState.succeeded
run_state_of Terminal.failed = RunState.failed
run_state_of Terminal.cancelled = RunState.cancelled
run_state_of Terminal.other = RunState.unknown

abbrev pub is_known : Terminal → Bool
is_known Terminal.other = false
is_known _ = true

abbrev pub has_succeeded : Terminal → Bool
has_succeeded Terminal.succeeded = true
has_succeeded _ = false

pub record Evidence : Type 0 where
  pub native : Bool
  pub resources_stopped : Bool
  pub replay : Bool

abbrev pub is_starting : RunState → Bool
is_starting RunState.starting = true
is_starting _ = false

abbrev pub is_dispatching : OutboxState → Bool
is_dispatching OutboxState.dispatching = true
is_dispatching _ = false

abbrev pub is_held : OutboxState → Bool
is_held OutboxState.held = true
is_held _ = false

abbrev pub set_outbox : OutboxState → Outbox → Outbox
set_outbox to e = record e { state = to }

unfoldable pub accepted : Ident → Db → Db
accepted run s = record s {
  runs =
      update_where (λ r. r.id == run && is_starting r.state) (set_run_state RunState.running)
        s.runs;
  outbox =
      update_where (λ e. holds e.claimed_run_id run && is_dispatching e.state)
        (set_outbox OutboxState.delivered) s.outbox;
}

unfoldable pub issue : Run → IssueCode → Db → Db
issue r code s = record s {
  issues =
      s.issues
      ++ record { role_id = r.role_id; task_id = r.task_id; run_id = r.id; code = code } ∷ [];
}

-- The activation that a run was started under still names the run's binding.
unfoldable pub check_run_activation : Run → Option Ident → Db → Result (Unit {0})
check_run_activation r none s = ok tt
check_run_activation r (some id) s = do
  a ← or_throw (one (λ a. a.id == id && a.role_id == r.role_id) s.activations) stale
  require (a.binding_id == r.binding_id && a.binding_epoch == r.binding_epoch) stale

-- What the checks before the writes decide about a run.
pub data Verdict : Type 0 where
  ignored : Verdict
  proceed : Verdict

abbrev pub by_state : RunState → Result Verdict
by_state RunState.succeeded = ok Verdict.ignored
by_state RunState.failed = ok Verdict.ignored
by_state RunState.cancelled = ok Verdict.ignored
by_state RunState.unknown = err (Failure.route Code.reconciliation_required Category.ambiguous)
by_state _ = ok Verdict.proceed

-- The harness has ended by its own account, its resources have stopped, and nothing awaits approval.
abbrev pub barrier : Evidence → Ident → List Approval → Bool
barrier e run approvals =
    e.native && e.resources_stopped && not (any (λ a. a.run_id == run && a.pending) approvals)

unfoldable pub verdict : Run → ℕ → Terminal → Evidence → Db → Result Verdict
verdict r epoch outcome e s = do
  b ← or_throw (one (λ b. b.id == r.binding_id) s.bindings) Failure.broken
  require (epoch == r.binding_epoch && b.is_current && b.epoch == epoch) stale
  check_run_activation r r.activation_id s
  if e.replay then ok Verdict.ignored else elim (by_state r.state) [
    | err f ↦ err f
    | ok Verdict.ignored ↦ ok Verdict.ignored
    | ok Verdict.proceed ↦ (do
      require (barrier e r.id s.approvals)
          (Failure.route Code.settled_barrier_unproven Category.conflict)
      require (is_known outcome) (Failure.route Code.unknown_outcome Category.validation)
      ok Verdict.proceed)
  ]

-- The state of a task whose result is published.
abbrev pub settled_state : Outcome → Completion → TaskState
settled_state Outcome.succeeded c =
    if is_handoff c.mode then TaskState.handed_off else TaskState.delivered
settled_state Outcome.partial c = TaskState.partial
settled_state Outcome.failed c = TaskState.failed
settled_state Outcome.cancelled c = TaskState.cancelled

abbrev pub set_publication : Publication → StagedResult → StagedResult
set_publication to r = record r { publication_state = to }

unfoldable pub add_continuation : Continuation → Db → Db
add_continuation c s =
    if any (λ d. d.parent_task_id == c.parent_task_id && d.result_id == c.result_id) s.continuations
    then s
    else record s { continuations = s.continuations ++ c ∷ [] }

abbrev pub assigned_to : Target → Task → Bool
assigned_to Target.user t = false
assigned_to (Target.role id) t = t.assignee_role_id == id

abbrev pub parent_task : Task → Db → Option Task
parent_task t s = elim t.parent_task_id [ none ↦ none | some id ↦ one (λ q. q.id == id) s.tasks ]

-- A successful result for a role that waits for it: the parent task may go on.
unfoldable pub notify_parent : Outside → Task → StagedResult → Db → Db
notify_parent o t r s =
    if is_success r.finish.outcome && not (is_handoff t.completion.mode)
    then elim (parent_task t s) [
      | none ↦ s
      | some parent ↦
          if assigned_to t.completion.to parent
          then refresh_wait parent.id (
              add_continuation
                (record {
                  id = o.fresh Draw.continuation;
                  parent_task_id = parent.id;
                  result_id = r.id;
                  consumed_run_id = none;
                })
                s)
          else s
    ]
    else s

abbrev pub clear_task : RoleSlot → RoleSlot
clear_task t = record t { active_task_id = none }

abbrev pub clear_run : RoleSlot → RoleSlot
clear_run t = record t { active_run_id = none }

-- The result is published, and what was held for the run is queued.
abbrev pub release : Ident → StagedResult → Db → Db
release run r s = record s {
  results = update_where (λ q. q.id == r.id) (set_publication Publication.published) s.results;
  outbox =
      update_where (λ e. holds e.after_run_id run && is_held e.state)
        (set_outbox OutboxState.queued) s.outbox;
}

unfoldable pub publish : Outside → Run → StagedResult → Db → Result Db
publish o r result s = do
  let s₁ : Db = release r.id result s
  t ← or_throw (one (λ t. holds r.task_id t.id) s₁.tasks) Failure.broken
  s₂ ← transition t.id (settled_state result.finish.outcome t.completion) s₁
  let s₃ : Db = notify_parent o t result s₂
  ok (record s₃ {
    role_slots = update_where (λ p. p.role_id == r.role_id) clear_task s₃.role_slots;
  })

abbrev pub is_waiting_input : TaskState → Bool
is_waiting_input TaskState.waiting_input = true
is_waiting_input _ = false

abbrev pub quarantine : Option StagedResult → Db → Db
quarantine none s = s
quarantine (some r) s = record s {
  results = update_where (λ q. q.id == r.id) (set_publication Publication.quarantined) s.results;
}

-- A run that ended otherwise: its task needs attention, unless it waits and the run succeeded.
unfoldable pub attend : Run → Terminal → Option StagedResult → Db → Result Db
attend r outcome staged s = elim (one (λ t. holds r.task_id t.id) s.tasks) [
  | none ↦ ok s
  | some t ↦
      if is_waiting_input t.state && has_succeeded outcome
      then ok s
      else elim (transition t.id TaskState.needs_attention s) [
        | err e ↦ err e
        | ok s' ↦ ok (issue r IssueCode.run_requires_attention (quarantine staged s'))
      ]
]

abbrev pub conclude : Outside → Run → Terminal → Option StagedResult → Db → Result Db
conclude o r Terminal.succeeded (some result) s = publish o r result s
conclude o r Terminal.succeeded none s = attend r Terminal.succeeded none s
conclude o r Terminal.failed staged s = attend r Terminal.failed staged s
conclude o r Terminal.cancelled staged s = attend r Terminal.cancelled staged s
conclude o r Terminal.other staged s = attend r Terminal.other staged s

-- The leases go, and the role is free.
abbrev pub leave : Run → Db → Db
leave r s = event EventType.run_settled (some r.role_id) r.task_id (some r.id) (record s {
  resource_leases = delete_where (λ l. l.run_id == r.id) s.resource_leases;
  role_slots = update_where (λ p. p.role_id == r.role_id) clear_run s.role_slots;
})

abbrev pub staged_of : Ident → Db → Option StagedResult
staged_of run s = one (λ q. holds q.run_id run) s.results

abbrev pub close_run : Run → Terminal → Db → Db
close_run r outcome s = accepted r.id (record s {
  runs = update_where (λ q. q.id == r.id) (set_run_state (run_state_of outcome)) s.runs;
})

unfoldable pub settle : Outside → Ident → ℕ → Terminal → Evidence → Db → Result Db
settle o run epoch outcome e s = do
  r ← or_throw (one (λ r. r.id == run) s.runs) (Failure.route Code.unknown_run Category.validation)
  v ← verdict r epoch outcome e s
  elim v [
    | Verdict.ignored ↦ ok s
    | Verdict.proceed ↦ elim (conclude o r outcome (staged_of run s) (close_run r outcome s)) [
      | err f ↦ err f
      | ok s' ↦ ok (leave r s')
    ]
  ]
