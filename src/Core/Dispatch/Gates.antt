-- ===== src/Core/Dispatch/Gates.antt =====
-- The gates of `dispatch`, in the order of the code. Each reads the state and lets the dispatch
-- pass, or ends it with a reason that is written into the role's slot.
use agent_router.Prelude.{
  ℕ, ◌+◌, Bool, true, false, Option, none, some, List, [], ◌∷◌, ◌&&◌, ◌||◌, not, ◌==◌, ltb, leb,
  holds, is_some, one, any, count_where, update_where, if◌then◌else◌,
}
use agent_router.Protocol.{Ident, Failure, Code, Category, Result, ok, err}
use agent_router.Domain.{TaskState}
use agent_router.Store.{
  Db, Outside, Binding, Task, Kind, Reason, RoleSlot, OutboxState, Message, Content, Resource,
  Chain, is_active, AutoStart,
}
use agent_router.Core.Identity.{Identity, Bound, identity, management}

-- The options of the constructor that `dispatch` calls; `none` is an option that is not given.
pub record Options : Type 0 where
  pub allow_mock : Bool
  pub fixture_authorization : Ident → Bool
  pub native_authorization : Option (Ident → Bool)
  pub before_dispatch : Db → Ident → Option Ident
  pub kind_for_task : Ident → Option Kind

-- A step of `dispatch`: go on with a value, return null (after `blocked`, if a reason is given), or
-- throw.
pub data Gate {ℓ} (A : Type ℓ) : Type ℓ where
  pass : A → Gate A
  halt : Option Reason → Gate A
  fail : Failure → Gate A

infixl 5 ◌>>=◌ ◌>>◌
abbrev pub ◌>>=◌ {ℓ κ} : {A : Type ℓ} {B : Type κ} → Gate A → (A → Gate B) → Gate B
pass a >>= f = f a
halt r >>= f = halt r
fail e >>= f = fail e

abbrev pub ◌>>◌ {ℓ κ} : {A : Type ℓ} {B : Type κ} → Gate A → Gate B → Gate B
m >> k = m >>= λ _. k

-- `if (b) return this.blocked(roleId, r)`
abbrev pub block_if : Bool → Reason → Gate (Unit {0})
block_if true r = halt (some r)
block_if false r = pass tt

abbrev pub or_fail {ℓ} : {A : Type ℓ} → Option A → Failure → Gate A
or_fail none e = fail e
or_fail (some a) e = pass a

abbrev pub lift {ℓ} : {A : Type ℓ} → Result A → Gate A
lift (ok a) = pass a
lift (err e) = fail e

abbrev pub set_reason : Option Reason → RoleSlot → RoleSlot
set_reason r t = record t { blocked_reason = r }

-- The method `blocked`.
unfoldable pub blocked : Ident → Reason → Db → Db
blocked role_id r s = record s {
  role_slots = update_where (λ t. t.role_id == role_id) (set_reason (some r)) s.role_slots;
}

-- What the gates have found when they let a dispatch pass.
pub record Plan : Type 0 where
  pub principal : Identity
  pub bound : Bound
  pub task : Task
  pub kind : Kind
  pub resources : List Resource
  pub role_session_id : Ident

abbrev pub authorized : Options → Binding → Bool
authorized opts b =
    opts.allow_mock && b.capability.mock
    || opts.fixture_authorization b.id
    || elim opts.native_authorization [ some f ↦ f b.id | none ↦ b.capability.live_tested ]

abbrev pub hooked : Option Ident → Gate (Unit {0})
hooked none = pass tt
hooked (some r) = halt (some (Reason.refused r))

-- The role, its space and its project are active.
unfoldable pub all_active : Db → Ident → Option Bool
all_active s role_id = elim (one (λ r. r.id == role_id) s.roles) [
  | none ↦ none
  | some r ↦ elim (one (λ sp. sp.id == r.space_id) s.spaces) [
    | none ↦ none
    | some sp ↦ elim (one (λ p. p.id == sp.project_id) s.projects) [
      | none ↦ none
      | some p ↦ some (is_active r.status && is_active sp.status && is_active p.status)
    ]
  ]
]

abbrev pub is_reconciling : Option Reason → Bool
is_reconciling (some Reason.reconciling) = true
is_reconciling _ = false

abbrev pub stop_if : Bool → Gate (Unit {0})
stop_if true = halt none
stop_if false = pass tt

abbrev pub is_waiting : TaskState → Bool
is_waiting TaskState.waiting_input = true
is_waiting _ = false

abbrev pub is_queued : TaskState → Bool
is_queued TaskState.queued = true
is_queued _ = false

abbrev pub in_queue : OutboxState → Bool
in_queue OutboxState.queued = true
in_queue _ = false

abbrev pub asks : Ident → Message → Bool
asks task_id m = holds m.task_id task_id && elim m.content [ Content.request r ↦ true | _ ↦ false ]

-- The task's request stands in the outbox as queued.
unfoldable pub request_queued : Db → Ident → Bool
request_queued s task_id =
    any (λ m. asks task_id m && any (λ e. e.message_id == m.id && in_queue e.state) s.outbox)
      s.messages

unfoldable pub next_queued : Db → Ident → Option Task
next_queued s role_id =
    one (λ t. t.assignee_role_id == role_id && is_queued t.state && request_queued s t.id) s.tasks

-- A slot's task that waits and is ready goes on.
abbrev pub wait_ready : Db → Ident → Bool
wait_ready s id = elim (one (λ w. w.task_id == id) s.wait_records) [
  | none ↦ false
  | some w ↦ w.ready
]

abbrev pub resume : Db → Ident → Option Task → Gate (Task × Kind)
resume s id none = halt (some Reason.current_task_unresolved)
resume s id (some t) =
    if is_waiting t.state && wait_ready s id
    then pass (t, Kind.continuation)
    else halt (some Reason.current_task_unresolved)

abbrev pub kind_of : Options → Ident → Kind
kind_of opts id = elim (opts.kind_for_task id) [ none ↦ Kind.task | some k ↦ k ]

abbrev pub begin : Options → Option Task → Gate (Task × Kind)
begin opts none = halt none
begin opts (some t) = pass (t, kind_of opts t.id)

unfoldable pub choose : Options → Ident → Option Ident → Db → Gate (Task × Kind)
choose opts role_id (some id) s = resume s id (one (λ t. t.id == id) s.tasks)
choose opts role_id none s = begin opts (next_queued s role_id)

-- A start that lies in the future: the clock has gone back.
abbrev pub clock_rolled_back : ℕ → List AutoStart → Bool
clock_rolled_back now starts = any (λ a. ltb now a.started_at_ms) starts

abbrev pub live_slots : Db → ℕ
live_slots s = count_where (λ t. is_some t.active_run_id) s.role_slots

abbrev pub chain_spent : ℕ → Chain → List AutoStart → Bool
chain_spent now c starts =
    not c.active
    || leb (c.created_at_ms + c.max_wall_ms) now
    || leb c.max_auto_starts (count_where (λ a. a.chain_id == c.id) starts)

-- `started_at_ms > now - window`
abbrev pub role_starts : ℕ → Ident → List AutoStart → ℕ
role_starts now role_id starts =
    count_where (λ a. a.role_id == role_id && ltb now (a.started_at_ms + 60000)) starts

abbrev pub space_starts : ℕ → Ident → List AutoStart → ℕ
space_starts now space_id starts =
    count_where (λ a. a.space_id == space_id && ltb now (a.started_at_ms + 300000)) starts

abbrev pub resource_eq : Resource → Resource → Bool
resource_eq (Resource.workspace a) (Resource.workspace b) = a == b
resource_eq (Resource.workspace a) (Resource.auth b) = false
resource_eq (Resource.auth a) (Resource.workspace b) = false
resource_eq (Resource.auth a) (Resource.auth b) = a == b

-- The account's unit, if the binding has one, runs one at a time and is ready.
unfoldable pub auth_resources : Db → Option Ident → Gate (List Resource)
auth_resources s none = pass []
auth_resources s (some id) = elim (one (λ u. u.id == id) s.auth_units) [
  | none ↦ halt (some Reason.auth_concurrency_unsupported)
  | some u ↦
      if u.max_active_runs == 1
      then (if u.ready then pass (Resource.auth id ∷ []) else halt (some Reason.auth_unavailable))
      else halt (some Reason.auth_concurrency_unsupported)
]

abbrev pub leased : Db → Resource → Bool
leased s r = any (λ l. resource_eq l.resource_key r) s.resource_leases

-- From the role's slot to the task and the kind of its run.
unfoldable pub select_task : Options → Ident → Db → Gate (Task × Kind)
select_task opts role_id s = do
  slot ←
      or_fail (one (λ t. t.role_id == role_id) s.role_slots)
        (Failure.route Code.role_slot_missing Category.validation)
  active ← or_fail (all_active s role_id) Failure.broken
  block_if (not active) Reason.paused
  block_if (is_some slot.active_run_id) Reason.native_run_active
  stop_if (is_reconciling slot.blocked_reason)
  choose opts role_id slot.active_task_id s

-- The limits on starts: the clock, the number of live runs, the chain's budget, the rates.
unfoldable pub within_limits : ℕ → Ident → Ident → Task → Db → Gate (Unit {0})
within_limits now role_id space_id t s = do
  block_if (clock_rolled_back now s.auto_starts) Reason.clock_rollback
  block_if (leb 3 (live_slots s)) Reason.global_concurrency
  c ← or_fail (one (λ c. c.id == t.chain_id) s.chains) Failure.broken
  block_if (chain_spent now c s.auto_starts) Reason.chain_budget
  block_if
      (leb 5 (role_starts now role_id s.auto_starts)
        || leb 30 (space_starts now space_id s.auto_starts))
      Reason.rate_limited

-- The resources that the run will hold, all of them free.
unfoldable pub free_resources : Binding → Db → Gate (List Resource)
free_resources b s = do
  ws ← or_fail (one (λ w. w.id == b.workspace_id) s.workspaces) Failure.broken
  block_if (not ws.ready) Reason.workspace_unavailable
  rest ← auth_resources s b.auth_unit_id
  let resources : List Resource = Resource.workspace ws.canonical_path ∷ rest
  block_if (any (leased s) resources) Reason.resource_locked
  pass resources

abbrev pub session_of : Option Ident → Gate Ident
session_of none = halt (some Reason.work_session_missing)
session_of (some id) = pass id

unfoldable pub admit : Options → Outside → Ident → Db → Gate Plan
admit opts o role_id s = do
  p ← lift (management role_id s)
  b ← lift (identity p false s)
  block_if (not (authorized opts b.binding)) Reason.harness_unverified
  hooked (opts.before_dispatch s role_id)
  (t, kind) ← select_task opts role_id s
  within_limits o.now role_id p.space_id t s
  resources ← free_resources b.binding s
  session ← session_of t.role_session_id
  pass (record {
    principal = p;
    bound = b;
    task = t;
    kind = kind;
    resources = resources;
    role_session_id = session;
  })
