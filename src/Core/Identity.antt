-- ===== src/Core/Identity.antt =====
-- Who calls: the interface `Identity` and the methods `identity` and `management` of
-- packages/runtime/core.ts.
use agent_router.Prelude.{
  ℕ, Bool, true, false, Option, none, some, List, ◌&&◌, ◌==◌, same, holds, one, if◌then◌else◌,
}
use agent_router.Protocol.{
  Ident, Failure, Code, Category, Result, ok, ◌>>=◌, ◌>>◌, require, or_throw,
}
use agent_router.Store.{Db, Binding, Activation, Run, RunState}

-- A role's principal. `granted_tools` is read by the bridge alone.
pub record Identity : Type 0 where
  pub role_id : Ident
  pub binding_id : Ident
  pub epoch : ℕ
  pub activation_id : Option Ident
  pub activation_epoch : Option ℕ
  pub space_id : Ident
  pub project_id : Ident
  pub run_id : Option Ident
  pub task_id : Option Ident
  pub management : Bool
  pub granted_tools : Option (List Ident)

-- A binding joined with its role's space and that space's project.
pub record Bound : Type 0 where
  pub binding : Binding
  pub space_id : Ident
  pub project_id : Ident

abbrev pub stale : Failure
stale = Failure.route Code.stale_identity Category.authorization

-- `bindings b join roles r on r.id=b.role_id join spaces s on s.id=r.space_id`
unfoldable pub join : Db → Binding → Option Bound
join s b = elim (one (λ r. r.id == b.role_id) s.roles) [
  | none ↦ none
  | some r ↦ elim (one (λ sp. sp.id == r.space_id) s.spaces) [
    | none ↦ none
    | some sp ↦ some (record { binding = b; space_id = sp.id; project_id = sp.project_id })
  ]
]

unfoldable pub bound_of : Db → Ident → Option Bound
bound_of s binding_id = elim (one (λ b. b.id == binding_id) s.bindings) [
  | none ↦ none
  | some b ↦ join s b
]

-- The current binding is the one that the principal names.
abbrev pub names : Identity → Bound → Bool
names p b =
    b.binding.is_current
    && b.binding.epoch == p.epoch
    && b.binding.role_id == p.role_id
    && b.space_id == p.space_id
    && b.project_id == p.project_id

abbrev pub epoch_fits : Option ℕ → ℕ → Bool
epoch_fits none e = true
epoch_fits (some n) e = e == n

-- The activation that a principal carries is the active one of its role and binding.
abbrev pub activation_fits : Identity → Activation → Bool
activation_fits p a =
    a.active
    && a.role_id == p.role_id
    && a.binding_id == p.binding_id
    && a.binding_epoch == p.epoch
    && epoch_fits p.activation_epoch a.activation_epoch

unfoldable pub check_activation : Identity → Option Ident → Db → Result (Unit {0})
check_activation p none s = ok tt
check_activation p (some id) s = do
  a ← or_throw (one (λ a. a.id == id) s.activations) stale
  require (activation_fits p a) stale

-- The states of a run in which its tools may be called; `staged` adds those of a replayed call.
abbrev pub run_open : Bool → RunState → Bool
run_open staged RunState.running = true
run_open staged RunState.settling = staged
run_open staged RunState.succeeded = staged
run_open staged RunState.failed = staged
run_open staged RunState.cancelled = staged
run_open staged _ = false

abbrev pub inactive : Failure
inactive = Failure.route Code.inactive_run Category.authorization

abbrev pub run_fits : Identity → Bool → Run → Bool
run_fits p staged r =
    r.binding_id == p.binding_id
    && r.binding_epoch == p.epoch
    && r.role_id == p.role_id
    && same r.task_id p.task_id
    && run_open staged r.state

unfoldable pub check_run : Identity → Bool → Db → Result (Unit {0})
check_run p staged s = do
  r ← or_throw (one (λ r. holds p.run_id r.id) s.runs) inactive
  require (run_fits p staged r) inactive

unfoldable pub identity : Identity → Bool → Db → Result Bound
identity p staged s = do
  b ← or_throw (bound_of s p.binding_id) stale
  require (names p b) stale
  check_activation p p.activation_id s
  (if p.management then ok tt else check_run p staged s)
  ok b

-- The principal of the local service for a role: its current binding.
unfoldable pub management : Ident → Db → Result Identity
management role_id s = do
  b ← or_throw (one (λ b. b.role_id == role_id && b.is_current) s.bindings) invalid
  j ← or_throw (join s b) invalid
  ok (record {
    role_id = role_id;
    binding_id = b.id;
    epoch = b.epoch;
    activation_id = none;
    activation_epoch = none;
    space_id = j.space_id;
    project_id = j.project_id;
    run_id = none;
    task_id = none;
    management = true;
    granted_tools = none;
  })
  where
    invalid : Failure
    invalid = Failure.route Code.invalid_role Category.validation
