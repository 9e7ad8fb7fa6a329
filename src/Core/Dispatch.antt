-- ===== src/Core/Dispatch.antt =====
-- The method `dispatch` of packages/runtime/core.ts, in the order of its code: the gates
-- (`Dispatch/Gates`), the activation of the session (`Dispatch/Session`), the request that the
-- run is given (`Dispatch/Input`), and the writes that start it (`Dispatch/Start`).
pub mod Gates
pub mod Session
pub mod Input
pub mod Start
pub mod Admission
pub mod Effects
pub mod Exclusive
use agent_router.Prelude.{Option, none, some}
use agent_router.Protocol.{Ident, Failure, Code, Category, Result, ok, err, ◌>>=◌}
use agent_router.Store.{Db, Outside, Reason, Activation}
use Gates.{Options, Gate, pass, halt, fail, Plan, admit, blocked}
use Session.{ensure_active_activation}
use Input.{Given, given}
use Start.{Dispatch, start}

-- `return this.blocked(roleId, reason)`, or `return null` where no reason is recorded.
abbrev pub refusal : Ident → Option Reason → Db → Option Dispatch × Db
refusal role_id none s = (none, s)
refusal role_id (some r) s = (none, blocked role_id r s)

-- From a session that is activated, `s` being the state with its activation.
unfoldable pub launch : Outside → Ident → Plan → Activation → Db → Result (Option Dispatch × Db)
launch o role_id plan a s = elim (given plan s) [
  | none ↦ ok (refusal role_id (some Reason.task_input_missing) s)
  | some g ↦ elim (start o role_id plan a g s) [ err e ↦ err e | ok (d, s') ↦ ok (some d, s') ]
]

unfoldable pub activate : Outside → Ident → Plan → Db → Result (Option Dispatch × Db)
activate o role_id plan s =
    elim (ensure_active_activation o role_id plan.bound.binding plan.role_session_id s) [
      | err e ↦ err e
      | ok (none, s') ↦ ok (refusal role_id (some Reason.work_session_binding_mismatch) s')
      | ok (some a, s') ↦ launch o role_id plan a s'
    ]

unfoldable pub dispatch : Options → Outside → Ident → Db → Result (Option Dispatch × Db)
dispatch opts o role_id s = elim (admit opts o role_id s) [
  | fail e ↦ err e
  | halt r ↦ ok (refusal role_id r s)
  | pass plan ↦ activate o role_id plan s
]
