-- ===== src/Core/History.antt =====
-- Histories: any sequence of the operations that packages/core-service and packages/role-bridge call
-- on the runtime. A call that throws leaves the state as it was, since it runs in a transaction.
pub mod Steps
pub mod Bounds
pub mod Invariant
use agent_router.Prelude.{ℕ, Option, List, [], ◌∷◌, Text}
use agent_router.Protocol.{Ident, Result, ok, err, Input}
use agent_router.Store.{Db, Outside}
use agent_router.Core.External.{External}
use agent_router.Core.Identity.{Identity}
use agent_router.Core.Tools.{RoleTool, role_call}
use agent_router.Core.Dispatch.{dispatch}
use agent_router.Core.Dispatch.Gates.{Options}
use agent_router.Core.Settle.{Terminal, Evidence, settle, accepted}
use agent_router.Core.Recover.{recover}
use agent_router.Core.Submit.{submit_from_user, pause}

pub data Call : Type 0 where
  tool : External → Outside → Identity → RoleTool → (op : Text) → Input → Call
  submit : External → Outside → (project_id space_id : Ident) → Input → ℕ → Call
  dispatches : Options → Outside → (role_id : Ident) → Call
  accepts : (run : Ident) → Call
  settles : Outside → (run : Ident) → (epoch : ℕ) → Terminal → Evidence → Call
  recovers : Call
  pauses : (role_id : Ident) → Call

-- The state after a call that returns a value beside it.
abbrev pub after {ℓ} : {A : Type ℓ} → Db → Result (A × Db) → Db
after s (ok (a, s')) = s'
after s (err e) = s

abbrev pub kept : Db → Result Db → Db
kept s (ok s') = s'
kept s (err e) = s

unfoldable pub perform : Call → Db → Db
perform (Call.tool x o p t op input) s = after s (role_call x o p t op input s)
perform (Call.submit x o project space input row) s =
    after s (submit_from_user x o project space input row s)
perform (Call.dispatches opts o role_id) s = after s (dispatch opts o role_id s)
perform (Call.accepts run) s = accepted run s
perform (Call.settles o run epoch outcome e) s = kept s (settle o run epoch outcome e s)
perform Call.recovers s = kept s (recover s)
perform (Call.pauses role_id) s = pause role_id s

unfoldable pub history : List Call → Db → Db
history [] s = s
history (c ∷ cs) s = history cs (perform c s)
