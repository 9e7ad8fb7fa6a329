-- ===== src/Core/History/Steps.antt =====
-- Every call is calm, or starts one run.
use agent_router.Prelude.{
  ℕ, Option, [], ◌∷◌, ◌++◌, ◌≡◌, refl, arith, Text, Option-cases, inl, inr, subst, sym, ◌∙◌,
}
use agent_router.Protocol.{Ident, ok, Input, Result-cases}
use agent_router.Store.{Db, Outside, Response}
use agent_router.Core.External.{External}
use agent_router.Core.Identity.{Identity}
use agent_router.Core.Operation.{next_row}
use agent_router.Core.Idempotence.{operation-eq-ok, execute-eq-ok, logged}
use agent_router.Core.Tools.{RoleTool, role_call}
use agent_router.Core.Tools.Retry.{IsOperation-of_ok, tool_of}
use agent_router.Core.Messages.{latest_policy}
use agent_router.Core.Submit.{submit_from_user, pause, user_task, request_of}
use agent_router.Core.Dispatch.{dispatch}
use agent_router.Core.Dispatch.Gates.{Options, Plan, admit, pass}
use agent_router.Core.Dispatch.Start.{Dispatch}
use agent_router.Core.Dispatch.Effects.{Activates, Starts, Effect, dispatch-eq-ok}
use agent_router.Core.Settle.{settle}
use agent_router.Core.Settle.Effects.{settle-Calm, accepted-Quiet}
use agent_router.Core.Recover.{recover}
use agent_router.Core.Recover.Effects.{recover-Calm}
use agent_router.Core.Evolution.{Evolves, Evolves-refl, Evolves-append}
use agent_router.Core.Calm.{
  Calm, Calm-refl, Calm-of_Quiet, Calm-of_Idles, Shrinks, Shrinks-refl, Distinct,
}
use agent_router.Core.History.{Call, perform}

-- What a call has done to the state.
pub data Change (s s' : Db) : Type 0 where
  calm : Calm s s' → Change s s'
  begun :
      (opts : Options) (o : Outside) (role_id : Ident) (plan : Plan) (d : Dispatch) (s₁ : Db)
      → admit opts o role_id s ≡ pass plan
      → Activates s s₁
      → Starts o role_id plan d s₁ s'
      → Change s s'

tool-Calm :
    (x : External) (o : Outside) (p : Identity) (tool : RoleTool) (op : Text) (input : Input)
    (s : Db) {r : Response} {s' : Db}
    → role_call x o p tool op input s ≡ ok (r, s')
    → Calm s s'
tool-Calm x o p tool op input s {r} {s'} h =
    let t = IsOperation-of_ok x o p tool op input s h in
    let d = x.digest (record { tool = tool_of tool; input = input }) in
    let (valid, how) = operation-eq-ok p op d (t.body o) s (sym (t.same o op s) ∙ h) in
    elim how [
      | inl (q, _, _, _, same) ↦ subst (Calm s) same (Calm-refl s)
      | inr (_, done) ↦
          let (s₁, body, e) = execute-eq-ok p op d (t.body o) s done in
          let c = Calm-of_Quiet (t.quiet o (next_row s.operations) (logged p op d s) r s₁ body) in
          subst (Calm s) (sym e)
            (record { tasks = c.tasks; slots = c.slots; leases = c.leases; starts = c.starts })
    ]

submit-Calm :
    (x : External) (o : Outside) (project space : Ident) (input : Input) (row : ℕ) (s : Db)
    {id : Ident} {s' : Db}
    → submit_from_user x o project space input row s ≡ ok (id, s')
    → Calm s s'
unfolding submit_from_user
submit-Calm x o project space input row s {id} {s'} h = elim (Result-cases (request_of input)) [
  | inr (_, e) ↦ absurd (ground arith)
  | inl (q, e) ↦ elim (Option-cases (latest_policy project s.policies)) [
    | inl f ↦ absurd (ground arith)
    | inr (policy, f) ↦
        let tasks_eq : s.tasks ++ user_task o space policy.id q s ∷ [] ≡ s'.tasks = ground arith in
        let slots_eq : s.role_slots ≡ s'.role_slots = ground arith in
        let leases_eq : s.resource_leases ≡ s'.resource_leases = ground arith in
        record {
          tasks =
              subst (Evolves s.tasks) tasks_eq
                (Evolves-append s.tasks (user_task o space policy.id q s ∷ []));
          slots = subst (Shrinks s.role_slots) slots_eq (Shrinks-refl s.role_slots);
          leases = subst (λ ls. Distinct s.resource_leases → Distinct ls) leases_eq (λ d. d);
          starts = ground arith;
        }
  ]
]

pause-Calm : (role_id : Ident) (s : Db) → Calm s (pause role_id s)
unfolding pause
pause-Calm role_id s = record {
  tasks = Evolves-refl s.tasks;
  slots = Shrinks-refl s.role_slots;
  leases = λ d. d;
  starts = refl;
}

dispatch-Change :
    (opts : Options) (o : Outside) (role_id : Ident) (s : Db) {out : Option Dispatch} {s' : Db}
    → Effect opts o role_id s out s'
    → Change s s'
dispatch-Change opts o role_id s (Effect.idle e i) = Change.calm (Calm-of_Idles i)
dispatch-Change opts o role_id s (Effect.started plan a g d s₁ e admitted v given_it st) =
    Change.begun opts o role_id plan d s₁ admitted v st

pub perform-Change : (c : Call) (s : Db) → Change s (perform c s)
unfolding perform
perform-Change (Call.tool x o p t op input) s = elim (Result-cases (role_call x o p t op input s)) [
  | inr (f, e) ↦ rw e (Change.calm (Calm-refl s))
  | inl ((r, s'), e) ↦ rw e (Change.calm (tool-Calm x o p t op input s e))
]
perform-Change (Call.submit x o project space input row) s =
    elim (Result-cases (submit_from_user x o project space input row s)) [
      | inr (f, e) ↦ rw e (Change.calm (Calm-refl s))
      | inl ((id, s'), e) ↦ rw e (Change.calm (submit-Calm x o project space input row s e))
    ]
perform-Change (Call.dispatches opts o role_id) s =
    elim (Result-cases (dispatch opts o role_id s)) [
      | inr (f, e) ↦ rw e (Change.calm (Calm-refl s))
      | inl ((out, s'), e) ↦
          rw e (dispatch-Change opts o role_id s (dispatch-eq-ok opts o role_id s e))
    ]
perform-Change (Call.accepts run) s = Change.calm (Calm-of_Quiet (accepted-Quiet run s))
perform-Change (Call.settles o run epoch outcome v) s =
    elim (Result-cases (settle o run epoch outcome v s)) [
      | inr (f, e) ↦ rw e (Change.calm (Calm-refl s))
      | inl (s', e) ↦ rw e (Change.calm (settle-Calm o run epoch outcome v s e))
    ]
perform-Change Call.recovers s = elim (Result-cases (recover s)) [
  | inr (f, e) ↦ rw e (Change.calm (Calm-refl s))
  | inl (s', e) ↦ rw e (Change.calm (recover-Calm s e))
]
perform-Change (Call.pauses role_id) s = Change.calm (pause-Calm role_id s)
