-- ===== src/Core/Dispatch/Effects.antt =====
-- What a dispatch writes: the inversion of its success, and of each of its parts.
use agent_router.Prelude.{
  ℕ, Option, none, some, [], ◌∷◌, ◌++◌, ◌≡◌, ◌⊎◌, refl, ◌==◌, arith, map, update_where,
  Option-cases, inl, inr, subst, sym, ap,
}
use agent_router.Protocol.{Ident, Failure, ok, Result-cases}
use agent_router.Domain.{TaskState}
use agent_router.Store.{
  Db, Outside, Draw, Binding, Task, Kind, Reason, Activation, RoleSession, Run,
}
use agent_router.Core.Evolution.{
  Evolves, transition-Transits, transition-eq-ok, transition-reaches, find_task,
}
use agent_router.Core.Transition.{transition, set_state}
use agent_router.Core.Dispatch.{dispatch, activate, launch, refusal}
use agent_router.Core.Dispatch.Gates.{
  Options, Gate, pass, halt, fail, Plan, admit, blocked, set_reason,
}
use agent_router.Core.Dispatch.Session.{ensure_active_activation, adopt, renew_activation}
use agent_router.Core.Dispatch.Input.{Given, given}
use agent_router.Core.Dispatch.Start.{
  Dispatch, start, insert_run, run_of, take_work, consume_input, lease_all, lease_of, enter, occupy,
  auto_start_of,
}

-- What activating a session may write: sessions and activations.
pub record Activates (s s' : Db) : Type 0 where
  pub tasks : s'.tasks ≡ s.tasks
  pub runs : s'.runs ≡ s.runs
  pub slots : s'.role_slots ≡ s.role_slots
  pub leases : s'.resource_leases ≡ s.resource_leases
  pub starts : s'.auto_starts ≡ s.auto_starts
  pub outbox : s'.outbox ≡ s.outbox
  pub results : s'.results ≡ s.results

renew_activation-Activates :
    (o : Outside) (role_id : Ident) (b : Binding) (session : Ident) (old : Option Activation)
    (s : Db)
    → Activates s (renew_activation o role_id b session old s).1
unfolding renew_activation
renew_activation-Activates o role_id b session old s = ground arith

adopt-Activates :
    (b : Binding) (e : RoleSession) (s : Db) {s' : Db} → adopt b e s ≡ ok s' → Activates s s'
unfolding adopt
adopt-Activates b e s {s'} h = ground arith

pub ensure-Activates :
    (o : Outside) (role_id : Ident) (b : Binding) (session : Ident) (s : Db) {a : Option Activation}
    {s' : Db}
    → ensure_active_activation o role_id b session s ≡ ok (a, s')
    → Activates s s'
unfolding ensure_active_activation
ensure-Activates o role_id b session s {a} {s'} h =
    grind (arith, adopt-Activates, renew_activation-Activates)

-- What starting a run writes.
pub record Starts (o : Outside) (role_id : Ident) (plan : Plan) (d : Dispatch) (s s' : Db)
    : Type 0 where
  pub tasks : Evolves s.tasks s'.tasks
  pub began : (t : Task) × (find_task plan.task.id s'.tasks ≡ some t) × (t.state ≡ TaskState.active)
  pub slots :
      s'.role_slots
      ≡ update_where
          (λ t. t.role_id == role_id)
          (occupy plan.task.id (o.fresh Draw.run))
          s.role_slots
  pub leases :
      s'.resource_leases
      ≡ s.resource_leases
        ++ map (lease_of (o.fresh Draw.run) plan.bound.binding.epoch) plan.resources
  pub starts : s'.auto_starts ≡ s.auto_starts ++ auto_start_of o role_id plan ∷ []
  pub named : d.id ≡ o.fresh Draw.run
  pub of_task : d.task_id ≡ plan.task.id

consume_input-eq-ok :
    (i : Option Ident) (run : Ident) (now : ℕ) (s : Db) {s' : Db}
    → consume_input i run now s ≡ ok s'
    → s' ≡ record s { task_inputs = s'.task_inputs }
unfolding consume_input
consume_input-eq-ok none run now s h = ground arith
consume_input-eq-ok (some i) run now s {s'} h = ground arith

-- The states that a start goes through.
start-eq-ok :
    (o : Outside) (role_id : Ident) (plan : Plan) (a : Activation) (g : Given) (s : Db)
    {d : Dispatch} {s' : Db}
    → start o role_id plan a g s ≡ ok (d, s')
    → (s₁ : Db) × (s₂ : Db) × (s₃ : Db) × (insert_run (run_of o role_id plan a g) s ≡ ok s₁)
      × (transition plan.task.id TaskState.active (lease_all o plan s₁) ≡ ok s₂)
      × (consume_input g.consumes
            (o.fresh Draw.run)
            o.now
            (take_work plan.kind plan.task.id (o.fresh Draw.run) (enter o role_id plan s₂))
          ≡ ok s₃)
      × (s' ≡ record s₃ { events = s'.events })
      × (d.id ≡ o.fresh Draw.run)
      × (d.task_id ≡ plan.task.id)
unfolding start
start-eq-ok o role_id plan a g s {d} {s'} h =
    elim (Result-cases (insert_run (run_of o role_id plan a g) s)) [
      | inr (_, e₁) ↦ absurd (ground arith)
      | inl (s₁, e₁) ↦
          elim (Result-cases (transition plan.task.id TaskState.active (lease_all o plan s₁))) [
            | inr (_, e₂) ↦ absurd (ground arith)
            | inl (s₂, e₂) ↦
                elim (Result-cases (
                  consume_input g.consumes (o.fresh Draw.run) o.now (
                    take_work plan.kind plan.task.id (o.fresh Draw.run)
                      (enter o role_id plan s₂)))) [
                        | inr (_, e₃) ↦ absurd (ground arith)
                        | inl (s₃, e₃) ↦
                            (s₁, s₂, s₃, e₁, e₂, e₃, ground arith, ground arith, ground arith)
                      ]
          ]
    ]

insert_run-eq-ok :
    (r : Run) (s : Db) {s' : Db}
    → insert_run r s ≡ ok s'
    → s' ≡ record s { runs = s.runs ++ r ∷ [] }
unfolding insert_run
insert_run-eq-ok r s {s'} h = ground arith

-- Taking the work from the queue leaves the tables that the invariants read.
take_work-frame :
    (kind : Kind) (task run : Ident) (s : Db)
    → ((take_work kind task run s).tasks ≡ s.tasks)
      × ((take_work kind task run s).role_slots ≡ s.role_slots)
      × ((take_work kind task run s).resource_leases ≡ s.resource_leases)
      × ((take_work kind task run s).auto_starts ≡ s.auto_starts)
unfolding take_work
take_work-frame kind task run s = ground arith

pub start-Starts :
    (o : Outside) (role_id : Ident) (plan : Plan) (a : Activation) (g : Given) (s : Db)
    {d : Dispatch} {s' : Db}
    → start o role_id plan a g s ≡ ok (d, s')
    → Starts o role_id plan d s s'
start-Starts o role_id plan a g s {d} {s'} h =
    let (s₁, s₂, s₃, e₁, e₂, e₃, e, named, of_task) = start-eq-ok o role_id plan a g s h in
    let i = insert_run-eq-ok (run_of o role_id plan a g) s e₁ in
    let (t, found, _, moved) =
      transition-eq-ok plan.task.id TaskState.active (lease_all o plan s₁) e₂ in
    let c = consume_input-eq-ok g.consumes (o.fresh Draw.run) o.now _ e₃ in
    let f = take_work-frame plan.kind plan.task.id (o.fresh Draw.run) (enter o role_id plan s₂) in
    let (u, _, _, there) =
      transition-reaches plan.task.id TaskState.active (lease_all o plan s₁) e₂ in
    let tasks_eq : s'.tasks ≡ s₂.tasks = ground arith in
    let same_tasks : s₁.tasks ≡ s.tasks = ap (λ (d : Db). d.tasks) i in
    record {
      tasks = subst (Evolves s.tasks) (sym tasks_eq) (
          subst (λ ts. Evolves ts s₂.tasks) same_tasks
            (transition-Transits plan.task.id TaskState.active (lease_all o plan s₁) e₂).tasks);
      began = (
        set_state TaskState.active u,
        subst (λ ts. find_task plan.task.id ts ≡ some (set_state TaskState.active u)) (sym tasks_eq)
            there,
        refl,
      );
      slots = ground arith;
      leases = ground arith;
      starts = ground arith;
      named = named;
      of_task = of_task;
    }

-- A dispatch that starts nothing changes at most the reason in the role's slot, sessions and
-- activations.
pub record Idles (role_id : Ident) (s s' : Db) : Type 0 where
  pub tasks : s'.tasks ≡ s.tasks
  pub runs : s'.runs ≡ s.runs
  pub leases : s'.resource_leases ≡ s.resource_leases
  pub starts : s'.auto_starts ≡ s.auto_starts
  pub outbox : s'.outbox ≡ s.outbox
  pub results : s'.results ≡ s.results
  pub slots :
      (s'.role_slots ≡ s.role_slots)
      ⊎ ((r : Reason) × (s'.role_slots
            ≡ update_where (λ t. t.role_id == role_id) (set_reason (some r)) s.role_slots))

refusal-Idles :
    (role_id : Ident) (r : Option Reason) {s s₁ : Db}
    → Activates s s₁
    → Idles role_id s (refusal role_id r s₁).1
unfolding blocked
refusal-Idles role_id none v = record {
  tasks = v.tasks;
  runs = v.runs;
  leases = v.leases;
  starts = v.starts;
  outbox = v.outbox;
  results = v.results;
  slots = inl v.slots;
}
refusal-Idles role_id (some r) v = record {
  tasks = v.tasks;
  runs = v.runs;
  leases = v.leases;
  starts = v.starts;
  outbox = v.outbox;
  results = v.results;
  slots = inr (r, ap (update_where (λ t. t.role_id == role_id) (set_reason (some r))) v.slots);
}

Activates-refl : (s : Db) → Activates s s
Activates-refl s = ground arith

-- The two ways in which a dispatch succeeds.
pub data Effect (opts : Options) (o : Outside) (role_id : Ident) (s : Db) (out : Option Dispatch)
    (s' : Db) : Type 0 where
  idle : out ≡ none → Idles role_id s s' → Effect opts o role_id s out s'
  started :
      (plan : Plan) (a : Activation) (g : Given) (d : Dispatch) (s₁ : Db)
      → out ≡ some d
      → admit opts o role_id s ≡ pass plan
      → Activates s s₁
      → given plan s₁ ≡ some g
      → Starts o role_id plan d s₁ s'
      → Effect opts o role_id s out s'

launch-eq-ok :
    (opts : Options) (o : Outside) (role_id : Ident) (plan : Plan) (a : Activation) (s s₁ : Db)
    {out : Option Dispatch} {s' : Db}
    → admit opts o role_id s ≡ pass plan
    → Activates s s₁
    → launch o role_id plan a s₁ ≡ ok (out, s')
    → Effect opts o role_id s out s'
unfolding launch
launch-eq-ok opts o role_id plan a s s₁ {out} {s'} admitted v h =
    elim (Option-cases (given plan s₁)) [
      | inl e ↦
          let none_out : out ≡ none = ground arith in
          let refused : (refusal role_id (some Reason.task_input_missing) s₁).1 ≡ s' =
            ground arith in
          Effect.idle none_out (
            subst (Idles role_id s) refused
              (refusal-Idles role_id (some Reason.task_input_missing) v))
      | inr (g, e) ↦ elim (Result-cases (start o role_id plan a g s₁)) [
        | inr (_, f) ↦ absurd (ground arith)
        | inl ((d, s₂), f) ↦
            let some_out : out ≡ some d = ground arith in
            let done : s₂ ≡ s' = ground arith in
            Effect.started plan a g d s₁ some_out admitted v e
              (subst (Starts o role_id plan d s₁) done (start-Starts o role_id plan a g s₁ f))
      ]
    ]

activate-eq-ok :
    (opts : Options) (o : Outside) (role_id : Ident) (plan : Plan) (s : Db) {out : Option Dispatch}
    {s' : Db}
    → admit opts o role_id s ≡ pass plan
    → activate o role_id plan s ≡ ok (out, s')
    → Effect opts o role_id s out s'
unfolding activate
activate-eq-ok opts o role_id plan s {out} {s'} admitted h =
    elim (Result-cases
      (ensure_active_activation o role_id plan.bound.binding plan.role_session_id s)) [
        | inr (_, e) ↦ absurd (ground arith)
        | inl ((some a, s₁), e) ↦
            let went_on : launch o role_id plan a s₁ ≡ ok (out, s') = ground arith in
            launch-eq-ok opts o role_id plan a s s₁ admitted
              (ensure-Activates o role_id plan.bound.binding plan.role_session_id s e) went_on
        | inl ((none, s₁), e) ↦
            let none_out : out ≡ none = ground arith in
            let refused : (refusal role_id (some Reason.work_session_binding_mismatch) s₁).1 ≡ s' =
              ground arith in
            Effect.idle none_out (
              subst (Idles role_id s) refused (
                refusal-Idles role_id (some Reason.work_session_binding_mismatch)
                  (ensure-Activates o role_id plan.bound.binding plan.role_session_id s e)))
      ]

pub dispatch-eq-ok :
    (opts : Options) (o : Outside) (role_id : Ident) (s : Db) {out : Option Dispatch} {s' : Db}
    → dispatch opts o role_id s ≡ ok (out, s')
    → Effect opts o role_id s out s'
unfolding dispatch
dispatch-eq-ok opts o role_id s {out} {s'} h = elim (Gate-cases (admit opts o role_id s)) [
  | inl (plan, e) ↦
      let went_on : activate o role_id plan s ≡ ok (out, s') = ground arith in
      activate-eq-ok opts o role_id plan s e went_on
  | inr (inl (r, e)) ↦
      let none_out : out ≡ none = ground arith in
      let refused : (refusal role_id r s).1 ≡ s' = ground arith in
      Effect.idle none_out
        (subst (Idles role_id s) refused (refusal-Idles role_id r (Activates-refl s)))
  | inr (inr (f, e)) ↦ absurd (ground arith)
]
  where
    Gate-cases :
        (m : Gate Plan)
        → ((plan : Plan) × (m ≡ pass plan))
          ⊎ (((r : Option Reason) × (m ≡ halt r)) ⊎ ((f : Failure) × (m ≡ fail f)))
    Gate-cases (pass plan) = inl (plan, refl)
    Gate-cases (halt r) = inr (inl (r, refl))
    Gate-cases (fail f) = inr (inr (f, refl))
