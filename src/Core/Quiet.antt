-- ===== src/Core/Quiet.antt =====
-- The calls that a role makes of its tools, and the user's requests, touch neither the slots nor
-- the leases nor the record of starts, and move tasks along the table alone.
use agent_router.Prelude.{
  ℕ, Option, none, some, List, [], ◌∷◌, ◌++◌, ◌≡◌, refl, ◌==◌, arith, one, ◌∙◌, ap, Option-cases,
  inl, inr, subst,
}
use agent_router.Protocol.{Ident, ok, Request, Target, Input, Finish, Wait, Result-cases}
use agent_router.Store.{Db, Outside, Task, Content, Response, StagedResult, Draw}
use agent_router.Core.External.{External}
use agent_router.Core.Identity.{Identity}
use agent_router.Core.Transition.{transition}
use agent_router.Core.Messages.{
  message, new_request, store_request, send_body, stored_task, parent_of, policy_of,
}
use agent_router.Core.Finish.{
  finish_body, report, insert_result, staged_result, settling, report_to,
}
use agent_router.Domain.{TaskState}
use agent_router.Core.Wait.{wait_body, refresh_wait, dependencies, recorded_wait}
use agent_router.Core.Evolution.{
  Evolves, Evolves-refl, Evolves-trans, Evolves-append, Transits, transition-Transits,
}

pub record Quiet (s s' : Db) : Type 0 where
  pub tasks : Evolves s.tasks s'.tasks
  pub slots : s'.role_slots ≡ s.role_slots
  pub leases : s'.resource_leases ≡ s.resource_leases
  pub starts : s'.auto_starts ≡ s.auto_starts
  pub log : s'.operations ≡ s.operations

pub Quiet-trans : {s t u : Db} → Quiet s t → Quiet t u → Quiet s u
Quiet-trans q r = record {
  tasks = Evolves-trans q.tasks r.tasks;
  slots = r.slots ∙ q.slots;
  leases = r.leases ∙ q.leases;
  starts = r.starts ∙ q.starts;
  log = r.log ∙ q.log;
}

pub transition-Quiet : {s s' : Db} → Transits s s' → Quiet s s'
transition-Quiet t = record {
  tasks = t.tasks;
  slots = ap (λ (d : Db). d.role_slots) t.rest;
  leases = ap (λ (d : Db). d.resource_leases) t.rest;
  starts = ap (λ (d : Db). d.auto_starts) t.rest;
  log = ap (λ (d : Db). d.operations) t.rest;
}

pub message-Quiet :
    (o : Outside) (p : Identity) (c : Content) (to : Target) (op : ℕ) (task held : Option Ident)
    (s : Db)
    → Quiet s (message o p c to op task held s)
unfolding message
message-Quiet o p c to op task held s = record {
  tasks = Evolves-refl s.tasks;
  slots = refl;
  leases = refl;
  starts = refl;
  log = refl;
}

pub store_request-Quiet :
    (o : Outside) (p : Identity) (r : Request) (op : ℕ) (held inherit : Option Ident)
    (policy : Ident) (s : Db)
    → Quiet s (store_request o p r op held inherit policy s)
unfolding store_request message
store_request-Quiet o p r op held inherit policy s = record {
  tasks = Evolves-append s.tasks (stored_task o p r inherit (parent_of p s) policy s ∷ []);
  slots = refl;
  leases = refl;
  starts = refl;
  log = refl;
}

-- What a request that is accepted writes.
pub new_request-eq-ok :
    (x : External) (o : Outside) (p : Identity) (r : Request) (op : ℕ) (held inherit : Option Ident)
    (s : Db) {id : Ident} {s' : Db}
    → new_request x o p r op held inherit s ≡ ok (id, s')
    → (policy : Ident) × (s' ≡ store_request o p r op held inherit policy s)
unfolding new_request
new_request-eq-ok x o p r op held inherit s {id} {s'} h =
    elim (Option-cases (policy_of p (parent_of p s) s)) [
      | inl e ↦ absurd (ground arith)
      | inr (q, e) ↦ (q, ground arith)
    ]

pub new_request-Quiet :
    (x : External) (o : Outside) (p : Identity) (r : Request) (op : ℕ) (held inherit : Option Ident)
    (s : Db) {id : Ident} {s' : Db}
    → new_request x o p r op held inherit s ≡ ok (id, s')
    → Quiet s s'
new_request-Quiet x o p r op held inherit s h =
    let (q, e) = new_request-eq-ok x o p r op held inherit s h in
    rw e (store_request-Quiet o p r op held inherit q s)

pub send_body-Quiet :
    (x : External) (o : Outside) (p : Identity) (i : Input) (row : ℕ) (s : Db) {r : Response}
    {s' : Db}
    → send_body x o p i row s ≡ ok (r, s')
    → Quiet s s'
unfolding send_body
send_body-Quiet x o p (Input.request q) row s {r} {s'} h =
    elim (Result-cases (new_request x o p q row none none s)) [
      | inl ((id, s₁), e) ↦
          let done : s₁ ≡ s' = ground arith in
          subst (Quiet s) done (new_request-Quiet x o p q row none none s e)
      | inr (f, e) ↦ absurd (ground arith)
    ]
send_body-Quiet x o p (Input.notice n) row s {r} {s'} h =
    let done : message o p (Content.notice n) n.to row none none s ≡ s' = ground arith in
    subst (Quiet s) done (message-Quiet o p (Content.notice n) n.to row none none s)
send_body-Quiet x o p (Input.finish f) row s h = absurd (ground arith)
send_body-Quiet x o p (Input.wait w) row s h = absurd (ground arith)
send_body-Quiet x o p Input.error row s h = absurd (ground arith)

insert_result-Quiet : (r : StagedResult) (s : Db) {s' : Db} → insert_result r s ≡ ok s' → Quiet s s'
unfolding insert_result
insert_result-Quiet r s {s'} h =
    let done : record s { results = s.results ++ r ∷ [] } ≡ s' = ground arith in
    subst (Quiet s) done (record {
      tasks = Evolves-refl s.tasks;
      slots = refl;
      leases = refl;
      starts = refl;
      log = refl;
    })

pub report-Quiet :
    (x : External) (o : Outside) (p : Identity) (id : Ident) (t : Task) (f : Finish)
    (next : Option Request) (row : ℕ) (s : Db) {s' : Db}
    → report x o p id t f next row s ≡ ok s'
    → Quiet s s'
unfolding report
report-Quiet x o p id t f (some q) row s {s'} h =
    elim (Result-cases (new_request x o p q row p.run_id (some t.chain_id) s)) [
      | inl ((j, s₁), e) ↦
          let done : s₁ ≡ s' = ground arith in
          subst (Quiet s) done (new_request-Quiet x o p q row p.run_id (some t.chain_id) s e)
      | inr (g, e) ↦ absurd (ground arith)
    ]
report-Quiet x o p id t f none row s {s'} h =
    let sent =
      message o p (Content.result (o.fresh Draw.result) f) (report_to t f) row (some id) p.run_id
        s in
    let done : sent ≡ s' = ground arith in
    subst (Quiet s) done (
      message-Quiet o p (Content.result (o.fresh Draw.result) f) (report_to t f) row (some id)
        p.run_id s)

-- The states that a finish that succeeds goes through.
pub finish_body-eq-ok :
    (x : External) (o : Outside) (p : Identity) (id : Ident) (f : Finish) (row : ℕ) (s : Db)
    {r : Response} {s' : Db}
    → finish_body x o p id f row s ≡ ok (r, s')
    → (t : Task) × (s₁ : Db) × (s₂ : Db) × (s₃ : Db) × (one (λ t. t.id == id) s.tasks ≡ some t)
      × (insert_result (staged_result o p id f) s ≡ ok s₁)
      × (report x o p id t f f.next_request row s₁ ≡ ok s₂)
      × (transition id TaskState.result_staged s₂ ≡ ok s₃)
      × (s' ≡ settling p id s₃)
unfolding finish_body
finish_body-eq-ok x o p id f row s {r} {s'} h =
    elim (Option-cases (one (λ t. t.id == id) s.tasks)) [
      | inl e₀ ↦ absurd (ground arith)
      | inr (t, e₀) ↦ elim (Result-cases (insert_result (staged_result o p id f) s)) [
        | inr (_, e₁) ↦ absurd (ground arith)
        | inl (s₁, e₁) ↦ elim (Result-cases (report x o p id t f f.next_request row s₁)) [
          | inr (_, e₂) ↦ absurd (ground arith)
          | inl (s₂, e₂) ↦ elim (Result-cases (transition id TaskState.result_staged s₂)) [
            | inr (_, e₃) ↦ absurd (ground arith)
            | inl (s₃, e₃) ↦ (t, s₁, s₂, s₃, e₀, e₁, e₂, e₃, ground arith)
          ]
        ]
      ]
    ]

pub finish_body-Quiet :
    (x : External) (o : Outside) (p : Identity) (id : Ident) (f : Finish) (row : ℕ) (s : Db)
    {r : Response} {s' : Db}
    → finish_body x o p id f row s ≡ ok (r, s')
    → Quiet s s'
finish_body-Quiet x o p id f row s {r} {s'} h =
    let (t, s₁, s₂, s₃, e₀, e₁, e₂, e₃, e) = finish_body-eq-ok x o p id f row s h in
    rw e (
      Quiet-trans (insert_result-Quiet (staged_result o p id f) s e₁) (
        Quiet-trans (report-Quiet x o p id t f f.next_request row s₁ e₂) (
          Quiet-trans (transition-Quiet (transition-Transits id TaskState.result_staged s₂ e₃))
            (record {
              tasks = Evolves-refl s₃.tasks;
              slots = refl;
              leases = refl;
              starts = refl;
              log = refl;
            }))))

pub refresh_wait-Quiet : (task : Ident) (s : Db) → Quiet s (refresh_wait task s)
unfolding refresh_wait
refresh_wait-Quiet task s =
    let same_tasks : s.tasks ≡ (refresh_wait task s).tasks = ground arith in
    record {
      tasks = subst (Evolves s.tasks) same_tasks (Evolves-refl s.tasks);
      slots = ground arith;
      leases = ground arith;
      starts = ground arith;
      log = ground arith;
    }

-- The dependencies and the state that a wait that succeeds goes through.
pub wait_body-eq-ok :
    (p : Identity) (task : Ident) (w : Wait) (row : ℕ) (s : Db) {r : Response} {s' : Db}
    → wait_body p task w row s ≡ ok (r, s')
    → (deps : List Ident) × (dependencies p task w s ≡ ok deps)
      × (transition task TaskState.waiting_input (refresh_wait task (recorded_wait task w deps s))
          ≡ ok s')
unfolding wait_body
wait_body-eq-ok p task w row s {r} {s'} h = elim (Result-cases (dependencies p task w s)) [
  | inr (_, e) ↦ absurd (ground arith)
  | inl (deps, e) ↦
      elim (Result-cases (
        transition task TaskState.waiting_input
          (refresh_wait task (recorded_wait task w deps s)))) [
            | inr (_, e₁) ↦ absurd (ground arith)
            | inl (s₁, e₁) ↦ (deps, e, ground arith)
          ]
]

pub wait_body-Quiet :
    (p : Identity) (task : Ident) (w : Wait) (row : ℕ) (s : Db) {r : Response} {s' : Db}
    → wait_body p task w row s ≡ ok (r, s')
    → Quiet s s'
wait_body-Quiet p task w row s h =
    let (deps, _, e) = wait_body-eq-ok p task w row s h in
    Quiet-trans
      (record {
        tasks = Evolves-refl s.tasks;
        slots = refl;
        leases = refl;
        starts = refl;
        log = refl;
      })
      (Quiet-trans (refresh_wait-Quiet task (recorded_wait task w deps s))
        (transition-Quiet (transition-Transits task TaskState.waiting_input _ e)))
