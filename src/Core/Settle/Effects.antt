-- ===== src/Core/Settle/Effects.antt =====
-- What settling a run writes: the inversion of its success, and of each of its parts.
use agent_router.Prelude.{
  ℕ, Option, none, some, ◌≡◌, ◌⊎◌, refl, arith, one, update_where, holds, ◌==◌, ◌&&◌, Option-cases,
  Bool-cases, inl, inr, subst, sym, ◌∙◌,
}
use agent_router.Protocol.{Ident, ok, Result-cases, is_success, is_handoff}
use agent_router.Domain.{TaskState}
use agent_router.Store.{Db, Outside, Task, Run, StagedResult, IssueCode, Draw, Continuation}
use agent_router.Core.Transition.{transition}
use agent_router.Core.Wait.{refresh_wait}
use agent_router.Core.Settle.{
  Terminal, Evidence, Verdict, verdict, settle, conclude, publish, attend, release, notify_parent,
  add_continuation, settled_state, close_run, leave, staged_of, quarantine, issue, clear_task,
  clear_run, is_waiting_input, has_succeeded, parent_task, assigned_to, accepted,
}
use agent_router.Core.Evolution.{Evolves, Evolves-refl, transition-Transits}
use agent_router.Core.Quiet.{Quiet, Quiet-trans, refresh_wait-Quiet, transition-Quiet}
use agent_router.Core.Calm.{
  Calm, Calm-refl, Calm-trans, Calm-of_Quiet, Shrinks-refl, Shrinks-update_where,
  Distinct-delete_where,
}

add_continuation-Quiet : (c : Continuation) (s : Db) → Quiet s (add_continuation c s)
unfolding add_continuation
add_continuation-Quiet c s =
    let same_tasks : s.tasks ≡ (add_continuation c s).tasks = ground arith in
    record {
      tasks = subst (Evolves s.tasks) same_tasks (Evolves-refl s.tasks);
      slots = ground arith;
      leases = ground arith;
      starts = ground arith;
      log = ground arith;
    }

Quiet-refl : (s : Db) → Quiet s s
Quiet-refl s = record {
  tasks = Evolves-refl s.tasks;
  slots = refl;
  leases = refl;
  starts = refl;
  log = refl;
}

-- Either nothing, or a continuation and a fresh look at the parent's wait.
abbrev continued : Outside → Ident → StagedResult → Continuation
continued o parent r = record {
  id = o.fresh Draw.continuation;
  parent_task_id = parent;
  result_id = r.id;
  consumed_run_id = none;
}

notify_parent-cases :
    (o : Outside) (t : Task) (r : StagedResult) (s : Db)
    → (notify_parent o t r s ≡ s)
      ⊎ ((parent : Ident) × (notify_parent o t r s
            ≡ refresh_wait parent (add_continuation (continued o parent r) s)))
unfolding notify_parent
notify_parent-cases o t r s = elim (Option-cases (parent_task t s)) [
  | inl e ↦ inl (ground arith)
  | inr (q, e) ↦ elim (Bool-cases (assigned_to t.completion.to q)) [
    | inr c ↦ inl (ground arith)
    | inl c ↦ elim (Bool-cases (is_success r.finish.outcome)) [
      | inr w ↦ inl (ground arith)
      | inl w ↦ elim (Bool-cases (is_handoff t.completion.mode)) [
        | inl m ↦ inl (ground arith)
        | inr m ↦ inr (q.id, ground arith)
      ]
    ]
  ]
]

pub notify_parent-Quiet :
    (o : Outside) (t : Task) (r : StagedResult) (s : Db) → Quiet s (notify_parent o t r s)
notify_parent-Quiet o t r s = elim (notify_parent-cases o t r s) [
  | inl e ↦ subst (Quiet s) (sym e) (Quiet-refl s)
  | inr (parent, e) ↦
      subst (Quiet s) (sym e) (
        Quiet-trans (add_continuation-Quiet (continued o parent r) s) (refresh_wait-Quiet parent _))
]

-- The states that publishing a result goes through.
pub publish-eq-ok :
    (o : Outside) (r : Run) (result : StagedResult) (s : Db) {s' : Db}
    → publish o r result s ≡ ok s'
    → (t : Task) × (s₂ : Db) × (one (λ t. holds r.task_id t.id) s.tasks ≡ some t)
      × (transition t.id (settled_state result.finish.outcome t.completion) (release r.id result s)
          ≡ ok s₂)
      × (s' ≡ record (notify_parent o t result s₂) {
        role_slots =
            update_where
              (λ p. p.role_id == r.role_id)
              clear_task
              (notify_parent o t result s₂).role_slots;
      })
unfolding publish
publish-eq-ok o r result s {s'} h = elim (Option-cases (one (λ t. holds r.task_id t.id) s.tasks)) [
  | inl e ↦ absurd (ground arith)
  | inr (t, e) ↦
      elim (Result-cases (
        transition t.id (settled_state result.finish.outcome t.completion)
          (release r.id result s))) [
            | inr (_, f) ↦ absurd (ground arith)
            | inl (s₂, f) ↦ (t, s₂, e, f, ground arith)
          ]
]

-- An unhappy end: nothing, or the task is flagged.
pub attend-eq-ok :
    (r : Run) (outcome : Terminal) (staged : Option StagedResult) (s : Db) {s' : Db}
    → attend r outcome staged s ≡ ok s'
    → (s' ≡ s)
      ⊎ ((t : Task) × (s₁ : Db) × (one (λ t. holds r.task_id t.id) s.tasks ≡ some t)
          × (transition t.id TaskState.needs_attention s ≡ ok s₁)
          × (s' ≡ issue r IssueCode.run_requires_attention (quarantine staged s₁)))
unfolding attend
attend-eq-ok r outcome staged s {s'} h =
    elim (Option-cases (one (λ t. holds r.task_id t.id) s.tasks)) [
      | inl e ↦ inl (ground arith)
      | inr (t, e) ↦ elim (Result-cases (transition t.id TaskState.needs_attention s)) [
        | inr (_, f) ↦ inl (ground arith)
        | inl (s₁, f) ↦ elim (Bool-cases (is_waiting_input t.state && has_succeeded outcome)) [
          | inl w ↦ inl (ground arith)
          | inr w ↦ inr (t, s₁, e, f, ground arith)
        ]
      ]
    ]

publish-Calm :
    (o : Outside) (r : Run) (result : StagedResult) (s : Db) {s' : Db}
    → publish o r result s ≡ ok s'
    → Calm s s'
publish-Calm o r result s {s'} h =
    let (t, s₂, found, moved, e) = publish-eq-ok o r result s h in
    let q = transition-Quiet (
      transition-Transits t.id (settled_state result.finish.outcome t.completion)
        (release r.id result s) moved) in
    let n = notify_parent-Quiet o t result s₂ in
    let after : Db = notify_parent o t result s₂ in
    let quiet : Quiet s after = record {
      tasks = (Quiet-trans q n).tasks;
      slots = n.slots ∙ q.slots;
      leases = n.leases ∙ q.leases;
      starts = n.starts ∙ q.starts;
      log = n.log ∙ q.log;
    } in
    let cleared : Calm after (record after {
      role_slots = update_where (λ p. p.role_id == r.role_id) clear_task after.role_slots;
    }) =
      record {
        tasks = Evolves-refl after.tasks;
        slots =
            Shrinks-update_where (λ p. p.role_id == r.role_id) clear_task (λ t. refl) (λ t h. h)
              after.role_slots;
        leases = λ d. d;
        starts = refl;
      } in
    subst (Calm s) (sym e) (Calm-trans (Calm-of_Quiet quiet) cleared)

quarantine-Quiet : (staged : Option StagedResult) (s : Db) → Quiet s (quarantine staged s)
quarantine-Quiet none s = Quiet-refl s
quarantine-Quiet (some r) s = record {
  tasks = Evolves-refl s.tasks;
  slots = refl;
  leases = refl;
  starts = refl;
  log = refl;
}

pub issue-Quiet : (r : Run) (code : IssueCode) (s : Db) → Quiet s (issue r code s)
unfolding issue
issue-Quiet r code s = record {
  tasks = Evolves-refl s.tasks;
  slots = refl;
  leases = refl;
  starts = refl;
  log = refl;
}

attend-Calm :
    (r : Run) (outcome : Terminal) (staged : Option StagedResult) (s : Db) {s' : Db}
    → attend r outcome staged s ≡ ok s'
    → Calm s s'
attend-Calm r outcome staged s {s'} h = elim (attend-eq-ok r outcome staged s h) [
  | inl e ↦ subst (Calm s) (sym e) (Calm-refl s)
  | inr (t, s₁, found, moved, e) ↦ subst (Calm s) (sym e) (
      Calm-of_Quiet (
        Quiet-trans (transition-Quiet (transition-Transits t.id TaskState.needs_attention s moved))
          (Quiet-trans (quarantine-Quiet staged s₁)
            (issue-Quiet r IssueCode.run_requires_attention (quarantine staged s₁)))))
]

conclude-Calm :
    (o : Outside) (r : Run) (outcome : Terminal) (staged : Option StagedResult) (s : Db) {s' : Db}
    → conclude o r outcome staged s ≡ ok s'
    → Calm s s'
conclude-Calm o r Terminal.succeeded (some result) s h = publish-Calm o r result s h
conclude-Calm o r Terminal.succeeded none s h = attend-Calm r Terminal.succeeded none s h
conclude-Calm o r Terminal.failed staged s h = attend-Calm r Terminal.failed staged s h
conclude-Calm o r Terminal.cancelled staged s h = attend-Calm r Terminal.cancelled staged s h
conclude-Calm o r Terminal.other staged s h = attend-Calm r Terminal.other staged s h

pub accepted-Quiet : (run : Ident) (s : Db) → Quiet s (accepted run s)
unfolding accepted
accepted-Quiet run s = record {
  tasks = Evolves-refl s.tasks;
  slots = refl;
  leases = refl;
  starts = refl;
  log = refl;
}

close_run-Calm : (r : Run) (outcome : Terminal) (s : Db) → Calm s (close_run r outcome s)
unfolding accepted
close_run-Calm r outcome s = record {
  tasks = Evolves-refl s.tasks;
  slots = Shrinks-refl s.role_slots;
  leases = λ d. d;
  starts = refl;
}

leave-Calm : (r : Run) (s : Db) → Calm s (leave r s)
leave-Calm r s = record {
  tasks = Evolves-refl s.tasks;
  slots =
      Shrinks-update_where (λ p. p.role_id == r.role_id) clear_run (λ t. refl)
        (λ t h. absurd (ground arith)) s.role_slots;
  leases = Distinct-delete_where (λ l. l.run_id == r.id) s.resource_leases;
  starts = refl;
}

-- A settlement that succeeds was ignored, or went through the states named here.
pub settle-eq-ok :
    (o : Outside) (run : Ident) (epoch : ℕ) (outcome : Terminal) (e : Evidence) (s : Db) {s' : Db}
    → settle o run epoch outcome e s ≡ ok s'
    → (r : Run) × (one (λ r. r.id == run) s.runs ≡ some r)
      × (((verdict r epoch outcome e s ≡ ok Verdict.ignored) × (s' ≡ s))
          ⊎ ((s₁ : Db) × (verdict r epoch outcome e s ≡ ok Verdict.proceed)
              × (conclude o r outcome (staged_of run s) (close_run r outcome s) ≡ ok s₁)
              × (s' ≡ leave r s₁)))
unfolding settle
settle-eq-ok o run epoch outcome e s {s'} h = elim (Option-cases (one (λ r. r.id == run) s.runs)) [
  | inl missing ↦ absurd (ground arith)
  | inr (r, found) ↦ elim (Result-cases (verdict r epoch outcome e s)) [
    | inr (_, v) ↦ absurd (ground arith)
    | inl (Verdict.ignored, v) ↦ (r, found, inl (v, ground arith))
    | inl (Verdict.proceed, v) ↦
        elim (Result-cases (conclude o r outcome (staged_of run s) (close_run r outcome s))) [
          | inr (_, c) ↦ absurd (ground arith)
          | inl (s₁, c) ↦ (r, found, inr (s₁, v, c, ground arith))
        ]
  ]
]

pub settle-Calm :
    (o : Outside) (run : Ident) (epoch : ℕ) (outcome : Terminal) (e : Evidence) (s : Db) {s' : Db}
    → settle o run epoch outcome e s ≡ ok s'
    → Calm s s'
settle-Calm o run epoch outcome e s {s'} h =
    let (r, found, how) = settle-eq-ok o run epoch outcome e s h in
    elim how [
      | inl (v, done) ↦ subst (Calm s) (sym done) (Calm-refl s)
      | inr (s₁, v, c, done) ↦ subst (Calm s) (sym done) (
          Calm-trans (close_run-Calm r outcome s) (
            Calm-trans (conclude-Calm o r outcome (staged_of run s) (close_run r outcome s) c)
              (leave-Calm r s₁)))
    ]

-- What ends a run leaves the runs themselves, and the entries of the outbox, but for those that
-- publishing releases.
pub notify_parent-frame :
    (o : Outside) (t : Task) (r : StagedResult) (s : Db)
    → ((notify_parent o t r s).runs ≡ s.runs)
      × ((notify_parent o t r s).outbox ≡ s.outbox)
      × ((notify_parent o t r s).results ≡ s.results)
      × ((notify_parent o t r s).tasks ≡ s.tasks)
unfolding add_continuation refresh_wait
notify_parent-frame o t r s = elim (notify_parent-cases o t r s) [
  | inl e ↦ rw e (refl, refl, refl, refl)
  | inr (parent, e) ↦ rw e (ground arith)
]
