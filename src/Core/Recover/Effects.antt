-- ===== src/Core/Recover/Effects.antt =====
-- What a recovery writes.
use agent_router.Prelude.{
  Option, none, some, List, [], ◌∷◌, ◌≡◌, ◌⊎◌, refl, arith, one, select, holds, ◌==◌, Bool-cases,
  inl, inr, subst, sym,
}
use agent_router.Protocol.{ok, Result-cases}
use agent_router.Domain.{TaskState}
use agent_router.Store.{Db, Task, Run, IssueCode, Reason}
use agent_router.Core.Transition.{transition}
use agent_router.Core.Settle.{issue}
use agent_router.Core.Settle.Effects.{issue-Quiet}
use agent_router.Core.Dispatch.Gates.{set_reason}
use agent_router.Core.Dispatch.Start.{is_live}
use agent_router.Core.Recover.{
  recover, recover_runs, recover_run, flag_task, suspect, set_quarantined, needs_attention,
}
use agent_router.Core.Evolution.{Evolves-refl, transition-Transits, Transits}
use agent_router.Core.Quiet.{transition-Quiet}
use agent_router.Core.Calm.{
  Calm, Calm-refl, Calm-trans, Calm-of_Quiet, Shrinks-update_where, Distinct-update_where,
}

suspect-Calm : (r : Run) (s : Db) → Calm s (suspect r s)
suspect-Calm r s = record {
  tasks = Evolves-refl s.tasks;
  slots =
      Shrinks-update_where (λ p. p.role_id == r.role_id) (set_reason (some Reason.reconciling))
        (λ t. refl) (λ t h. h) s.role_slots;
  leases =
      Distinct-update_where (λ l. l.run_id == r.id) set_quarantined (λ m. refl) s.resource_leases;
  starts = refl;
}

flag_task-eq-ok :
    (t : Option Task) (s : Db) {s' : Db} → flag_task t s ≡ ok s' → (s' ≡ s) ⊎ Transits s s'
unfolding flag_task
flag_task-eq-ok none s h = inl (ground arith)
flag_task-eq-ok (some t) s {s'} h = elim (Bool-cases (needs_attention t.state)) [
  | inl e ↦ inl (ground arith)
  | inr e ↦
      let moved : transition t.id TaskState.needs_attention s ≡ ok s' = ground arith in
      inr (transition-Transits t.id TaskState.needs_attention s moved)
]

-- One run: suspected, its task flagged, an issue raised.
pub recover_run-eq-ok :
    (r : Run) (s : Db) {s' : Db}
    → recover_run r s ≡ ok s'
    → (s₁ : Db) × ((s₁ ≡ suspect r s) ⊎ Transits (suspect r s) s₁)
      × (s' ≡ issue r IssueCode.execution_unknown s₁)
unfolding recover_run
recover_run-eq-ok r s {s'} h =
    elim (Result-cases (flag_task (one (λ t. holds r.task_id t.id) s.tasks) (suspect r s))) [
      | inr (_, e) ↦ absurd (ground arith)
      | inl (s₁, e) ↦ (
        s₁,
        flag_task-eq-ok (one (λ t. holds r.task_id t.id) s.tasks) (suspect r s) e,
        ground arith,
      )
    ]

recover_run-Calm : (r : Run) (s : Db) {s' : Db} → recover_run r s ≡ ok s' → Calm s s'
recover_run-Calm r s {s'} h =
    let (s₁, how, e) = recover_run-eq-ok r s h in
    let flagged : Calm (suspect r s) s₁ = elim how [
      | inl same ↦ subst (Calm (suspect r s)) (sym same) (Calm-refl (suspect r s))
      | inr t ↦ Calm-of_Quiet (transition-Quiet t)
    ] in
    subst (Calm s) (sym e) (
      Calm-trans (suspect-Calm r s)
        (Calm-trans flagged (Calm-of_Quiet (issue-Quiet r IssueCode.execution_unknown s₁))))

recover_runs-Calm : (rs : List Run) (s : Db) {s' : Db} → recover_runs rs s ≡ ok s' → Calm s s'
unfolding recover_runs
recover_runs-Calm [] s {s'} h = let e : s ≡ s' = ground arith in subst (Calm s) e (Calm-refl s)
recover_runs-Calm (r ∷ rs) s {s'} h = elim (Result-cases (recover_run r s)) [
  | inr (_, e) ↦ absurd (ground arith)
  | inl (s₁, e) ↦
      let rest : recover_runs rs s₁ ≡ ok s' = ground arith in
      Calm-trans (recover_run-Calm r s e) (recover_runs-Calm rs s₁ rest)
]

pub recover-Calm : (s : Db) {s' : Db} → recover s ≡ ok s' → Calm s s'
unfolding recover
recover-Calm s h = recover_runs-Calm (select (λ r. is_live r.state) s.runs) s h
