-- ===== src/Core/Settle/Barrier.antt =====
-- When a run may be settled, and that it is settled once.
use agent_router.Prelude.{
  ℕ, Bool, true, false, Option, none, some, ◌≡◌, ◌⊎◌, refl, arith, one, any, update_where, ◌==◌,
  ◌&&◌, Option-cases, inl, inr, subst, sym, ap, ◌∙◌, ==-refl,
}
use agent_router.Prelude.Laws.{one-update_where, one-holds}
use agent_router.Protocol.{Ident, ok}
use agent_router.Domain.{TaskState}
use agent_router.Store.{Db, Outside, Run, RunState, Binding, StagedResult, IssueCode}
use agent_router.Core.Settle.{
  Terminal, Evidence, Verdict, verdict, settle, conclude, publish, attend, close_run, staged_of,
  run_state_of, settled_state, is_known, accepted, release, quarantine, issue, is_starting,
}
use agent_router.Core.Finish.{set_run_state}
use agent_router.Core.Evolution.{transition-Transits}
use agent_router.Core.Settle.Effects.{
  settle-eq-ok, publish-eq-ok, attend-eq-ok, notify_parent-frame,
}

abbrev pub is_ended : RunState → Bool
is_ended RunState.succeeded = true
is_ended RunState.failed = true
is_ended RunState.cancelled = true
is_ended _ = false

-- The proof that a harness gives, and the identity that it speaks for.
pub record Proven (s : Db) (r : Run) (epoch : ℕ) (outcome : Terminal) (e : Evidence) : Type 0 where
  pub native : e.native ≡ true
  pub stopped : e.resources_stopped ≡ true
  pub approved : any (λ a. a.run_id == r.id && a.pending) s.approvals ≡ false
  pub known : is_known outcome ≡ true
  pub of_run : epoch ≡ r.binding_epoch
  pub current :
      (b : Binding) × (one (λ b. b.id == r.binding_id) s.bindings ≡ some b)
      × (b.is_current ≡ true)
      × (b.epoch ≡ epoch)

verdict-Proven :
    (r : Run) (epoch : ℕ) (outcome : Terminal) (e : Evidence) (s : Db)
    → verdict r epoch outcome e s ≡ ok Verdict.proceed
    → Proven s r epoch outcome e
unfolding verdict
verdict-Proven r epoch outcome e s h =
    elim (Option-cases (one (λ b. b.id == r.binding_id) s.bindings)) [
      | inl missing ↦ absurd (ground arith)
      | inr (b, found) ↦ record {
        native = ground arith;
        stopped = ground arith;
        approved = ground arith;
        known = ground arith;
        of_run = ground arith;
        current = (b, found, ground arith, ground arith);
      }
    ]

-- A settlement that is ignored, and no replay, is of a run that has ended.
pub ignored_ended :
    (r : Run) (epoch : ℕ) (outcome : Terminal) (e : Evidence) (s : Db)
    → e.replay ≡ false
    → verdict r epoch outcome e s ≡ ok Verdict.ignored
    → is_ended r.state ≡ true
unfolding verdict
ignored_ended r epoch outcome e s fresh h = ground arith

ended_not_proceed :
    (r : Run) (epoch : ℕ) (outcome : Terminal) (e : Evidence) (s : Db)
    → is_ended r.state ≡ true
    → ¬ (verdict r epoch outcome e s ≡ ok Verdict.proceed)
unfolding verdict
ended_not_proceed r epoch outcome e s ended h = ground arith

-- A settlement that changes anything has all the proof: the harness has ended by its own account,
-- its resources have stopped, no approval of the run is pending, the outcome is one of the three,
-- and the epoch is that of the run and of its binding, which is current.
pub settle-Proven :
    (o : Outside) (run : Ident) (epoch : ℕ) (outcome : Terminal) (e : Evidence) (s : Db) {s' : Db}
    → settle o run epoch outcome e s ≡ ok s'
    → (s' ≡ s) ⊎ ((r : Run) × (one (λ r. r.id == run) s.runs ≡ some r) × Proven s r epoch outcome e)
settle-Proven o run epoch outcome e s h =
    let (r, found, how) = settle-eq-ok o run epoch outcome e s h in
    elim how [
      | inl (_, done) ↦ inl done
      | inr (_, v, _, _) ↦ inr (r, found, verdict-Proven r epoch outcome e s v)
    ]

publish-runs :
    (o : Outside) (r : Run) (result : StagedResult) (s : Db) {s' : Db}
    → publish o r result s ≡ ok s'
    → s'.runs ≡ s.runs
publish-runs o r result s {s'} h =
    let (t, s₂, found, moved, e) = publish-eq-ok o r result s h in
    let tr =
      transition-Transits t.id (settled_state result.finish.outcome t.completion)
        (release r.id result s) moved in
    let n = notify_parent-frame o t result s₂ in
    ap (λ (d : Db). d.runs) e ∙ n.0 ∙ ap (λ (d : Db). d.runs) tr.rest

attend-runs :
    (r : Run) (outcome : Terminal) (staged : Option StagedResult) (s : Db) {s' : Db}
    → attend r outcome staged s ≡ ok s'
    → s'.runs ≡ s.runs
attend-runs r outcome staged s {s'} h = elim (attend-eq-ok r outcome staged s h) [
  | inl e ↦ ap (λ (d : Db). d.runs) e
  | inr (t, s₁, found, moved, e) ↦
      let tr = transition-Transits t.id TaskState.needs_attention s moved in
      ap (λ (d : Db). d.runs) e ∙ issued staged s₁ ∙ ap (λ (d : Db). d.runs) tr.rest
]
  where
    issued :
        (staged : Option StagedResult) (d : Db)
        → (issue r IssueCode.run_requires_attention (quarantine staged d)).runs ≡ d.runs
    issued none d = unfold issue in refl
    issued (some q) d = unfold issue in refl

-- The runs after the conclusion are those before it.
conclude-runs :
    (o : Outside) (r : Run) (outcome : Terminal) (staged : Option StagedResult) (s : Db) {s' : Db}
    → conclude o r outcome staged s ≡ ok s'
    → s'.runs ≡ s.runs
conclude-runs o r Terminal.succeeded (some result) s h = publish-runs o r result s h
conclude-runs o r Terminal.succeeded none s h = attend-runs r Terminal.succeeded none s h
conclude-runs o r Terminal.failed staged s h = attend-runs r Terminal.failed staged s h
conclude-runs o r Terminal.cancelled staged s h = attend-runs r Terminal.cancelled staged s h
conclude-runs o r Terminal.other staged s h = attend-runs r Terminal.other staged s h

-- The run that is closed is found in its last state.
close_run-found :
    (run : Ident) (r : Run) (outcome : Terminal) (s : Db)
    → one (λ q. q.id == run) s.runs ≡ some r
    → is_known outcome ≡ true
    → one (λ q. q.id == run) (close_run r outcome s).runs
      ≡ some (set_run_state (run_state_of outcome) r)
unfolding accepted
close_run-found run r outcome s found known =
    let hit : (r.id == run) ≡ true = one-holds (λ q. q.id == run) s.runs found in
    let closed = update_where (λ q. q.id == r.id) (set_run_state (run_state_of outcome)) s.runs in
    let a =
      one-update_where (λ q. q.id == run) (λ q. q.id == r.id && is_starting q.state)
        (set_run_state RunState.running) closed (λ q. refl) in
    let b =
      one-update_where (λ q. q.id == run) (λ q. q.id == r.id) (set_run_state (run_state_of outcome))
        s.runs (λ q. refl) in
    ground (arith, ==-refl r.id)

-- After a settlement that is no replay the run has ended: in its outcome, or as it had ended before.
pub settle-ended :
    (o : Outside) (run : Ident) (epoch : ℕ) (outcome : Terminal) (e : Evidence) (s : Db) {s' : Db}
    → e.replay ≡ false
    → settle o run epoch outcome e s ≡ ok s'
    → (q : Run) × (one (λ r. r.id == run) s'.runs ≡ some q) × (is_ended q.state ≡ true)
settle-ended o run epoch outcome e s {s'} fresh h =
    let (r, found, how) = settle-eq-ok o run epoch outcome e s h in
    elim how [
      | inl (v, done) ↦ (
        r,
        subst (λ (d : Db). one (λ r. r.id == run) d.runs ≡ some r) (sym done) found,
        ignored_ended r epoch outcome e s fresh v,
      )
      | inr (s₁, v, c, done) ↦
          let known = (verdict-Proven r epoch outcome e s v).known in
          let runs_eq : s'.runs ≡ (close_run r outcome s).runs =
            ap (λ (d : Db). d.runs) done
            ∙ conclude-runs o r outcome (staged_of run s) (close_run r outcome s) c in
          (
            set_run_state (run_state_of outcome) r,
            subst (λ rs. one (λ r. r.id == run) rs ≡ some (set_run_state (run_state_of outcome) r))
                (sym runs_eq) (close_run-found run r outcome s found known),
            ended_of_known outcome known,
          )
    ]
  where
    ended_of_known : (t : Terminal) → is_known t ≡ true → is_ended (run_state_of t) ≡ true
    ended_of_known Terminal.succeeded k = refl
    ended_of_known Terminal.failed k = refl
    ended_of_known Terminal.cancelled k = refl
    ended_of_known Terminal.other k = cc

-- A run that has ended is not settled again: a second settlement, with whatever outcome and
-- evidence, is refused or changes nothing.
pub settle_again :
    (o later : Outside) (run : Ident) (epoch epoch' : ℕ) (outcome outcome' : Terminal)
    (e e' : Evidence) (s : Db) {s' s'' : Db}
    → e.replay ≡ false
    → settle o run epoch outcome e s ≡ ok s'
    → settle later run epoch' outcome' e' s' ≡ ok s''
    → s'' ≡ s'
settle_again o later run epoch epoch' outcome outcome' e e' s {s'} {s''} fresh h k =
    let (q, there, ended) = settle-ended o run epoch outcome e s fresh h in
    let (r, found, how) = settle-eq-ok later run epoch' outcome' e' s' k in
    elim how [
      | inl (_, done) ↦ done
      | inr (_, v, _, _) ↦
          let same : q ≡ r = ground arith in
          absurd (
            ended_not_proceed r epoch' outcome' e' s'
              (subst (λ (x : Run). is_ended x.state ≡ true) same ended) v)
    ]
