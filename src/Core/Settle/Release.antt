-- ===== src/Core/Settle/Release.antt =====
-- What a settlement sets free: the role, its resources, and the messages that were held.
use agent_router.Prelude.{
  ℕ, Bool, true, false, Option, none, some, ◌≡◌, refl, arith, one, any, select, holds, ◌==◌, ◌&&◌,
  not, inl, inr, subst, sym, ap, ◌∙◌,
}
use agent_router.Prelude.Laws.{
  one-holds, any-update_where-false, select-update_where, any-update_where_le,
}
use agent_router.Protocol.{Ident, ok, Outcome, Mode, Target}
use agent_router.Domain.{TaskState}
use agent_router.Store.{Db, Outside, Run, Outbox, OutboxState, StagedResult, Publication, Task}
use agent_router.Core.Wait.{is_published}
use agent_router.Core.Settle.{
  Terminal, Evidence, settle, conclude, publish, attend, close_run, leave, staged_of, has_succeeded,
  is_held, is_dispatching, accepted, release, quarantine, issue, set_outbox, set_publication,
  settled_state,
}
use agent_router.Core.Evolution.{transition-Transits, transition-reaches, find_task}
use agent_router.Core.Transition.{set_state}
use agent_router.Core.Settle.Effects.{
  settle-eq-ok, publish-eq-ok, attend-eq-ok, notify_parent-frame,
}
use agent_router.Core.Settle.Barrier.{is_ended, ignored_ended}

-- What a settlement that is not ignored has done.
proceeds :
    (o : Outside) (run : Ident) (epoch : ℕ) (outcome : Terminal) (e : Evidence) (s : Db) (r : Run)
    {s' : Db}
    → one (λ r. r.id == run) s.runs ≡ some r
    → is_ended r.state ≡ false
    → e.replay ≡ false
    → settle o run epoch outcome e s ≡ ok s'
    → (s₁ : Db) × (r.id ≡ run)
      × (conclude o r outcome (staged_of run s) (close_run r outcome s) ≡ ok s₁)
      × (s' ≡ leave r s₁)
proceeds o run epoch outcome e s r {s'} found going fresh h =
    let (q, there, how) = settle-eq-ok o run epoch outcome e s h in
    let same : q ≡ r = ground arith in
    let named : r.id ≡ run = ground (arith, one-holds (λ r. r.id == run) s.runs {a = r} found) in
    elim how [
      | inl (v, _) ↦ let ended = ignored_ended q epoch outcome e s fresh v in absurd (ground arith)
      | inr (s₁, v, c, done) ↦ (
        s₁,
        named,
        subst (λ x. conclude o x outcome (staged_of run s) (close_run x outcome s) ≡ ok s₁) same c,
        subst (λ x. s' ≡ leave x s₁) same done,
      )
    ]

abbrev pub held_for : Ident → Outbox → Bool
held_for run e = holds e.after_run_id run && is_held e.state

-- The state of a task for the outcome of its result and the mode of its completion.
pub data Stands : Outcome → Mode → TaskState → Type 0 where
  delivers : Stands Outcome.succeeded Mode.result TaskState.delivered
  hands_off : Stands Outcome.succeeded Mode.handoff TaskState.handed_off
  ends_partial : (m : Mode) → Stands Outcome.partial m TaskState.partial
  ends_failed : (m : Mode) → Stands Outcome.failed m TaskState.failed
  ends_cancelled : (m : Mode) → Stands Outcome.cancelled m TaskState.cancelled

settled_state-Stands :
    (outcome : Outcome) (mode : Mode) (to : Target) (b : Bool)
    → Stands outcome mode
        (settled_state outcome (record { mode = mode; to = to; to_type_first = b }))
settled_state-Stands Outcome.succeeded Mode.result to b = Stands.delivers
settled_state-Stands Outcome.succeeded Mode.handoff to b = Stands.hands_off
settled_state-Stands Outcome.partial mode to b = Stands.ends_partial mode
settled_state-Stands Outcome.failed mode to b = Stands.ends_failed mode
settled_state-Stands Outcome.cancelled mode to b = Stands.ends_cancelled mode

published_outbox :
    (o : Outside) (r : Run) (result : StagedResult) (s : Db) {s' : Db}
    → publish o r result s ≡ ok s'
    → (s'.outbox ≡ (release r.id result s).outbox)
      × (s'.results ≡ (release r.id result s).results)
      × ((t : Task) × (one (λ t. holds r.task_id t.id) s.tasks ≡ some t)
          × (u : Task) × (find_task t.id s'.tasks ≡ some u)
          × Stands result.finish.outcome t.completion.mode u.state)
published_outbox o r result s {s'} h =
    let (t, s₂, found, moved, e) = publish-eq-ok o r result s h in
    let to = settled_state result.finish.outcome t.completion in
    let tr = transition-Transits t.id to (release r.id result s) moved in
    let (v, _, _, there) = transition-reaches t.id to (release r.id result s) moved in
    let n = notify_parent-frame o t result s₂ in
    (
      ap (λ (d : Db). d.outbox) e ∙ n.1 ∙ ap (λ (d : Db). d.outbox) tr.rest,
      ap (λ (d : Db). d.results) e ∙ n.2 ∙ ap (λ (d : Db). d.results) tr.rest,
      (
        t,
        found,
        set_state to v,
        subst (λ ts. find_task t.id ts ≡ some (set_state to v))
            (sym (ap (λ (d : Db). d.tasks) e ∙ n.3)) there,
        settled_state-Stands result.finish.outcome t.completion.mode t.completion.to
            t.completion.to_type_first,
      ),
    )

-- A settlement that returns and is no replay, of a run that had not ended, has a staged result and
-- now succeeds: nothing stays held for the run, the result is published, and the task of the run is
-- delivered or handed off where the result is a success, as the mode of the task's completion has it,
-- and partial, failed or cancelled where the result is.
pub settle_publishes :
    (o : Outside) (run : Ident) (epoch : ℕ) (e : Evidence) (s : Db) (r : Run)
    (result : StagedResult) {s' : Db}
    → one (λ r. r.id == run) s.runs ≡ some r
    → is_ended r.state ≡ false
    → e.replay ≡ false
    → staged_of run s ≡ some result
    → settle o run epoch Terminal.succeeded e s ≡ ok s'
    → (any (held_for run) s'.outbox ≡ false)
      × (any (λ q. q.id == result.id && not (is_published q.publication_state)) s'.results ≡ false)
      × ((t : Task) × (one (λ t. holds r.task_id t.id) s.tasks ≡ some t)
          × (u : Task) × (find_task t.id s'.tasks ≡ some u)
          × Stands result.finish.outcome t.completion.mode u.state)
unfolding accepted
settle_publishes o run epoch e s r result {s'} found going fresh staged h =
    let (s₁, named, c, done) = proceeds o run epoch Terminal.succeeded e s r found going fresh h in
    let closed : Db = close_run r Terminal.succeeded s in
    let p : publish o r result closed ≡ ok s₁ =
      subst (λ x. conclude o r Terminal.succeeded x closed ≡ ok s₁) staged c in
    let (outbox_eq, results_eq, (t, task_found, u, there, state_eq)) =
      published_outbox o r result closed p in
    let queued =
      any-update_where-false (held_for r.id) (λ e. holds e.after_run_id r.id && is_held e.state)
        (set_outbox OutboxState.queued) closed.outbox (λ x q. ground arith) (λ x q. q) in
    let shown =
      any-update_where-false (λ q. q.id == result.id && not (is_published q.publication_state))
        (λ q. q.id == result.id) (set_publication Publication.published) s.results
        (λ x q. ground arith) (λ x q. ground arith) in
    (
      subst (λ (d : Db). any (held_for run) d.outbox ≡ false) (sym done)
          (subst (λ i. any (held_for i) s₁.outbox ≡ false) named
            (subst (λ es. any (held_for r.id) es ≡ false) (sym outbox_eq) queued)),
      subst
          (λ (d : Db).
            any (λ q. q.id == result.id && not (is_published q.publication_state)) d.results
            ≡ false)
          (sym done)
          (subst
            (λ qs.
              any (λ q. q.id == result.id && not (is_published q.publication_state)) qs ≡ false)
            (sym results_eq) shown),
      (
        t,
        task_found,
        u,
        subst (λ (d : Db). find_task t.id d.tasks ≡ some u) (sym done) there,
        state_eq,
      ),
    )

attend-withholds :
    (run : Ident) (r : Run) (outcome : Terminal) (staged : Option StagedResult) (s : Db) {s' : Db}
    → attend r outcome staged s ≡ ok s'
    → (s'.outbox ≡ s.outbox)
      × ((id : Ident)
          → any (λ q. q.id == id && is_published q.publication_state) s'.results ≡ true
          → any (λ q. q.id == id && is_published q.publication_state) s.results ≡ true)
unfolding issue
attend-withholds run r outcome staged s {s'} h = elim (attend-eq-ok r outcome staged s h) [
  | inl e ↦ rw e (refl, λ id k. k)
  | inr (t, s₁, found, moved, e) ↦
      let tr = transition-Transits t.id TaskState.needs_attention s moved in
      (
        ap (λ (d : Db). d.outbox) e ∙ kept_outbox staged s₁ ∙ ap (λ (d : Db). d.outbox) tr.rest,
        λ id k.
            subst
              (λ (d : Db).
                any (λ q. q.id == id && is_published q.publication_state) d.results ≡ true)
              tr.rest
              (unpublished staged s₁ id (
                subst
                  (λ (d : Db).
                    any (λ q. q.id == id && is_published q.publication_state) d.results ≡ true)
                  e k)),
      )
]
  where
    kept_outbox : (staged : Option StagedResult) (d : Db) → (quarantine staged d).outbox ≡ d.outbox
    kept_outbox none d = refl
    kept_outbox (some q) d = refl

    unpublished :
        (staged : Option StagedResult) (d : Db) (id : Ident)
        → any (λ q. q.id == id && is_published q.publication_state) (quarantine staged d).results
          ≡ true
        → any (λ q. q.id == id && is_published q.publication_state) d.results ≡ true
    unpublished none d id k = k
    unpublished (some x) d id k =
        any-update_where_le (λ q. q.id == id && is_published q.publication_state)
          (λ q. q.id == x.id) (set_publication Publication.quarantined) d.results
          (λ q h. absurd (ground arith)) k

-- A run that does not succeed releases nothing: the entries that are held for any run stay as they
-- are, and no result is published that was not.
pub settle_withholds :
    (o : Outside) (run : Ident) (epoch : ℕ) (outcome : Terminal) (e : Evidence) (s : Db) {s' : Db}
    → has_succeeded outcome ≡ false
    → settle o run epoch outcome e s ≡ ok s'
    → (select (λ e. is_held e.state) s'.outbox ≡ select (λ e. is_held e.state) s.outbox)
      × ((id : Ident)
          → any (λ q. q.id == id && is_published q.publication_state) s'.results ≡ true
          → any (λ q. q.id == id && is_published q.publication_state) s.results ≡ true)
unfolding accepted
settle_withholds o run epoch outcome e s {s'} unhappy h =
    let (r, found, how) = settle-eq-ok o run epoch outcome e s h in
    elim how [
      | inl (_, done) ↦ rw done (refl, λ id k. k)
      | inr (s₁, v, c, done) ↦
          let closed : Db = close_run r outcome s in
          let (outbox_eq, published_le) =
            attend-withholds run r outcome (staged_of run s) closed
              (unhappy_attend o r outcome (staged_of run s) closed unhappy c) in
          let same =
            select-update_where (λ e. is_held e.state)
              (λ e. holds e.claimed_run_id r.id && is_dispatching e.state)
              (set_outbox OutboxState.delivered) s.outbox (λ x q. ground arith) (λ x q. refl) in
          (
            ap (λ (d : Db). select (λ e. is_held e.state) d.outbox) done
                ∙ ap (select (λ e. is_held e.state)) outbox_eq
                ∙ same,
            λ id k. published_le id (
                subst
                  (λ (d : Db).
                    any (λ q. q.id == id && is_published q.publication_state) d.results ≡ true)
                  done k),
          )
    ]
  where
    unhappy_attend :
        (o : Outside) (r : Run) (outcome : Terminal) (staged : Option StagedResult) (d : Db)
        {d' : Db}
        → has_succeeded outcome ≡ false
        → conclude o r outcome staged d ≡ ok d'
        → attend r outcome staged d ≡ ok d'
    unhappy_attend o r Terminal.succeeded staged d u k = cc
    unhappy_attend o r Terminal.failed staged d u k = k
    unhappy_attend o r Terminal.cancelled staged d u k = k
    unhappy_attend o r Terminal.other staged d u k = k
