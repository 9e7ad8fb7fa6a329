-- ===== src/Core/Recover/Success.antt =====
-- A recovery succeeds.
use agent_router.Prelude.{
  ℕ, Bool, true, false, Option, none, some, List, [], ◌∷◌, ◌≡◌, refl, arith, one, any, select,
  update_where, holds, ◌==◌, ◌&&◌, ◌||◌, not, Option-cases, Bool-cases, inl, inr, ◌∙◌,
}
use agent_router.Prelude.Laws.{one-holds, one-any, any-update_where_keeps}
use agent_router.Protocol.{ok}
use agent_router.Domain.{TaskState, allowed, assert_transition}
use agent_router.Store.{Db, Task, Run, IssueCode}
use agent_router.Core.Transition.{transition, set_state}
use agent_router.Core.Settle.{issue}
use agent_router.Core.Dispatch.Start.{is_live}
use agent_router.Core.Recover.Laws.{recover_stops}
use agent_router.Core.Recover.{
  recover, recover_runs, recover_run, flag_task, suspect, needs_attention,
}

-- A state from which a task may come to need attention, or in which it does.
abbrev pub can_be_flagged : TaskState → Bool
can_be_flagged st = needs_attention st || allowed st TaskState.needs_attention

-- A task of one of the runs that may not be flagged.
abbrev pub stuck : List Run → Task → Bool
stuck rs t = any (λ r. holds r.task_id t.id) rs && not (can_be_flagged t.state)

-- Two tests that agree find the same row.
one_ext {ℓ} :
    {A : Type ℓ} (p q : A → Bool) (xs : List A) → ((x : A) → p x ≡ q x) → one p xs ≡ one q xs
unfolding one
one_ext p q [] same = refl
one_ext p q (x ∷ xs) same = ground (arith, same x, one_ext p q xs same)

-- The task that a run names is the one that its own identifier finds.
found_again :
    (r : Run) (ts : List Task) {t : Task}
    → one (λ t. holds r.task_id t.id) ts ≡ some t
    → one (λ q. q.id == t.id) ts ≡ some t
found_again r ts {t} h =
    let hit : holds r.task_id t.id ≡ true = one-holds (λ t. holds r.task_id t.id) ts h in
    one_ext (λ q. q.id == t.id) (λ q. holds r.task_id q.id) ts (λ q. agree r.task_id t.id q.id hit)
    ∙ h
  where
    agree : (o : Option ℕ) (a b : ℕ) → holds o a ≡ true → (b == a) ≡ holds o b
    agree none a b k = absurd (ground arith)
    agree (some c) a b k = ground arith

-- A task that may be flagged is flagged.
transition-needs_attention :
    (t : Task) (s : Db)
    → one (λ q. q.id == t.id) s.tasks ≡ some t
    → allowed t.state TaskState.needs_attention ≡ true
    → transition t.id TaskState.needs_attention s
      ≡ ok (record s {
        tasks = update_where (λ q. q.id == t.id) (set_state TaskState.needs_attention) s.tasks;
      })
unfolding transition assert_transition
transition-needs_attention t s found fits = ground arith

fewer :
    (r : Run) (rs : List Run) (ts : List Task)
    → any (stuck (r ∷ rs)) ts ≡ false
    → any (stuck rs) ts ≡ false
unfolding any
fewer r rs [] k = refl
fewer r rs (t ∷ ts) k = ground (arith, fewer r rs ts)

-- Flagging the task of a run succeeds, and leaves no task of the other runs stuck.
flag_task-succeeds :
    (r : Run) (rs : List Run) (s : Db)
    → any (stuck (r ∷ rs)) s.tasks ≡ false
    → (s' : Db) × (flag_task (one (λ t. holds r.task_id t.id) s.tasks) s ≡ ok s')
      × (any (stuck rs) s'.tasks ≡ false)
unfolding flag_task any
flag_task-succeeds r rs s fit = elim (Option-cases (one (λ t. holds r.task_id t.id) s.tasks)) [
  | inl e ↦ (s, ground arith, fewer r rs s.tasks fit)
  | inr (t, e) ↦
      let free = one-any (λ t. holds r.task_id t.id) (stuck (r ∷ rs)) s.tasks e fit in
      let hit : holds r.task_id t.id ≡ true = one-holds (λ t. holds r.task_id t.id) s.tasks e in
      elim (Bool-cases (needs_attention t.state)) [
        | inl n ↦ (s, ground arith, fewer r rs s.tasks fit)
        | inr n ↦
            let moved = transition-needs_attention t s (found_again r s.tasks e) (ground arith) in
            (
              record s {
                tasks =
                    update_where (λ q. q.id == t.id) (set_state TaskState.needs_attention) s.tasks;
              },
              ground arith,
              any-update_where_keeps (stuck rs) (λ q. q.id == t.id)
                  (set_state TaskState.needs_attention) s.tasks (λ q. ground arith)
                  (fewer r rs s.tasks fit),
            )
      ]
]

recover_runs-succeeds :
    (rs : List Run) (s : Db)
    → any (stuck rs) s.tasks ≡ false
    → (s' : Db) × (recover_runs rs s ≡ ok s')
unfolding recover_runs recover_run issue
recover_runs-succeeds [] s fit = (s, refl)
recover_runs-succeeds (r ∷ rs) s fit =
    let (s₁, flagged, rest_fit) = flag_task-succeeds r rs (suspect r s) fit in
    let (s', rest) = recover_runs-succeeds rs (issue r IssueCode.execution_unknown s₁) rest_fit in
    (s', ground arith)

-- Where the task of every live run is active, waiting, staged or needs attention already, a recovery
-- succeeds, and after it no run is live.
pub recover_succeeds :
    (s : Db)
    → any (stuck (select (λ r. is_live r.state) s.runs)) s.tasks ≡ false
    → (s' : Db) × (recover s ≡ ok s') × (any (λ r. is_live r.state) s'.runs ≡ false)
unfolding recover
recover_succeeds s fit =
    let (s', done) = recover_runs-succeeds (select (λ r. is_live r.state) s.runs) s fit in
    (s', done, recover_stops s done)
