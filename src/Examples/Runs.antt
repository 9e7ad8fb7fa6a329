-- ===== src/Examples/Runs.antt =====
-- The theorems on the runtime, each applied to the office.
use agent_router.Prelude.{
  true, false, some, List, [], ◌∷◌, ◌≡◌, refl, arith, ◌⊎◌, one, any, select, update_where,
  count_where, delete_where, text_eq, ◌==◌, ◌&&◌, not,
}
use agent_router.Protocol.{Ident, Failure, Code, Category, Outcome, ok, err}
use agent_router.Domain.{TaskState, task_transitions, allowed, assert_transition}
use agent_router.Store.{Db, Response, Task, Run, RunState}
use agent_router.Core.Identity.{identity, bound_of, join, check_activation, check_run}
use agent_router.Core.Operation.{operation, execute, replay, recorded, next_row}
use agent_router.Core.Transition.{transition}
use agent_router.Core.Messages.{send, send_body, target, refs, message, next_seq}
use agent_router.Core.Tools.{RoleTool, role_call}
use agent_router.Core.Tools.Retry.{role_call_twice, role_call_conflict}
use agent_router.Core.Evolution.{Evolves, find_task}
use agent_router.Core.Settle.{
  Terminal, Evidence, settle, verdict, check_run_activation, accepted, issue, publish, attend,
  notify_parent, is_held,
}
use agent_router.Core.Wait.{is_published}
use agent_router.Core.Settle.Barrier.{Proven, settle-Proven, settle_again}
use agent_router.Core.Settle.Release.{settle_publishes, settle_withholds, held_for, Stands}
use agent_router.Core.Dispatch.Start.{is_live}
use agent_router.Core.Recover.{recover, recover_runs, recover_run, flag_task}
use agent_router.Core.Recover.Laws.{recover_stops, recover_twice}
use agent_router.Core.History.{Call, history, kept, after}
use agent_router.Core.History.Bounds.{Bounded}
use agent_router.Core.History.Invariant.{history-Bounded, history-Evolves, history-final}
use agent_router.Examples.Office.{
  office, working, staged, outside, external, options, worker, notice, bound, run_in, task_in,
  answer,
}

-- A day: the dispatch of role 4, and the settlement of the run that it starts.
abbrev proof : Evidence
proof = record { native = true; resources_stopped = true; replay = false }

abbrev day : List Call
day =
    Call.dispatches options outside 4
    ∷ Call.accepts 30
    ∷ Call.settles outside 30 1 Terminal.failed proof
    ∷ Call.recovers
    ∷ []

office-Bounded : Bounded office
unfolding count_where any
office-Bounded = record {
  slots = (refl, tt);
  live = omega arith;
  leases = tt;
  role_rate = λ w r. omega arith;
  space_rate = λ w r. omega arith;
}

history-Bounded_example : Bounded (history day office)
history-Bounded_example = history-Bounded day office office-Bounded

history-Evolves_example : Evolves office.tasks (history day office).tasks
history-Evolves_example = history-Evolves day office

abbrev closed : Db
closed = record office { tasks = task_in TaskState.delivered ∷ [] }

history-final_example :
    (u : Task) × (find_task 20 (history day closed).tasks ≡ some u)
    × (u.state ≡ TaskState.delivered)
history-final_example =
    history-final day closed 20 (task_in TaskState.delivered) (unfold one in refl) refl

-- The state after the worker's notice.
abbrev noted : Db
noted =
    after working
      (role_call external outside worker RoleTool.route_send (7 ∷ []) (notice (66 ∷ [])) working)

sent :
    role_call external outside worker RoleTool.route_send (7 ∷ []) (notice (66 ∷ [])) working
    ≡ ok (Response.empty, noted)
unfolding role_call send operation execute replay recorded next_row identity bound_of join
    check_activation check_run send_body target refs message next_seq one any update_where text_eq
sent = refl

still_known : identity worker true noted ≡ ok bound
unfolding role_call send operation execute replay recorded next_row identity bound_of join
    check_activation check_run send_body target refs message next_seq one any update_where text_eq
still_known = refl

role_call_twice_example :
    role_call external
      (record outside { now = 9000 })
      worker
      RoleTool.route_send
      (7 ∷ [])
      (notice (66 ∷ []))
      noted
    ≡ ok (Response.empty, noted)
role_call_twice_example =
    role_call_twice external outside (record outside { now = 9000 }) worker RoleTool.route_send
      (7 ∷ []) (notice (66 ∷ [])) working bound sent still_known

sent_other :
    role_call external outside worker RoleTool.route_send (7 ∷ []) (notice []) working
    ≡ ok (
      Response.empty,
      after working
          (role_call external outside worker RoleTool.route_send (7 ∷ []) (notice []) working),
    )
unfolding role_call send operation execute replay recorded next_row identity bound_of join
    check_activation check_run send_body target refs message next_seq one any update_where text_eq
sent_other = refl

role_call_conflict_example :
    role_call external outside worker RoleTool.route_send (7 ∷ []) (notice []) noted
    ≡ err (Failure.route Code.operation_conflict Category.conflict)
role_call_conflict_example =
    role_call_conflict external outside outside worker RoleTool.route_send (7 ∷ [])
      (notice (66 ∷ [])) (notice []) working bound working sent still_known (λ e. omega arith)
      sent_other

-- The state after run 30 has been settled.
abbrev settled : Terminal → Db → Db
settled t s = kept s (settle outside 30 1 t proof s)

settles :
    settle outside 30 1 Terminal.succeeded proof staged ≡ ok (settled Terminal.succeeded staged)
unfolding settle verdict check_run_activation accepted issue publish attend notify_parent transition
    assert_transition allowed task_transitions one any update_where delete_where
settles = refl

fails : settle outside 30 1 Terminal.failed proof staged ≡ ok (settled Terminal.failed staged)
unfolding settle verdict check_run_activation accepted issue publish attend notify_parent transition
    assert_transition allowed task_transitions one any update_where delete_where
fails = refl

settle-Proven_example :
    (settled Terminal.succeeded staged ≡ staged)
    ⊎ ((r : Run) × (one (λ r. r.id == 30) staged.runs ≡ some r)
        × Proven staged r 1 Terminal.succeeded proof)
settle-Proven_example = settle-Proven outside 30 1 Terminal.succeeded proof staged settles

settles_twice :
    settle outside 30 1 Terminal.failed proof (settled Terminal.succeeded staged)
    ≡ ok (settled Terminal.succeeded staged)
unfolding settle verdict check_run_activation accepted issue publish attend notify_parent transition
    assert_transition allowed task_transitions one any update_where delete_where
settles_twice = refl

settle_again_example : settled Terminal.succeeded staged ≡ settled Terminal.succeeded staged
settle_again_example =
    settle_again outside outside 30 1 1 Terminal.succeeded Terminal.failed proof proof staged refl
      settles settles_twice

found_run : one (λ r. r.id == 30) staged.runs ≡ some (run_in RunState.settling)
unfolding one
found_run = refl

settle_publishes_example :
    (any (held_for 30) (settled Terminal.succeeded staged).outbox ≡ false)
    × (any
          (λ q. q.id == 40 && not (is_published q.publication_state))
          (settled Terminal.succeeded staged).results
        ≡ false)
    × ((t : Task) × (one (λ t. t.id == 20) staged.tasks ≡ some t)
        × (u : Task) × (find_task t.id (settled Terminal.succeeded staged).tasks ≡ some u)
        × Stands Outcome.succeeded t.completion.mode u.state)
unfolding one any
settle_publishes_example =
    settle_publishes outside 30 1 proof staged (run_in RunState.settling) answer found_run refl refl
      (unfold one in refl) settles

settle_withholds_example :
    (select (λ e. is_held e.state) (settled Terminal.failed staged).outbox
      ≡ select (λ e. is_held e.state) staged.outbox)
    × ((id : Ident)
        → any
            (λ q. q.id == id && is_published q.publication_state)
            (settled Terminal.failed staged).results
          ≡ true
        → any (λ q. q.id == id && is_published q.publication_state) staged.results ≡ true)
settle_withholds_example = settle_withholds outside 30 1 Terminal.failed proof staged refl fails

abbrev recovered : Db
recovered = kept working (recover working)

recovers : recover working ≡ ok recovered
unfolding recover recover_runs recover_run flag_task issue transition assert_transition allowed
    task_transitions one any update_where select
recovers = refl

recover_stops_example : any (λ r. is_live r.state) recovered.runs ≡ false
recover_stops_example = recover_stops working recovers

recover_twice_example : recover recovered ≡ ok recovered
recover_twice_example = recover_twice working recovers
