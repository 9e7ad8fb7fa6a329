-- ===== src/Examples/Starts.antt =====
-- The theorems on dispatches, recoveries and reading, each applied to the office.
use agent_router.Prelude.{
  ℕ, true, false, Option, none, some, [], ◌∷◌, ◌++◌, ◌≡◌, ◌≤◌, refl, arith, one, any, select,
  update_where, count_where, drop, length, ltb, Text,
}
use agent_router.Protocol.{Target, Result, ok, err}
use agent_router.Domain.{task_transitions, allowed, assert_transition}
use agent_router.Store.{Db, Kind, Message, Content, Artifact}
use agent_router.Core.External.{External, Blob, read_object}
use agent_router.Core.Identity.{identity, management, bound_of, join, check_activation, check_run}
use agent_router.Core.Transition.{transition}
use agent_router.Core.Inbox.{Page, notice_for, notices, Chunk, read_artifact}
use agent_router.Core.Inbox.Paging.{notices_pages}
use agent_router.Core.Inbox.Chunks.{read_artifact_chunks}
use agent_router.Core.Settle.{issue}
use agent_router.Core.Recover.{recover, recover_runs, recover_run, flag_task}
use agent_router.Core.Recover.Success.{recover_succeeds}
use agent_router.Core.Dispatch.{dispatch, activate, launch}
use agent_router.Core.Dispatch.Gates.{
  admit, select_task, choose, next_queued, request_queued, all_active, within_limits,
  free_resources, auth_resources, blocked,
}
use agent_router.Core.Dispatch.Session.{
  ensure_active_activation, session_fits, adopt, renew_activation, last_epoch,
}
use agent_router.Core.Dispatch.Input.{given}
use agent_router.Core.Dispatch.Start.{
  Dispatch, is_live, start, insert_run, take_work, consume_input,
}
use agent_router.Core.Dispatch.Exclusive.{Started, dispatch_starts, recover-dispatch}
use agent_router.Core.History.{after, kept}
use agent_router.Examples.Office.{
  office, working, outside, external, options, worker, bound, slot, request_message, ask,
}

-- What the dispatch of role 4 gives.
abbrev given_out : Option Dispatch × Db → Option Dispatch
given_out (d, s) = d

abbrev outcome : Result (Option Dispatch × Db) → Option Dispatch
outcome (ok r) = given_out r
outcome (err e) = none

abbrev begun : Db
begun = after office (dispatch options outside 4 office)

abbrev first : Dispatch
first = elim (outcome (dispatch options outside 4 office)) [
  | some d ↦ d
  | none ↦ record {
    id = 0;
    task_id = 0;
    kind = Kind.task;
    principal = worker;
    request = record { request = ask; task_input = none };
  }
]

begins : dispatch options outside 4 office ≡ ok (some first, begun)
unfolding dispatch activate launch admit select_task choose next_queued request_queued all_active
    within_limits free_resources auth_resources blocked management identity bound_of join
    check_activation check_run ensure_active_activation session_fits adopt renew_activation
    last_epoch given start insert_run take_work consume_input transition assert_transition allowed
    task_transitions one any update_where count_where
begins = refl

dispatch_starts_example : Started 4 first office begun
dispatch_starts_example = dispatch_starts options outside 4 office begins

abbrev restarted : Db
restarted = kept working (recover working)

recovers : recover working ≡ ok restarted
unfolding recover recover_runs recover_run flag_task issue transition assert_transition allowed
    task_transitions one any update_where select
recovers = refl

refuses :
    dispatch options outside 4 restarted
    ≡ ok (
      outcome (dispatch options outside 4 restarted),
      after restarted (dispatch options outside 4 restarted),
    )
unfolding recover recover_runs recover_run flag_task issue transition assert_transition allowed
    task_transitions one any update_where select dispatch admit select_task blocked all_active
    management identity bound_of join check_activation check_run
refuses = refl

recover-dispatch_example : outcome (dispatch options outside 4 restarted) ≡ none
recover-dispatch_example =
    recover-dispatch options outside 4 working (slot (some 20) (some 30)) (unfold one in refl) refl
      recovers refuses

recover_succeeds_example :
    (s' : Db) × (recover working ≡ ok s') × (any (λ r. is_live r.state) s'.runs ≡ false)
recover_succeeds_example =
    recover_succeeds working (unfold any select allowed task_transitions in refl)

-- Two notices to role 4.
abbrev note : ℕ → Message
note n = record {
  seq = n;
  id = 60;
  space_id = 2;
  task_id = none;
  content = Content.notice (record { to = Target.role 4; summary = []; body = []; inputs = [] });
  from_role_id = some 3;
  to = Target.role 4;
  operation_row_id = 0;
}

abbrev told : Db
told = record working { messages = request_message ∷ note 2 ∷ note 5 ∷ [] }

knows : identity worker true told ≡ ok bound
unfolding identity bound_of join check_activation check_run one
knows = refl

notices_pages_example :
    (page : Page) × (notices worker 0 1 told ≡ ok page)
    × (page.items ++ select (notice_for worker page.next_cursor) told.messages
        ≡ select (notice_for worker 0) told.messages)
    × (length page.items ≤ 1)
    × (page.has_more ≡ ltb 1 (length (select (notice_for worker 0) told.messages)))
notices_pages_example =
    notices_pages worker 0 1 told knows (omega arith) (omega arith)
      (omega arith, (omega arith, (omega arith, tt)))

-- An artifact of three bytes.
abbrev file : Text
file = 7 ∷ 8 ∷ 9 ∷ []

abbrev artifact : Artifact
artifact = record {
  id = 80;
  project_id = 1;
  storage_key = 81;
  sha256 = 3;
  byte_size = 3;
  available = true;
}

abbrev stocked : Db
stocked = record working { artifacts = artifact ∷ [] }

abbrev disk : External
disk = record external { blob = λ k. Blob.bytes file }

knows_stocked : identity worker true stocked ≡ ok bound
unfolding identity bound_of join check_activation check_run one
knows_stocked = refl

read_artifact_chunks_example :
    (c : Chunk) × (read_artifact disk worker 80 (some 1) (some 1) stocked ≡ ok c)
    × (length c.content ≤ 1)
    × (c.content ++ drop 2 file ≡ drop 1 file)
    × (c.has_more ≡ false → drop 2 file ≡ [])
unfolding one read_object
read_artifact_chunks_example =
    read_artifact_chunks disk worker 80 1 1 stocked {a = artifact} knows_stocked refl refl
      (omega arith) (omega arith)
