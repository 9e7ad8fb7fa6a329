-- ===== src/Examples/Service.antt =====
-- The theorems on the changes of the local service, each applied to the office.
use agent_router.Prelude.{
  true, false, Option, none, some, [], ◌∷◌, ◌≡◌, refl, one, any, update_where, is_some, ◌==◌, ◌&&◌,
}
use agent_router.Protocol.{Result, ok, err}
use agent_router.Store.{Db, Status, Policy}
use agent_router.Core.Identity.{identity, management, bound_of, join, check_activation, check_run}
use agent_router.Core.Messages.{latest_policy}
use agent_router.Core.Dispatch.{dispatch}
use agent_router.Core.Dispatch.Gates.{admit, select_task, all_active, blocked}
use agent_router.Core.Dispatch.Start.{Dispatch}
use agent_router.Core.History.{after}
use agent_router.Core.Management.{
  Managed, did, refused, archive_project, has_active_run, in_project, set_role_status,
  publish_policy, last_revision, ends_role,
}
use agent_router.Core.Management.Laws.{
  archive_project-dispatch, set_role_status-dispatch, publish_policy-latest,
}
use agent_router.Examples.Office.{office, outside, options}

abbrev changed : Managed Db → Db
changed (did s) = s
changed (refused r) = office

abbrev closed_office : Db
closed_office = changed (archive_project 1 office)

abbrev start_of : Result (Option Dispatch × Db) → Option Dispatch
start_of (ok (d, s)) = d
start_of (err e) = none

-- The start that a dispatch of role 4 gives.
abbrev begun_in : Db → Option Dispatch
begun_in s = start_of (dispatch options outside 4 s)

abbrev refused_in : Db → Result (Option Dispatch × Db)
refused_in s = ok (begun_in s, after s (dispatch options outside 4 s))

archives : archive_project 1 office ≡ did closed_office
unfolding archive_project has_active_run in_project one any update_where
archives = refl

stays_closed : dispatch options outside 4 closed_office ≡ refused_in closed_office
unfolding archive_project has_active_run in_project one any update_where dispatch admit select_task
    blocked all_active management identity bound_of join check_activation check_run
stays_closed = refl

archive_project-dispatch_example :
    (begun_in closed_office ≡ none)
    × (any (λ p. is_some p.active_run_id && in_project office 1 p.role_id) office.role_slots
        ≡ false)
unfolding one
archive_project-dispatch_example =
    archive_project-dispatch options outside 1 4 office
      (record { id = 4; space_id = 2; status = Status.active })
      (record { id = 2; project_id = 1; status = Status.active })
      (record { id = 1; status = Status.active }) refl refl refl refl archives stays_closed

abbrev without_role : Db
without_role = changed (set_role_status 4 Status.disabled office)

disables : set_role_status 4 Status.disabled office ≡ did without_role
unfolding set_role_status one any update_where
disables = refl

stays_disabled : dispatch options outside 4 without_role ≡ refused_in without_role
unfolding set_role_status one any update_where dispatch admit select_task blocked all_active
    management identity bound_of join check_activation check_run
stays_disabled = refl

set_role_status-dispatch_example :
    (begun_in without_role ≡ none)
    × (ends_role Status.disabled ≡ true
        → any (λ p. p.role_id == 4 && is_some p.active_run_id) office.role_slots ≡ false)
unfolding one
set_role_status-dispatch_example =
    set_role_status-dispatch options outside 4 Status.disabled office
      (record { id = 4; space_id = 2; status = Status.active })
      (record { id = 2; project_id = 1; status = Status.active })
      (record { id = 1; status = Status.active }) refl refl refl refl disables stays_disabled

abbrev second_policy : Policy
second_policy = record { id = 77; project_id = 1; revision = 2 }

abbrev with_policy : Db
with_policy = record office {
  policies = record { id = 6; project_id = 1; revision = 1 } ∷ second_policy ∷ [];
}

publishes : publish_policy 77 1 true office ≡ did (second_policy, with_policy)
unfolding publish_policy last_revision
publishes = refl

publish_policy-latest_example :
    (latest_policy 1 with_policy.policies ≡ some second_policy)
    × (any (λ p. p.project_id == 1 && p.revision == 2) office.policies ≡ false)
unfolding any
publish_policy-latest_example = publish_policy-latest 77 1 true office publishes
