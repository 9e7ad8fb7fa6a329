-- ===== src/Core/Management/Laws.antt =====
-- What a change of the service means for the runtime.
use agent_router.Prelude.{
  ℕ, ◌<◌, Bool, true, false, Option, none, some, List, [], ◌∷◌, ◌++◌, ◌&&◌, ◌==◌, ◌≡◌, refl, arith,
  one, any, select, is_some, ap, ==-refl, ◌∙◌,
}
use agent_router.Prelude.Laws.{one-update_where, one-holds}
use agent_router.Protocol.{Ident, ok}
use agent_router.Store.{Db, Outside, Role, Space, Project, Policy, Status, is_active}
use agent_router.Core.Messages.{latest, latest_policy}
use agent_router.Core.Dispatch.{dispatch}
use agent_router.Core.Dispatch.Gates.{Options, all_active}
use agent_router.Core.Dispatch.Start.{Dispatch}
use agent_router.Core.Dispatch.Exclusive.{dispatch_starts}
use agent_router.Core.Management.{
  did, in_project, has_active_run, archive, rest_space, archive_project, with_status,
  set_role_status, last_revision, next_policy, publish_policy, ends_role,
}

-- A role that is not active is not started.
inactive-dispatch :
    (opts : Options) (o : Outside) (role_id : Ident) (s : Db) {out : Option Dispatch} {s' : Db}
    → all_active s role_id ≡ some false
    → dispatch opts o role_id s ≡ ok (out, s')
    → out ≡ none
inactive-dispatch opts o role_id s {out = none} idle h = refl
inactive-dispatch opts o role_id s {out = some d} idle h =
    let st = dispatch_starts opts o role_id s h in
    let awake = st.role_active in absurd (ground arith)

archived-all_active :
    (project role_id : Ident) (s : Db) (r : Role) (sp : Space) (p : Project) {s' : Db}
    → one (λ r. r.id == role_id) s.roles ≡ some r
    → one (λ sp. sp.id == r.space_id) s.spaces ≡ some sp
    → one (λ p. p.id == sp.project_id) s.projects ≡ some p
    → sp.project_id ≡ project
    → archive_project project s ≡ did s'
    → all_active s' role_id ≡ some false
unfolding archive_project all_active
archived-all_active project role_id s r sp p {s'} role_found space_found project_found mine h =
    let kept =
      one-update_where (λ q. q.id == r.space_id)
        (λ q. q.project_id == project && is_active q.status) rest_space s.spaces (λ q. refl) in
    let closed =
      one-update_where (λ q. q.id == sp.project_id) (λ q. q.id == project) archive s.projects
        (λ q. refl) in
    let hit : (p.id == sp.project_id) ≡ true =
      one-holds (λ p. p.id == sp.project_id) s.projects project_found in
    ground arith

-- After a project is archived, no dispatch starts a run for a role of it; and none had a run when it
-- was archived.
pub archive_project-dispatch :
    (opts : Options) (o : Outside) (project role_id : Ident) (s : Db) (r : Role) (sp : Space)
    (p : Project) {s' s'' : Db} {out : Option Dispatch}
    → one (λ r. r.id == role_id) s.roles ≡ some r
    → one (λ sp. sp.id == r.space_id) s.spaces ≡ some sp
    → one (λ p. p.id == sp.project_id) s.projects ≡ some p
    → sp.project_id ≡ project
    → archive_project project s ≡ did s'
    → dispatch opts o role_id s' ≡ ok (out, s'')
    → (out ≡ none)
      × (any (λ p. is_some p.active_run_id && in_project s project p.role_id) s.role_slots ≡ false)
unfolding archive_project has_active_run
archive_project-dispatch opts o project role_id s r sp p {s'} role_found space_found project_found
      mine h d =
    (
      inactive-dispatch opts o role_id s'
          (archived-all_active project role_id s r sp p role_found space_found project_found mine h)
          d,
      ground arith,
    )

-- A role that is paused, disabled or archived is not started; and one that is disabled or archived
-- had no run.
pub set_role_status-dispatch :
    (opts : Options) (o : Outside) (role_id : Ident) (to : Status) (s : Db) (r : Role) (sp : Space)
    (p : Project) {s' s'' : Db} {out : Option Dispatch}
    → one (λ r. r.id == role_id) s.roles ≡ some r
    → one (λ sp. sp.id == r.space_id) s.spaces ≡ some sp
    → one (λ p. p.id == sp.project_id) s.projects ≡ some p
    → is_active to ≡ false
    → set_role_status role_id to s ≡ did s'
    → dispatch opts o role_id s' ≡ ok (out, s'')
    → (out ≡ none)
      × (ends_role to ≡ true
          → any (λ p. p.role_id == role_id && is_some p.active_run_id) s.role_slots ≡ false)
unfolding set_role_status all_active
set_role_status-dispatch opts o role_id to s r sp p {s'} role_found space_found project_found idle h
      d =
    let changed =
      one-update_where (λ r. r.id == role_id) (λ r. r.id == role_id) (with_status to) s.roles
        (λ q. refl) in
    let hit : (r.id == role_id) ≡ true = one-holds (λ r. r.id == role_id) s.roles role_found in
    (inactive-dispatch opts o role_id s' (ground arith) d, λ e. ground arith)

latest-append :
    (project : Ident) (n : Policy) (qs : List Policy)
    → (n.project_id == project) ≡ true
    → last_revision project qs < n.revision
    → latest (select (λ q. q.project_id == project) (qs ++ n ∷ [])) ≡ some n
unfolding latest select last_revision
latest-append project n [] mine above = ground arith
latest-append project n (q ∷ qs) mine above = ground (arith, latest-append project n qs)

new_revision :
    (project : Ident) (n : ℕ) (qs : List Policy)
    → last_revision project qs < n
    → any (λ q. q.project_id == project && q.revision == n) qs ≡ false
unfolding last_revision any
new_revision project n [] above = refl
new_revision project n (q ∷ qs) above = ground (arith, new_revision project n qs)

-- A policy that is published is the latest of its project, which new tasks take, and its revision is
-- new in the project.
pub publish_policy-latest :
    (fresh project : Ident) (valid : Bool) (s : Db) {q : Policy} {s' : Db}
    → publish_policy fresh project valid s ≡ did (q, s')
    → (latest_policy project s'.policies ≡ some q)
      × (any (λ p. p.project_id == project && p.revision == q.revision) s.policies ≡ false)
unfolding publish_policy latest_policy
publish_policy-latest fresh project valid s {q} {s'} h =
    let made : next_policy fresh project s ≡ q = ground arith in
    let stored : s'.policies ≡ s.policies ++ q ∷ [] = ground arith in
    let above : last_revision project s.policies < q.revision = ground arith in
    let mine : (q.project_id == project) ≡ true = ground (arith, ==-refl project) in
    (
      ap (λ qs. latest (select (λ q. q.project_id == project) qs)) stored
          ∙ latest-append project q s.policies mine above,
      new_revision project q.revision s.policies above,
    )
