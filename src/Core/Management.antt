-- ===== src/Core/Management.antt =====
-- packages/runtime/management.ts: what the local service changes in projects, spaces, roles and
-- policies, as far as the runtime reads it. Names and paths are in no column that the runtime reads.
pub mod Laws
use agent_router.Prelude.{
  ℕ, suc, Bool, true, false, Option, none, some, List, [], ◌∷◌, ◌++◌, ◌&&◌, ◌||◌, not, ◌==◌, leb,
  length, max, one, any, update_where, is_some, Text, if◌then◌else◌,
}
use agent_router.Protocol.{Ident}
use agent_router.Store.{Db, Project, Space, Role, RoleSlot, Policy, Status, is_active}

-- The errors that these methods throw.
pub data Refusal : Type 0 where
  project_has_active_run role_has_active_run invalid_space unsafe_policy : Refusal

pub data Managed {ℓ} (A : Type ℓ) : Type ℓ where
  refused : Refusal → Managed A
  did : A → Managed A

-- `role_slots rs join roles r on r.id=rs.role_id join spaces s on s.id=r.space_id`
unfoldable pub in_project : Db → Ident → Ident → Bool
in_project s project role_id = elim (one (λ r. r.id == role_id) s.roles) [
  | none ↦ false
  | some r ↦ elim (one (λ sp. sp.id == r.space_id) s.spaces) [
    | none ↦ false
    | some sp ↦ sp.project_id == project
  ]
]

-- A slot of the project that holds a run: the test of `stopped`.
unfoldable pub has_active_run : Db → Ident → Bool
has_active_run s project =
    any (λ p. is_some p.active_run_id && in_project s project p.role_id) s.role_slots

abbrev pub archive : Project → Project
archive p = record p { status = Status.archived }

abbrev pub rest_space : Space → Space
rest_space sp = record sp { status = Status.paused }

unfoldable pub archive_project : Ident → Db → Managed Db
archive_project project s =
    if has_active_run s project
    then refused Refusal.project_has_active_run
    else did (record s {
      projects = update_where (λ p. p.id == project) archive s.projects;
      spaces =
          update_where (λ sp. sp.project_id == project && is_active sp.status) rest_space s.spaces;
    })

-- `named` tells whether the name is a text of 1 to 160 characters that is not blank.
unfoldable pub create_space : (fresh project : Ident) → (named : Bool) → Db → Managed (Ident × Db)
create_space fresh project named s =
    if any (λ p. p.id == project && is_active p.status) s.projects && named
    then did (
      fresh,
      record s {
        spaces =
            s.spaces ++ record { id = fresh; project_id = project; status = Status.active } ∷ [];
      },
    )
    else refused Refusal.invalid_space

abbrev pub ends_role : Status → Bool
ends_role Status.disabled = true
ends_role Status.archived = true
ends_role _ = false

abbrev pub with_status : Status → Role → Role
with_status to r = record r { status = to }

unfoldable pub set_role_status : Ident → Status → Db → Managed Db
set_role_status role_id to s =
    if ends_role to && any (λ p. p.role_id == role_id && is_some p.active_run_id) s.role_slots
    then refused Refusal.role_has_active_run
    else did (record s { roles = update_where (λ r. r.id == role_id) (with_status to) s.roles })

-- `select max(revision) as r from policies where project_id=?`, or 0
unfoldable pub last_revision : Ident → List Policy → ℕ
last_revision project [] = 0
last_revision project (q ∷ qs) =
    max (if q.project_id == project then q.revision else 0) (last_revision project qs)

abbrev pub next_policy : Ident → Ident → Db → Policy
next_policy fresh project s = record {
  id = fresh;
  project_id = project;
  revision = suc (last_revision project s.policies);
}

-- `valid` is the answer of `validatePolicy` on the content.
unfoldable pub publish_policy :
    (fresh project : Ident) → (valid : Bool) → Db → Managed (Policy × Db)
publish_policy fresh project valid s =
    if valid
    then did (
      next_policy fresh project s,
      record s { policies = s.policies ++ next_policy fresh project s ∷ [] },
    )
    else refused Refusal.unsafe_policy
