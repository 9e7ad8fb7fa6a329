-- ===== src/Plans.antt =====
-- packages/core-service/plans.ts: what a plan of roles must satisfy, and what its roles may do.
pub mod Paths
pub mod Laws
use agent_router.Prelude.{
  ℕ, Bool, true, false, Option, none, some, List, [], ◌∷◌, ◌++◌, ◌==◌, ◌&&◌, ◌||◌, not, any, select,
  length, map, Text, text_eq, if◌then◌else◌,
}
use agent_router.Protocol.{Ident}
use agent_router.Plans.Paths.{path_invalid}

pub data Target : Type 0 where
  role_key : Text → Target
  other_target : Target

pub data Access : Type 0 where
  read_only read_write : Access

pub data Network : Type 0 where
  no_network provider_only project_allowlist custom_request : Network

pub record Permissions : Type 0 where
  pub workspace_access : Access
  pub allowed_paths : List Text
  pub tool_profiles : List Text
  pub network_profile : Network

-- What the role asks of the model catalog.
pub record Selection : Type 0 where
  pub harness : Text
  pub model_id : Text
  pub provider_profile_id : Option Text
  pub reasoning_effort : Text

pub record PlanRole : Type 0 where
  pub key : Text
  pub group_key : Text
  pub display_name : Text
  pub default_completion_target : Target
  pub problem_target : Target
  pub workspace_ref : Text
  pub requested_permissions : Permissions
  pub runtime : Selection

pub record PlanGroup : Type 0 where
  pub group_key : Text
  pub display_name : Text
  pub workspace_ref : Option Text

pub record RolePlan : Type 0 where
  pub project_id : Text
  pub groups : List PlanGroup
  pub roles : List PlanRole

-- Rows of `projects`, `workspaces` and `model_catalog`.
pub record Project : Type 0 where
  pub id : Text
  pub active : Bool

pub record Workspace : Type 0 where
  pub id : Text
  pub project_id : Text
  pub ready : Bool

pub record Model : Type 0 where
  pub model_id : Text
  pub harness : Text
  pub provider_profile_id : Text
  pub available : Bool
  pub controlled : Bool
  pub levels : List Text

pub record Scope : Type 0 where
  pub projects : List Project
  pub workspaces : List Workspace
  pub models : List Model

pub data Problem : Type 0 where
  schema_invalid project_scope duplicate_group_key duplicate_role_key duplicate_group_name : Problem
  duplicate_role_name unknown_group_key workspace_scope cross_space_denied : Problem
  permission_path_invalid model_unverified model_selection_invalid : Problem

pub data Field : Type 0 where
  whole_plan project_field groups_field roles_field : Field
  of_key : Text → Field

-- The code of a problem, and the field that it is about.
pub record Noted : Type 0 where
  pub code : Problem
  pub field : Field

abbrev pub includes : List Text → Text → Bool
includes ts t = any (λ x. text_eq x t) ts

-- The keys of a `Map` or the members of a `Set` that is made of a list.
unfoldable pub distinct : List Text → List Text
distinct [] = []
distinct (t ∷ ts) = let rest = distinct ts in if includes ts t then rest else t ∷ rest

abbrev pub all_distinct : List Text → Bool
all_distinct ts = length (distinct ts) == length ts

abbrev pub bad_if : Bool → Problem → Field → List Noted
bad_if true p field = record { code = p; field = field } ∷ []
bad_if false p field = []

-- `get` of the `Map` of the roles: the last one of a key.
unfoldable pub role_of : Text → List PlanRole → Option PlanRole
role_of k [] = none
role_of k (r ∷ rs) = elim (role_of k rs) [
  | some q ↦ some q
  | none ↦ if text_eq r.key k then some r else none
]

abbrev pub crosses : List PlanRole → PlanRole → Target → Bool
crosses rs r Target.other_target = false
crosses rs r (Target.role_key k) = elim (role_of k rs) [
  | none ↦ true
  | some q ↦ not (text_eq q.group_key r.group_key)
]

abbrev pub workspace_known : Scope → Text → Text → Bool
workspace_known s project ref =
    any (λ w. text_eq w.id ref && text_eq w.project_id project && w.ready) s.workspaces

abbrev pub matches : Option Text → Text → Bool
matches none p = true
matches (some []) p = true
matches (some (c ∷ t)) p = text_eq p (c ∷ t)

-- The one model that the selection can mean.
abbrev pub only {ℓ} : {A : Type ℓ} → List A → Option A
only [] = none
only (x ∷ []) = some x
only (x ∷ y ∷ xs) = none

unfoldable pub model_of : Scope → Selection → Option Model
model_of s x = only (
    select
      (λ m.
        text_eq m.model_id x.model_id
        && text_eq m.harness x.harness
        && matches x.provider_profile_id m.provider_profile_id)
      s.models)

abbrev pub model_invalid : Option Model → Selection → Bool
model_invalid none x = false
model_invalid (some m) x = m.controlled && not (includes m.levels x.reasoning_effort)

unfoldable pub role_problems : Scope → RolePlan → PlanRole → List Noted
role_problems s p r =
    bad_if (not (any (λ g. text_eq g.group_key r.group_key) p.groups)) Problem.unknown_group_key
      (Field.of_key r.key)
    ++ (bad_if (not (workspace_known s p.project_id r.workspace_ref)) Problem.workspace_scope
          (Field.of_key r.key)
        ++ (bad_if (crosses p.roles r r.default_completion_target) Problem.cross_space_denied
              (Field.of_key r.key)
            ++ (bad_if (crosses p.roles r r.problem_target) Problem.cross_space_denied
                  (Field.of_key r.key)
                ++ (bad_if (any path_invalid r.requested_permissions.allowed_paths)
                      Problem.permission_path_invalid (Field.of_key r.key)
                    ++ (bad_if (model_invalid (model_of s r.runtime) r.runtime)
                        Problem.model_selection_invalid (Field.of_key r.key))))))

unfoldable pub roles_problems : Scope → RolePlan → List PlanRole → List Noted
roles_problems s p [] = []
roles_problems s p (r ∷ rs) = role_problems s p r ++ roles_problems s p rs

abbrev pub group_problems : Scope → Text → PlanGroup → List Noted
group_problems s project g = elim g.workspace_ref [
  | none ↦ []
  | some [] ↦ []
  | some (c ∷ t) ↦
      bad_if (not (workspace_known s project (c ∷ t))) Problem.workspace_scope
        (Field.of_key g.group_key)
]

unfoldable pub groups_problems : Scope → Text → List PlanGroup → List Noted
groups_problems s project [] = []
groups_problems s project (g ∷ gs) = group_problems s project g ++ groups_problems s project gs

-- A name as it is compared: `trim().toLocaleLowerCase()` is a parameter.
unfoldable pub problems : (Text → Text) → Scope → RolePlan → List Noted
problems folded s p =
    bad_if (not (any (λ x. text_eq x.id p.project_id && x.active) s.projects)) Problem.project_scope
      Field.project_field
    ++ (bad_if (not (all_distinct (map (λ g. g.group_key) p.groups))) Problem.duplicate_group_key
          Field.groups_field
        ++ (bad_if (not (all_distinct (map (λ r. r.key) p.roles))) Problem.duplicate_role_key
              Field.roles_field
            ++ (bad_if (not (all_distinct (map (λ g. folded g.display_name) p.groups)))
                  Problem.duplicate_group_name Field.groups_field
                ++ (bad_if
                      (not (
                        all_distinct
                          (map (λ r. r.group_key ++ 58 ∷ folded r.display_name) p.roles)))
                      Problem.duplicate_role_name Field.roles_field
                    ++ (roles_problems s p p.roles ++ (groups_problems s p.project_id p.groups))))))

abbrev pub is_empty {ℓ} : {A : Type ℓ} → List A → Bool
is_empty [] = true
is_empty (x ∷ xs) = false

unfoldable pub warnings : Scope → List PlanRole → List Noted
warnings s [] = []
warnings s (r ∷ rs) =
    bad_if (elim (model_of s r.runtime) [ none ↦ true | some m ↦ not m.available ])
      Problem.model_unverified (Field.of_key r.key)
    ++ warnings s rs

-- What `validate` returns, but the hash of the plan and the confirmations, which are constant.
pub record Validation : Type 0 where
  pub valid : Bool
  pub errors : List Noted
  pub warned : List Noted

-- Whether the plan has the shape of the schema is a parameter.
unfoldable pub validate :
    (well_shaped : Bool) (folded : Text → Text) → Scope → RolePlan → Validation
validate false folded s p = record {
  valid = false;
  errors = record { code = Problem.schema_invalid; field = Field.whole_plan } ∷ [];
  warned = [];
}
validate true folded s p = record {
  valid = is_empty (problems folded s p);
  errors = problems folded s p;
  warned = warnings s p.roles;
}

abbrev pub granted : (Permissions → List Text) → Option Permissions → List Text
granted f none = []
granted f (some g) = f g

-- What a role may do: what was granted, asked for and, for tools, is trusted.
unfoldable pub permissions : (trusted : List Text) → PlanRole → Option Permissions → Permissions
permissions trusted spec grant = record {
  workspace_access = Access.read_only;
  allowed_paths =
      select (λ p. includes spec.requested_permissions.allowed_paths p)
        (granted (λ g. g.allowed_paths) grant);
  tool_profiles =
      select (λ t. includes spec.requested_permissions.tool_profiles t && includes trusted t)
        (granted (λ g. g.tool_profiles) grant);
  network_profile = Network.no_network;
}
