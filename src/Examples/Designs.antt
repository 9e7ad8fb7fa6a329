-- ===== src/Examples/Designs.antt =====
-- A plan of two roles in one group.
use agent_router.Prelude.{true, none, some, [], ◌∷◌, ◌≡◌, ◌&&◌, refl, any, select, text_eq}
use mathlib.Core.List.{Memᴰ}
use agent_router.Plans.{
  Target, Access, Network, Permissions, PlanRole, RolePlan, Scope, validate, problems,
  role_problems, roles_problems, groups_problems, role_of, distinct, model_of, permissions,
  includes, granted,
}
use agent_router.Plans.Paths.{path_invalid, climbs, contains, begins}
use agent_router.Plans.Laws.{InScope, validate-InScope, permissions_least}

abbrev asked : Permissions
asked = record {
  workspace_access = Access.read_write;
  allowed_paths = (115 ∷ []) ∷ (100 ∷ []) ∷ [];
  tool_profiles = (103 ∷ []) ∷ [];
  network_profile = Network.custom_request;
}

abbrev writer : PlanRole
writer = record {
  key = 119 ∷ [];
  group_key = 103 ∷ [];
  display_name = 87 ∷ [];
  default_completion_target = Target.role_key (114 ∷ []);
  problem_target = Target.other_target;
  workspace_ref = 111 ∷ [];
  requested_permissions = asked;
  runtime = record {
    harness = 112 ∷ [];
    model_id = 109 ∷ [];
    provider_profile_id = none;
    reasoning_effort = 108 ∷ [];
  };
}

abbrev reviewer : PlanRole
reviewer = record writer {
  key = 114 ∷ [];
  display_name = 82 ∷ [];
  default_completion_target = Target.other_target;
}

abbrev design : RolePlan
design = record {
  project_id = 112 ∷ [];
  groups = record { group_key = 103 ∷ []; display_name = 71 ∷ []; workspace_ref = none } ∷ [];
  roles = writer ∷ reviewer ∷ [];
}

abbrev scope : Scope
scope = record {
  projects = record { id = 112 ∷ []; active = true } ∷ [];
  workspaces = record { id = 111 ∷ []; project_id = 112 ∷ []; ready = true } ∷ [];
  models = [];
}

design_valid : (validate true (λ t. t) scope design).valid ≡ true
unfolding validate problems role_problems roles_problems groups_problems role_of distinct model_of
    path_invalid climbs contains begins any select text_eq
design_valid = refl

validate-InScope_example : InScope scope design writer
validate-InScope_example =
    validate-InScope true (λ t. t) scope design writer design_valid (Memᴰ.head refl)

permissions_least_example :
    (includes (permissions ((103 ∷ []) ∷ []) writer (some asked)).allowed_paths (100 ∷ []) ≡ (
      includes (granted (λ g. g.allowed_paths) (some asked)) (100 ∷ [])
      && includes asked.allowed_paths (100 ∷ [])))
    × (includes (permissions ((103 ∷ []) ∷ []) writer (some asked)).tool_profiles (100 ∷ []) ≡ (
        includes (granted (λ g. g.tool_profiles) (some asked)) (100 ∷ [])
        && (includes asked.tool_profiles (100 ∷ []) && includes ((103 ∷ []) ∷ []) (100 ∷ []))))
    × ((permissions ((103 ∷ []) ∷ []) writer (some asked)).workspace_access ≡ Access.read_only)
    × ((permissions ((103 ∷ []) ∷ []) writer (some asked)).network_profile ≡ Network.no_network)
permissions_least_example = permissions_least ((103 ∷ []) ∷ []) writer (some asked) (100 ∷ [])
