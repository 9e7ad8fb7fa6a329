-- ===== src/Plans/Laws.antt =====
-- What a valid plan and its permissions guarantee.
use agent_router.Prelude.{
  Bool, true, false, Option, some, List, [], ◌∷◌, ◌++◌, ◌&&◌, not, ◌≡◌, inl, inr, refl, arith, sym,
  subst, ap, ◌∙◌, any, select, map, Text, text_eq, eq_of_text_eq, Bool-cases, Option-cases,
}
use mathlib.Core.List.{Memᴰ}
use mathlib.Core.List.Memᴰ
use agent_router.Plans.{
  Target, Access, Network, Permissions, PlanRole, PlanGroup, RolePlan, Scope, Noted, Problem, Field,
  includes, role_of, crosses, workspace_known, bad_if, role_problems, roles_problems, problems,
  is_empty, validate, granted, permissions, groups_problems, model_of, model_invalid, all_distinct,
}
use agent_router.Plans.Paths.{path_invalid}

-- A text is among those that pass a test exactly where it is there and passes.
includes-select :
    (p : Text → Bool) (ts : List Text) (t : Text)
    → includes (select p ts) t ≡ (includes ts t && p t)
unfolding select any
includes-select p [] t = refl
includes-select p (x ∷ ts) t = elim (Bool-cases (text_eq x t)) [
  | inr other ↦ ground (arith, includes-select p ts t)
  | inl same ↦ let e = ap p (eq_of_text_eq x t same) in ground (arith, includes-select p ts t)
]

-- The permissions of a role are the least of three: a path is allowed exactly where it was granted
-- and asked for, a tool where it was granted, asked for and is trusted; whatever is asked for or
-- granted, the workspace is read only and there is no network.
pub permissions_least :
    (trusted : List Text) (spec : PlanRole) (grant : Option Permissions) (t : Text)
    → (includes (permissions trusted spec grant).allowed_paths t ≡ (
        includes (granted (λ g. g.allowed_paths) grant) t
        && includes spec.requested_permissions.allowed_paths t))
      × (includes (permissions trusted spec grant).tool_profiles t ≡ (
          includes (granted (λ g. g.tool_profiles) grant) t
          && (includes spec.requested_permissions.tool_profiles t && includes trusted t)))
      × ((permissions trusted spec grant).workspace_access ≡ Access.read_only)
      × ((permissions trusted spec grant).network_profile ≡ Network.no_network)
unfolding permissions
permissions_least trusted spec grant t = (
  includes-select (λ p. includes spec.requested_permissions.allowed_paths p)
      (granted (λ g. g.allowed_paths) grant) t,
  includes-select (λ u. includes spec.requested_permissions.tool_profiles u && includes trusted u)
      (granted (λ g. g.tool_profiles) grant) t,
  refl,
  refl,
)

is_empty-append {ℓ} :
    {A : Type ℓ} (xs ys : List A) → is_empty (xs ++ ys) ≡ (is_empty xs && is_empty ys)
is_empty-append [] ys = refl
is_empty-append (x ∷ xs) ys = refl

none_noted :
    (b : Bool) (p : Problem) (f : Field) (rest : List Noted)
    → is_empty (bad_if b p f ++ rest) ≡ true
    → (b ≡ false) × (is_empty rest ≡ true)
none_noted true p f rest h = absurd (ground arith)
none_noted false p f rest h = (refl, h)

any-false-Memᴰ :
    {A : Type 0} (p : A → Bool) (xs : List A) {x : A} → any p xs ≡ false → Memᴰ x xs → p x ≡ false
unfolding any
any-false-Memᴰ p [] h m = absurd (Memᴰ.not-nil m)
any-false-Memᴰ p (y ∷ xs) {x} h m = elim (Memᴰ.cases_cons m) [
  | inl e ↦ subst (λ z. p z ≡ false) (sym e) (ground arith)
  | inr later ↦ any-false-Memᴰ p xs (ground arith) later
]

role_of-eq-some :
    (k : Text) (rs : List PlanRole) {q : PlanRole} → role_of k rs ≡ some q → Memᴰ q rs × (q.key ≡ k)
unfolding role_of
role_of-eq-some k [] h = absurd (ground arith)
role_of-eq-some k (r ∷ rs) {q} h = elim (Option-cases (role_of k rs)) [
  | inr (q', e) ↦
      let same : q' ≡ q = ground arith in
      let (m, f) = role_of-eq-some k rs (subst (λ x. role_of k rs ≡ some x) same e) in
      (Memᴰ.tail m, f)
  | inl n ↦ elim (Bool-cases (text_eq r.key k)) [
    | inr other ↦ absurd (ground arith)
    | inl own ↦
        let same : r ≡ q = ground arith in
        (Memᴰ.head (sym same), ap (λ (x : PlanRole). x.key) (sym same) ∙ eq_of_text_eq r.key k own)
  ]
]

-- A target that is a role of the same group.
abbrev pub StaysIn : List PlanRole → PlanRole → Target → Type 0
StaysIn rs r target =
    (k : Text)
    → target ≡ Target.role_key k
    → (q : PlanRole) × Memᴰ q rs × (q.key ≡ k) × (q.group_key ≡ r.group_key)

crosses-StaysIn :
    (rs : List PlanRole) (r : PlanRole) (t : Target) → crosses rs r t ≡ false → StaysIn rs r t
crosses-StaysIn rs r Target.other_target h = λ k e. absurd (ground arith)
crosses-StaysIn rs r (Target.role_key k) h = elim (Option-cases (role_of k rs)) [
  | inl n ↦ absurd (ground arith)
  | inr (q, e) ↦
      let (m, f) = role_of-eq-some k rs e in
      let g = eq_of_text_eq q.group_key r.group_key (ground arith) in
      λ l same. (q, m, f ∙ key_same same, g)
]
  where
    key_same : {k l : Text} → Target.role_key k ≡ Target.role_key l → k ≡ l
    key_same e = ground arith

-- What a role may count on in a plan that is valid.
pub record InScope (s : Scope) (p : RolePlan) (r : PlanRole) : Type 0 where
  pub grouped : any (λ g. text_eq g.group_key r.group_key) p.groups ≡ true
  pub housed : workspace_known s p.project_id r.workspace_ref ≡ true
  pub completion : StaysIn p.roles r r.default_completion_target
  pub problem : StaysIn p.roles r r.problem_target
  pub paths : (t : Text) → Memᴰ t r.requested_permissions.allowed_paths → path_invalid t ≡ false

role_problems-InScope :
    (s : Scope) (p : RolePlan) (r : PlanRole)
    → is_empty (role_problems s p r) ≡ true
    → InScope s p r
unfolding role_problems
role_problems-InScope s p r h =
    let key = Field.of_key r.key in
    let g = not (any (λ g. text_eq g.group_key r.group_key) p.groups) in
    let w = not (workspace_known s p.project_id r.workspace_ref) in
    let c = crosses p.roles r r.default_completion_target in
    let d = crosses p.roles r r.problem_target in
    let a = any path_invalid r.requested_permissions.allowed_paths in
    let l₅ =
      bad_if (model_invalid (model_of s r.runtime) r.runtime) Problem.model_selection_invalid key in
    let l₄ = bad_if a Problem.permission_path_invalid key ++ l₅ in
    let l₃ = bad_if d Problem.cross_space_denied key ++ l₄ in
    let l₂ = bad_if c Problem.cross_space_denied key ++ l₃ in
    let l₁ = bad_if w Problem.workspace_scope key ++ l₂ in
    let (e₁, h₁) = none_noted g Problem.unknown_group_key key l₁ h in
    let (e₂, h₂) = none_noted w Problem.workspace_scope key l₂ h₁ in
    let (e₃, h₃) = none_noted c Problem.cross_space_denied key l₃ h₂ in
    let (e₄, h₄) = none_noted d Problem.cross_space_denied key l₄ h₃ in
    let (e₅, _) = none_noted a Problem.permission_path_invalid key l₅ h₄ in
    record {
      grouped = not_false e₁;
      housed = not_false e₂;
      completion = crosses-StaysIn p.roles r r.default_completion_target e₃;
      problem = crosses-StaysIn p.roles r r.problem_target e₄;
      paths = λ t. any-false-Memᴰ path_invalid r.requested_permissions.allowed_paths e₅;
    }
  where
    not_false : {b : Bool} → not b ≡ false → b ≡ true
    not_false {b} e = ground arith

roles_problems-InScope :
    (s : Scope) (p : RolePlan) (rs : List PlanRole) {r : PlanRole}
    → is_empty (roles_problems s p rs) ≡ true
    → Memᴰ r rs
    → InScope s p r
unfolding roles_problems
roles_problems-InScope s p [] h m = absurd (Memᴰ.not-nil m)
roles_problems-InScope s p (q ∷ rs) {r} h m =
    let e = is_empty-append (role_problems s p q) (roles_problems s p rs) in
    elim (Memᴰ.cases_cons m) [
      | inl same ↦ subst (InScope s p) (sym same) (role_problems-InScope s p q (ground arith))
      | inr later ↦ roles_problems-InScope s p rs (ground arith) later
    ]

-- In a plan that is valid, every role has its group in the plan and its workspace in the project,
-- ready; where it sends its results and its problems to a role, that is a role of the plan in the
-- same group; and no path that it asks for is absolute, climbs up, or names a secret.
pub validate-InScope :
    (well_shaped : Bool) (folded : Text → Text) (s : Scope) (p : RolePlan) (r : PlanRole)
    → (validate well_shaped folded s p).valid ≡ true
    → Memᴰ r p.roles
    → InScope s p r
unfolding validate problems
validate-InScope false folded s p r h m = absurd (ground arith)
validate-InScope true folded s p r h m =
    let l₅ = roles_problems s p p.roles ++ groups_problems s p.project_id p.groups in
    let c₄ =
      not (
        all_distinct (map (λ (r : PlanRole). r.group_key ++ 58 ∷ folded r.display_name) p.roles)) in
    let l₄ = bad_if c₄ Problem.duplicate_role_name Field.roles_field ++ l₅ in
    let c₃ = not (all_distinct (map (λ (g : PlanGroup). folded g.display_name) p.groups)) in
    let l₃ = bad_if c₃ Problem.duplicate_group_name Field.groups_field ++ l₄ in
    let c₂ = not (all_distinct (map (λ (r : PlanRole). r.key) p.roles)) in
    let l₂ = bad_if c₂ Problem.duplicate_role_key Field.roles_field ++ l₃ in
    let c₁ = not (all_distinct (map (λ (g : PlanGroup). g.group_key) p.groups)) in
    let l₁ = bad_if c₁ Problem.duplicate_group_key Field.groups_field ++ l₂ in
    let c₀ = not (any (λ x. text_eq x.id p.project_id && x.active) s.projects) in
    let (_, h₁) = none_noted c₀ Problem.project_scope Field.project_field l₁ h in
    let (_, h₂) = none_noted c₁ Problem.duplicate_group_key Field.groups_field l₂ h₁ in
    let (_, h₃) = none_noted c₂ Problem.duplicate_role_key Field.roles_field l₃ h₂ in
    let (_, h₄) = none_noted c₃ Problem.duplicate_group_name Field.groups_field l₄ h₃ in
    let (_, h₅) = none_noted c₄ Problem.duplicate_role_name Field.roles_field l₅ h₄ in
    let e =
      is_empty-append (roles_problems s p p.roles) (groups_problems s p.project_id p.groups) in
    roles_problems-InScope s p p.roles (ground (arith, e, h₅)) m
