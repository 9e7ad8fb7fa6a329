-- ===== src/Protocol/Errors.antt =====
-- `RouteError` of packages/protocol/index.ts, and the errors of the database. An operation that
-- throws returns `err`; inside a transaction its writes are lost with the state that it carried.
use agent_router.Prelude.{Bool, true, false, Option, none, some, ◌≡◌, refl, ◌⊎◌, inl, inr}

-- The codes that packages/runtime, packages/domain and packages/role-bridge throw.
pub data Code : Type 0 where
  stale_identity inactive_run invalid_role invalid_target : Code
  artifact_unavailable output_must_be_frozen reference_resolver_unavailable : Code
  invalid_operation_id operation_conflict store_unavailable : Code
  policy_required wrong_tool_payload invalid_payload : Code
  cross_space_denied scope_denied artifact_scope reference_unsupported : Code
  illegal_task_transition finish_requires_task handoff_target_mismatch : Code
  unexpected_next_request wait_requires_task invalid_wait_dependency : Code
  role_slot_missing task_input_already_consumed unknown_run : Code
  reconciliation_required settled_barrier_unproven unknown_outcome : Code
  invalid_notice_page artifact_missing artifact_corrupted invalid_storage_key : Code
  artifact_read_limit bridge_requires_run bridge_boundary bridge_token_invalid : Code
  tool_not_granted tool_unavailable : Code

pub data Category : Type 0 where
  validation authorization unavailable conflict ambiguous : Category

-- `broken` is an error that is no `RouteError`: a constraint of the schema, or a row that the code
-- reads without a test.
pub data Failure : Type 0 where
  route : Code → Category → Failure
  broken : Failure

-- What a call returns: an error, or a value.
pub data Result {ℓ} (A : Type ℓ) : Type ℓ where
  err : Failure → Result A
  ok : A → Result A

-- `if (!b) throw e`
abbrev pub require : Bool → Failure → Result (Unit {0})
require true e = ok tt
require false e = err e

-- `if (b) throw e`
abbrev pub refuse : Bool → Failure → Result (Unit {0})
refuse true e = err e
refuse false e = ok tt

-- Going on with the value of a call, if there is one.
abbrev pub ◌>>=◌ {ℓ κ} : {A : Type ℓ} {B : Type κ} → Result A → (A → Result B) → Result B
err thrown >>= next = err thrown
ok value >>= next = next value

infixl 5 ◌>>=◌ ◌>>◌
abbrev pub ◌>>◌ {ℓ κ} : {A : Type ℓ} {B : Type κ} → Result A → Result B → Result B
first >> second = first >>= λ value. second

-- A row that has to be there.
abbrev pub or_throw {ℓ} : {A : Type ℓ} → Option A → Failure → Result A
or_throw none e = err e
or_throw (some a) e = ok a

pub Result-cases {ℓ} :
    {A : Type ℓ} (m : Result A) → ((a : A) × (m ≡ ok a)) ⊎ ((e : Failure) × (m ≡ err e))
Result-cases (ok a) = inl (a, refl)
Result-cases (err e) = inr (e, refl)
