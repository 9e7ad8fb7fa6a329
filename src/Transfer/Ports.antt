-- ===== src/Transfer/Ports.antt =====
-- The drivers that the engine calls, `TransferDriverPort`, and what it hands them.
use agent_router.Prelude.{
  ℕ, Bool, true, false, Option, none, some, [], ◌∷◌, ◌==◌, ◌&&◌, ◌||◌, all, length, leb, text_eq,
  Text, if◌then◌else◌,
}
use agent_router.Protocol.{Ident}
use agent_router.Transfer.Rows.{Meta, Tables, World, Commit, set_meta}

-- A promise that settles: with a value, or an error whose message says NOT_STARTED or
-- AMBIGUOUS_NO_RETRY, or neither.
pub data Outcome {ℓ} (A : Type ℓ) : Type ℓ where
  returned : A → Outcome A
  thrown : (not_started no_retry : Bool) → Outcome A

-- What is there after an `await`: the tables as others have left them in the meantime, the
-- reference that the driver had recorded by `recordTargetCreated`, and whether it has called
-- `recordInputDispatch`.
pub record Awaited {ℓ} (A : Type ℓ) : Type ℓ where
  pub tables : Tables
  pub created : Option Text
  pub dispatched : Bool
  pub outcome : Outcome A

pub record PortContext : Type 0 where
  pub harness : Text
  pub session_home : Option Text
  pub workspace : Option Text
  pub profile_ref : Option Text
  pub binding_id : Option Text
  pub role_session_id : Option Ident

-- `a ?? b`
abbrev pub or_else {ℓ} : {A : Type ℓ} → Option A → Option A → Option A
or_else none b = b
or_else (some a) b = some a

unfoldable pub source_context : Meta → Text → Option Ident → PortContext
source_context m harness session = record {
  harness = harness;
  session_home = or_else m.source.session_home m.source_session_home;
  workspace = m.source.workspace_path;
  profile_ref = m.source.profile_ref;
  binding_id = m.source.binding_id;
  role_session_id = or_else m.source.role_session_id session;
}

unfoldable pub target_context : Meta → Text → PortContext
target_context m harness = record {
  harness = harness;
  session_home = or_else m.target.session_home m.target_session_home;
  workspace = m.target.workspace_path;
  profile_ref = m.target.profile_ref;
  binding_id = m.target.binding_id;
  role_session_id = m.target.role_session_id;
}

pub record Content : Type 0 where
  pub text : Text
  pub truncated : Bool

pub record Receipt : Type 0 where
  pub native_session_ref : Text
  pub confirmed : Bool
  pub accepted_payload_hash : Option Text
  pub native_receipt : Option Text

-- The functions of a driver; those that a driver may lack are optional. A receipt of `confirmTarget`
-- has no reference of its own, so that of the request stands there.
pub record Port : Type 0 where
  pub native_fork_target : Option (
      (c : PortContext) (source_ref : Text) (op : Ident) (target_ref : Option Text)
      → Tables
      → Awaited Receipt)
  pub confirm_native_fork : Option (
      (c : PortContext) (source_ref target_ref : Text) (op : Ident) (expected : Option Text)
      → Tables
      → Awaited Receipt)
  pub export_context : (c : PortContext) (native_ref : Text) → Tables → Awaited Content
  pub initialize_target :
      (c : PortContext) (seed : Text) (op : Ident) (expected : Text) (target_ref : Option Text)
      → Tables
      → Awaited Receipt
  pub confirm_target :
      (c : PortContext) (target_ref : Text) (op : Ident) (expected : Option Text)
      → Tables
      → Awaited Receipt
  pub target_window_tokens :
      Option
        ((c : PortContext) (op : Ident) (target_ref : Option Text) → Tables → Awaited (Option ℕ))
  pub source_capacity :
      Option ((c : PortContext) (native_ref : Text) → Tables → Awaited (Option ℕ × Option ℕ))
  pub compress_source : Option ((text : Text) (max_tokens : Option ℕ) → Tables → Awaited Content)

-- The surroundings of the engine: the drivers, SHA-256, and `commit`, which throws or returns the
-- tables after its transaction.
pub record Deps : Type 0 where
  pub ports : Text → Option Port
  pub sha256 : Text → Text
  pub commit : Commit → Tables → Option Tables

-- A text that is there and is not empty.
abbrev pub filled : Option Text → Bool
filled none = false
filled (some []) = false
filled (some (c ∷ t)) = true

-- `/^[0-9a-f]{64}$/`
abbrev pub is_hex : ℕ → Bool
is_hex c = leb 48 c && leb c 57 || leb 97 c && leb c 102

unfoldable pub is_sha256 : Option Text → Bool
is_sha256 none = false
is_sha256 (some t) = length t == 64 && all is_hex t

-- `a === b` for texts that may be absent.
abbrev pub same_text : Option Text → Option Text → Bool
same_text none none = true
same_text none (some b) = false
same_text (some a) none = false
same_text (some a) (some b) = text_eq a b

abbrev pub or_empty : Option Text → Text
or_empty none = []
or_empty (some t) = t

-- What a driver has noted that was given no callbacks, or `recordTargetCreated` only.
abbrev pub quiet {ℓ} : {A : Type ℓ} → Awaited A → Awaited A
quiet a = record a { created = none; dispatched = false }

abbrev pub undispatched {ℓ} : {A : Type ℓ} → Awaited A → Awaited A
undispatched a = record a { dispatched = false }

-- `recordTargetCreated` and `recordInputDispatch`. An empty reference throws into the driver.
unfoldable pub noted {ℓ} : {A : Type ℓ} → Ident → (Meta → Meta) → Awaited A → World → World
noted id fork a w =
    let w₁ = record w { tables = a.tables } in
    let w₂ =
      if filled a.created
      then set_meta id
          (λ m. record (fork m) { target_native_ref = a.created; target_created = true }) w₁
      else w₁ in
    if a.dispatched then set_meta id (λ m. record m { seed_send_started = true }) w₂ else w₂
