-- ===== src/RoleContext/Store/Rows.antt =====
-- The tables of migration 012, what the operations are given and return, and their errors.
use agent_router.Prelude.{ℕ, Bool, true, false, Option, none, some, List, Text}
use agent_router.Protocol.{Ident}
use agent_router.Json.{Json}
use agent_router.RoleContext.Portable.{Limits, Refused}

pub data PortableKind : Type 0 where
  user_message assistant_message notice route_task route_result : PortableKind
  tool_call tool_result history_visible artifact_ref summary : PortableKind

abbrev pub rank : PortableKind → ℕ
rank PortableKind.user_message = 0
rank PortableKind.assistant_message = 1
rank PortableKind.notice = 2
rank PortableKind.route_task = 3
rank PortableKind.route_result = 4
rank PortableKind.tool_call = 5
rank PortableKind.tool_result = 6
rank PortableKind.history_visible = 7
rank PortableKind.artifact_ref = 8
rank PortableKind.summary = 9

pub data Fidelity : Type 0 where
  exact compressed partial unknown blocked : Fidelity

pub data ReceiptState : Type 0 where
  prepared confirmed failed : ReceiptState

pub data StoreError : Type 0 where
  not_portable : Refused → StoreError
  invalid role_not_found session_not_found state_not_found cursor_invalid : StoreError
  operation_conflict operation_not_found operation_failed marker_mismatch : StoreError

pub data Reply {ℓ} (A : Type ℓ) : Type ℓ where
  done : A → Reply A
  throws : StoreError → Reply A

infixl 5 ◌>>=◌ ◌>>◌
abbrev pub ◌>>=◌ {ℓ κ} : {A : Type ℓ} {B : Type κ} → Reply A → (A → Reply B) → Reply B
done value >>= next = next value
throws thrown >>= next = throws thrown

abbrev pub ◌>>◌ {ℓ κ} : {A : Type ℓ} {B : Type κ} → Reply A → Reply B → Reply B
first >> second = first >>= λ value. second

abbrev pub check : Bool → StoreError → Reply (Unit {0})
check true e = done tt
check false e = throws e

abbrev pub found {ℓ} : {A : Type ℓ} → Option A → StoreError → Reply A
found none e = throws e
found (some a) e = done a

-- A row of `role_sessions`.
pub record Session : Type 0 where
  pub id : Ident
  pub role_id : Ident

pub record Head : Type 0 where
  pub role_id : Ident
  pub head_seq : ℕ

-- What the unique key of the entries compares, with the role.
pub record Origin : Type 0 where
  pub source_kind : Text
  pub source_id : Text
  pub portable_kind : PortableKind
  pub content_hash : Text

pub record LogEntry : Type 0 where
  pub role_id : Ident
  pub context_seq : ℕ
  pub source_work_session_id : Option Ident
  pub origin : Origin
  pub content : Json
  pub metadata : Json
  pub created_at_ms : ℕ

pub record SessionState : Type 0 where
  pub role_session_id : Ident
  pub role_id : Ident
  pub synced_through_seq : ℕ
  pub native_history_cursor : Option Json
  pub fidelity : Fidelity

pub record Receipt : Type 0 where
  pub operation_id : Text
  pub role_id : Ident
  pub target_work_session_id : Ident
  pub from_seq : ℕ
  pub through_seq : ℕ
  pub payload_hash : Text
  pub stable_marker : Text
  pub state : ReceiptState
  pub native_receipt : Option Json

pub record Context : Type 0 where
  pub roles : List Ident
  pub sessions : List Session
  pub heads : List Head
  pub entries : List LogEntry
  pub states : List SessionState
  pub receipts : List Receipt

-- What the hash of a plan is made of.
pub record Payload : Type 0 where
  pub role_id : Ident
  pub target_work_session_id : Ident
  pub from_seq : ℕ
  pub through_seq : ℕ
  pub origins : List (ℕ × Origin)

-- SHA-256 of a text, and the text that an identifier stands for.
pub record Tools : Type 0 where
  pub limits : Limits
  pub sha256 : Text → Text
  pub name_of : Ident → Text

pub record NewEntry : Type 0 where
  pub role_id : Ident
  pub source_work_session_id : Option Ident
  pub source_kind : Text
  pub source_id : Text
  pub portable_kind : PortableKind
  pub content : Json
  pub metadata : Json
  pub created_at_ms : ℕ

pub record Appended : Type 0 where
  pub inserted : Bool
  pub context_seq : ℕ

pub data Mode : Type 0 where
  delta full : Mode

pub record Plan : Type 0 where
  pub role_id : Ident
  pub target_work_session_id : Ident
  pub from_seq : ℕ
  pub through_seq : ℕ
  pub entries : List LogEntry
  pub payload_hash : Text
  pub stable_marker : Text
  pub operation_id : Text
  pub mode : Mode
