-- ===== src/RoleContext/Store.antt =====
-- The class `RoleContextStore`. An operation that throws leaves the tables as
-- they were: all write in transactions, but for the row of a head at 0, which says what no row says.
mod Rows
mod Log
mod Payloads
pub mod Numbered
pub mod Ensures
pub mod Sync
pub mod Split
pub mod Growth
pub mod Lasting
pub mod Delta
pub mod Refinement
pub mod Seen
pub mod Once
pub mod Runs
unfoldable pub use Rows.*
unfoldable pub use Log.*
unfoldable pub use Payloads.*
use agent_router.Prelude.{
  ℕ, suc, ◌+◌, ◌≤◌, Bool, true, false, Option, none, some, List, [], ◌∷◌, ◌++◌, ◌&&◌, ◌||◌, not,
  ◌==◌, ltb, leb, holds, one, any, select, update_where, max, is_some, Text, text_eq, if◌then◌else◌,
}
use agent_router.Protocol.{Ident}
use agent_router.Json.{Json, Fields, canonical}
use agent_router.RoleContext.Portable.{Limits, Verdict, Refused, assert_portable}

unfoldable pub origins_of : List LogEntry → List (ℕ × Origin)
origins_of [] = []
origins_of (x ∷ xs) = (x.context_seq, x.origin) ∷ origins_of xs

abbrev pub plan_from : Tools → Mode → Ident → Ident → Text → ℕ → ℕ → List LogEntry → Plan
plan_from w mode role_id target op from through xs =
    let hash = payload_hash_of w (record {
      role_id = role_id;
      target_work_session_id = target;
      from_seq = from;
      through_seq = through;
      origins = origins_of xs;
    }) in
    record {
      role_id = role_id;
      target_work_session_id = target;
      from_seq = from;
      through_seq = through;
      entries = xs;
      payload_hash = hash;
      stable_marker = marker_of op hash;
      operation_id = op;
      mode = mode;
    }

abbrev pub state_of : Ident → Context → Option SessionState
state_of session s = one (λ t. t.role_session_id == session) s.states

abbrev pub start_of : Mode → SessionState → ℕ
start_of Mode.delta t = t.synced_through_seq
start_of Mode.full t = 0

-- `planDelta` and `planFull`: `head` inserts the row of the role's head if it is missing.
unfoldable pub plan : Tools → Mode → Ident → Ident → Text → Context → Reply (Plan × Context)
plan w mode role_id target op s = do
  t ← found (state_of target s) StoreError.state_not_found
  check (t.role_id == role_id) StoreError.session_not_found
  s₁ ← ensure_role role_id s
  xs ← entries_of role_id (start_of mode t) (head_of role_id s₁) target s₁
  done (plan_from w mode role_id target op (start_of mode t) (head_of role_id s₁) xs, s₁)

abbrev pub receipt_of : Text → Context → Option Receipt
receipt_of op s = one (λ r. text_eq r.operation_id op) s.receipts

abbrev pub prepared_from : Plan → Receipt
prepared_from p = record {
  operation_id = p.operation_id;
  role_id = p.role_id;
  target_work_session_id = p.target_work_session_id;
  from_seq = p.from_seq;
  through_seq = p.through_seq;
  payload_hash = p.payload_hash;
  stable_marker = p.stable_marker;
  state = ReceiptState.prepared;
  native_receipt = none;
}

-- What a caller is shown of a receipt: its row, and the fidelity of its session once confirmed.
abbrev pub shown_fidelity : ReceiptState → Option SessionState → Fidelity
shown_fidelity ReceiptState.confirmed (some t) = t.fidelity
shown_fidelity ReceiptState.confirmed none = Fidelity.unknown
shown_fidelity ReceiptState.prepared t = Fidelity.unknown
shown_fidelity ReceiptState.failed t = Fidelity.unknown

abbrev pub show : Receipt → Context → Receipt × Fidelity
show r s = (r, shown_fidelity r.state (state_of r.target_work_session_id s))

-- A plan is one that `plan` returned, with its range in order.
unfoldable pub prepare : Plan → Context → Reply ((Receipt × Fidelity) × Context)
prepare p s = elim (receipt_of p.operation_id s) [
  | some r ↦
      if text_eq r.payload_hash p.payload_hash
        && r.target_work_session_id == p.target_work_session_id
      then done (show r s, s)
      else throws StoreError.operation_conflict
  | none ↦
      let s' : Context = record s { receipts = s.receipts ++ prepared_from p ∷ [] } in
      done (show (prepared_from p) s', s')
]

abbrev pub set_confirmed : Json → Receipt → Receipt
set_confirmed native r = record r { state = ReceiptState.confirmed; native_receipt = some native }

abbrev pub is_prepared : ReceiptState → Bool
is_prepared ReceiptState.prepared = true
is_prepared _ = false

abbrev pub is_confirmed : ReceiptState → Bool
is_confirmed ReceiptState.confirmed = true
is_confirmed _ = false

abbrev pub advance : ℕ → Option Json → Fidelity → SessionState → SessionState
advance through cursor f t = record t {
  synced_through_seq = max t.synced_through_seq through;
  native_history_cursor = elim cursor [ none ↦ t.native_history_cursor | some c ↦ some c ];
  fidelity = f;
}

-- The writes of a confirmation, and the receipt as it is then.
abbrev pub confirm_writes : Receipt → Json → Fidelity → Option Json → Context → Context
confirm_writes r native f cursor s = record s {
  receipts =
      update_where (λ q. text_eq q.operation_id r.operation_id && is_prepared q.state)
        (set_confirmed native) s.receipts;
  states =
      update_where (λ t. t.role_session_id == r.target_work_session_id)
        (advance r.through_seq cursor f) s.states;
}

-- The key `marker`.
abbrev pub marker_key : Text
marker_key = 109 ∷ 97 ∷ 114 ∷ 107 ∷ 101 ∷ 114 ∷ []

abbrev pub string_of : Json → Option Text
string_of (Json.string t) = some t
string_of _ = none

unfoldable pub marker_field : Fields → Option Text
marker_field Fields.no_field = none
marker_field (Fields.field k j fs) =
    let rest = marker_field fs in if text_eq k marker_key then string_of j else rest

abbrev pub native_marker : Json → Option Text
native_marker (Json.object fs) = marker_field fs
native_marker _ = none

abbrev pub is_marker : Option Text → Text → Bool
is_marker none m = false
is_marker (some t) m = text_eq t m

unfoldable pub confirm :
    Tools → Text → Json → Fidelity → Option Json → Context → Reply ((Receipt × Fidelity) × Context)
confirm w op native f cursor s = do
  assert_fine (assert_portable w.limits native)
  r ← found (receipt_of op s) StoreError.operation_not_found
  elim r.state [
    | ReceiptState.confirmed ↦ done (show r s, s)
    | ReceiptState.failed ↦ throws StoreError.operation_failed
    | ReceiptState.prepared ↦ (do
      check (is_marker (native_marker native) r.stable_marker) StoreError.marker_mismatch
      found (state_of r.target_work_session_id s) StoreError.state_not_found
      let s' : Context = confirm_writes r native f cursor s
      done (show (set_confirmed native r) s', s'))
  ]

abbrev pub includes : List Text → Text → Bool
includes [] m = false
includes (x ∷ xs) m = text_eq x m || includes xs m

-- `{ marker: row.stable_marker }`
abbrev pub marker_object : Text → Json
marker_object m = Json.object (Fields.field marker_key (Json.string m) Fields.no_field)

abbrev pub some_receipt :
    Reply ((Receipt × Fidelity) × Context) → Reply (Option (Receipt × Fidelity) × Context)
some_receipt (done (r, s)) = done (some r, s)
some_receipt (throws e) = throws e

-- After a restart: an operation whose marker is in the native history is confirmed.
unfoldable pub reconcile :
    Tools → Text → List Text → Context → Reply (Option (Receipt × Fidelity) × Context)
reconcile w op native_markers s = elim (receipt_of op s) [
  | none ↦ done (none, s)
  | some r ↦
      if not (is_confirmed r.state) && includes native_markers r.stable_marker
      then some_receipt (confirm w op (marker_object r.stable_marker) Fidelity.exact none s)
      else done (some (show r s), s)
]
