-- ===== src/Remote/Devices.antt =====
-- packages/remote/device-store.ts: the devices of remote users, and the challenges by which they are
-- paired. An operation that throws inside its transaction leaves the tables as they were.
pub mod Laws
use agent_router.Prelude.{
  ℕ, ◌+◌, Bool, true, false, Option, none, some, List, [], ◌∷◌, ◌++◌, ◌&&◌, ◌||◌, not, ◌==◌, ltb,
  leb, min, max, one, any, all, update_where, length, Text, if◌then◌else◌,
}
use agent_router.Protocol.{Ident}

pub data Error : Type 0 where
  display_name_invalid kind_invalid scope_invalid challenge_invalid : Error
  pairing_invalid pairing_expired : Error
  constraint : Error

-- What a call returns, or the error that it throws.
pub data Answer {ℓ} (A : Type ℓ) : Type ℓ where
  threw : Error → Answer A
  gave : A → Answer A

pub data DeviceKind : Type 0 where
  desktop mobile : DeviceKind

pub data DeviceState : Type 0 where
  active revoked : DeviceState

pub data PairingState : Type 0 where
  pending consumed expired : PairingState

-- A row of `remote_devices`.
pub record Device : Type 0 where
  pub device_id : Ident
  pub display_name : Text
  pub kind : DeviceKind
  pub credential_hash : Ident
  pub scope : List Ident
  pub can_request_controller : Bool
  pub state : DeviceState
  pub created_at_ms : ℕ
  pub last_seen_ms : ℕ
  pub revoked_at_ms : Option ℕ

-- A row of `remote_pairings`.
pub record Pairing : Type 0 where
  pub pairing_id : Ident
  pub challenge_hash : Ident
  pub display_name : Text
  pub kind : DeviceKind
  pub scope : List Ident
  pub can_request_controller : Bool
  pub state : PairingState
  pub created_at_ms : ℕ
  pub expires_at_ms : ℕ
  pub consumed_at_ms : Option ℕ
  pub device_id : Option Ident

pub record Remote : Type 0 where
  pub devices : List Device
  pub pairings : List Pairing

-- SHA-256 of a text, the `trim` of a string, and the identifiers and secrets that `randomBytes`
-- makes for one call.
pub record Randomness : Type 0 where
  pub hash : Text → Ident
  pub trim : Text → Text
  pub id : Ident
  pub secret : Text

-- The input of `createPairing`: `kind` and `scope` are none where they are no kind and no list of
-- well-formed scopes, `ttl_ms` where it is no safe integer.
pub record PairingInput : Type 0 where
  pub display_name : Text
  pub kind : Option DeviceKind
  pub scope : Option (List Ident)
  pub can_request_controller : Bool
  pub ttl_ms : Option ℕ

-- `[...new Set(scope)]`: the first of each value, in order.
unfoldable pub distinct : List Ident → List Ident → List Ident
distinct seen [] = []
distinct seen (x ∷ xs) =
    let known = any (λ y. y == x) seen in
    let rest = distinct (x ∷ seen) xs in if known then rest else x ∷ rest

unfoldable pub normalize_scope : Option (List Ident) → Option (List Ident)
normalize_scope none = none
normalize_scope (some xs) = if leb (length xs) 32 then some (distinct [] xs) else none

abbrev pub ttl_of : Option ℕ → ℕ
ttl_of none = 300000
ttl_of (some n) = min (max n 30000) 900000

abbrev pub is_blank : Text → Bool
is_blank [] = true
is_blank (c ∷ t) = false

abbrev pub pairing_of : Randomness → ℕ → PairingInput → DeviceKind → List Ident → Pairing
pairing_of w now input kind scope = record {
  pairing_id = w.id;
  challenge_hash = w.hash w.secret;
  display_name = w.trim input.display_name;
  kind = kind;
  scope = scope;
  can_request_controller = input.can_request_controller;
  state = PairingState.pending;
  created_at_ms = now;
  expires_at_ms = now + ttl_of input.ttl_ms;
  consumed_at_ms = none;
  device_id = none;
}

-- The keys that the schema makes unique.
abbrev pub pairing_clashes : Randomness → Pairing → Bool
pairing_clashes w p = p.pairing_id == w.id || p.challenge_hash == w.hash w.secret

abbrev pub device_clashes : Randomness → Device → Bool
device_clashes w d = d.device_id == w.id || d.credential_hash == w.hash w.secret

-- The challenge is returned, and only its hash is kept.
unfoldable pub create_pairing : Randomness → ℕ → PairingInput → Remote → Answer (Text × Remote)
create_pairing w now input s =
    if is_blank (w.trim input.display_name) || ltb 80 (length input.display_name)
    then threw Error.display_name_invalid
    else elim input.kind [
      | none ↦ threw Error.kind_invalid
      | some kind ↦ elim (normalize_scope input.scope) [
        | none ↦ threw Error.scope_invalid
        | some scope ↦
            if any (pairing_clashes w) s.pairings
            then threw Error.constraint
            else gave (
              w.secret,
              record s { pairings = s.pairings ++ pairing_of w now input kind scope ∷ [] },
            )
      ]
    ]

abbrev pub is_pending : PairingState → Bool
is_pending PairingState.pending = true
is_pending _ = false

abbrev pub use_pairing : Ident → ℕ → Pairing → Pairing
use_pairing device now p = record p {
  state = PairingState.consumed;
  consumed_at_ms = some now;
  device_id = some device;
}

abbrev pub device_of : Randomness → ℕ → Pairing → Device
device_of w now p = record {
  device_id = w.id;
  display_name = p.display_name;
  kind = p.kind;
  credential_hash = w.hash w.secret;
  scope = p.scope;
  can_request_controller = p.can_request_controller;
  state = DeviceState.active;
  created_at_ms = now;
  last_seen_ms = now;
  revoked_at_ms = none;
}

-- The new device, with the token that is returned once.
abbrev pub enrol : Randomness → ℕ → Pairing → Remote → (Ident × Text) × Remote
enrol w now p s = (
  (w.id, w.secret),
  record s {
    devices = s.devices ++ device_of w now p ∷ [];
    pairings = update_where (λ q. q.pairing_id == p.pairing_id) (use_pairing w.id now) s.pairings;
  },
)

-- An expired pairing is refused; the state that the code writes for it is rolled back by the throw.
unfoldable pub consume_pairing : Randomness → Text → ℕ → Remote → Answer ((Ident × Text) × Remote)
consume_pairing w challenge now s =
    if leb 12 (length challenge) && leb (length challenge) 128
    then elim (one (λ p. p.challenge_hash == w.hash challenge) s.pairings) [
      | none ↦ threw Error.pairing_invalid
      | some p ↦
          if is_pending p.state
          then (if leb p.expires_at_ms now
              then threw Error.pairing_expired
              else (if any (device_clashes w) s.devices
                  then threw Error.constraint
                  else gave (enrol w now p s)))
          else threw Error.pairing_invalid
    ]
    else threw Error.challenge_invalid

abbrev pub is_active_device : DeviceState → Bool
is_active_device DeviceState.active = true
is_active_device DeviceState.revoked = false

abbrev pub seen_at : ℕ → Device → Device
seen_at now d = record d { last_seen_ms = now }

-- `null`, or the device as it is now.
unfoldable pub authenticate : (Text → Ident) → Text → ℕ → Remote → Option Device × Remote
authenticate hash token now s =
    if leb 24 (length token) && leb (length token) 256
    then elim (one (λ d. d.credential_hash == hash token) s.devices) [
      | none ↦ (none, s)
      | some d ↦
          if is_active_device d.state
          then (
            some (seen_at now d),
            record s {
              devices = update_where (λ e. e.device_id == d.device_id) (seen_at now) s.devices;
            },
          )
          else (none, s)
    ]
    else (none, s)

abbrev pub revoke_at : ℕ → Device → Device
revoke_at now d = record d { state = DeviceState.revoked; revoked_at_ms = some now }

abbrev pub can_be_revoked : Ident → Device → Bool
can_be_revoked id d = d.device_id == id && is_active_device d.state

-- Whether a row has changed: the key is unique, so one at most does.
unfoldable pub revoke : Ident → ℕ → Remote → Bool × Remote
revoke id now s = (
  any (can_be_revoked id) s.devices,
  record s { devices = update_where (can_be_revoked id) (revoke_at now) s.devices },
)

-- Any use of the store.
pub data Step : Type 0 where
  pair : Randomness → ℕ → PairingInput → Step
  consumes : Randomness → Text → ℕ → Step
  authenticates : (Text → Ident) → Text → ℕ → Step
  revokes : Ident → ℕ → Step

abbrev pub kept_by {ℓ} : {A : Type ℓ} → Remote → Answer (A × Remote) → Remote
kept_by s (gave (a, s')) = s'
kept_by s (threw e) = s

unfoldable pub step : Step → Remote → Remote
step (Step.pair w now input) s = kept_by s (create_pairing w now input s)
step (Step.consumes w challenge now) s = kept_by s (consume_pairing w challenge now s)
step (Step.authenticates hash token now) s = (authenticate hash token now s).1
step (Step.revokes id now) s = (revoke id now s).1

unfoldable pub steps : List Step → Remote → Remote
steps [] s = s
steps (t ∷ ts) s = steps ts (step t s)
