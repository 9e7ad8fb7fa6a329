-- ===== src/Examples/Devices.antt =====
-- The theorems on remote devices, each applied to an empty store.
use agent_router.Prelude.{
  ℕ, zero, suc, true, false, Option, none, some, List, [], ◌∷◌, ◌≡◌, ◌≢◌, refl, arith, one, any,
  update_where, length, Text,
}
use agent_router.Protocol.{Ident}
use agent_router.Remote.Devices.{
  Error, threw, gave, DeviceKind, Device, DeviceState, Remote, Randomness, PairingInput,
  create_pairing, consume_pairing, authenticate, revoke, kept_by, normalize_scope, distinct,
  is_active_device, Step, step, steps,
}
use agent_router.Remote.Devices.Laws.{consume_pairing_once, revoke-authenticate, pairing_round_trip}

-- A text of a given length.
abbrev letters : ℕ → Text
letters zero = []
letters (suc n) = 97 ∷ letters n

abbrev nobody : Remote
nobody = record { devices = []; pairings = [] }

abbrev phone : PairingInput
phone = record {
  display_name = 80 ∷ [];
  kind = some DeviceKind.mobile;
  scope = some (5 ∷ 6 ∷ 5 ∷ []);
  can_request_controller = false;
  ttl_ms = none;
}

-- A text hashes to its length.
abbrev makes : Ident → ℕ → Randomness
makes id n = record { hash = λ t. length t; trim = λ t. t; id = id; secret = letters n }

abbrev paired : Remote
paired = kept_by nobody (create_pairing (makes 1 20) 1000 phone nobody)

abbrev enrolled : Remote
enrolled = kept_by paired (consume_pairing (makes 2 43) (letters 20) 2000 paired)

consumes_it :
    consume_pairing (makes 2 43) (letters 20) 2000 paired ≡ gave ((2, letters 43), enrolled)
unfolding create_pairing consume_pairing normalize_scope distinct one any update_where
consumes_it = refl

-- A second pairing, a refused and an accepted token, and a revocation.
abbrev meanwhile : List Step
meanwhile =
    Step.pair (makes 4 21) 2100 phone
    ∷ Step.consumes (makes 5 44) (letters 21) 2200
    ∷ Step.authenticates (λ t. length t) (letters 44) 2300
    ∷ Step.revokes 2 2400
    ∷ []

consume_pairing_once_example :
    consume_pairing (makes 3 43) (letters 20) 2500 (steps meanwhile enrolled)
    ≡ threw Error.pairing_invalid
consume_pairing_once_example =
    consume_pairing_once (makes 2 43) (makes 3 43) (letters 20) 2000 2500 paired meanwhile refl
      consumes_it

pairing_round_trip_example :
    (s₁ : Remote) × (s₂ : Remote) × (s₃ : Remote) × (create_pairing (makes 1 20) 1000 phone nobody
      ≡ gave (letters 20, s₁))
    × (consume_pairing (makes 2 43) (letters 20) 2000 s₁ ≡ gave ((2, letters 43), s₂))
    × ((d : Device) × (authenticate (λ t. length t) (letters 43) 3000 s₂ ≡ (some d, s₃))
        × (d.device_id ≡ 2)
        × (d.display_name ≡ 80 ∷ [])
        × (d.kind ≡ DeviceKind.mobile)
        × (d.scope ≡ 5 ∷ 6 ∷ [])
        × (d.can_request_controller ≡ false)
        × (is_active_device d.state ≡ true)
        × (d.created_at_ms ≡ 2000)
        × (d.last_seen_ms ≡ 3000))
unfolding normalize_scope distinct one any
pairing_round_trip_example =
    pairing_round_trip (makes 1 20) (makes 2 43) 1000 2000 3000 phone DeviceKind.mobile (5 ∷ 6 ∷ [])
      nobody refl (omega arith) refl refl refl refl refl (omega arith) refl refl

-- Another device is enrolled after the first one is revoked, and authenticates.
abbrev after_it : List Step
after_it =
    Step.pair (makes 4 20) 4000 phone
    ∷ Step.revokes 2 4500
    ∷ Step.consumes (makes 7 44) (letters 20) 5000
    ∷ []

abbrev twice : Remote
twice = record enrolled { pairings = [] }

abbrev answer_of : Option Device × Remote → Device
answer_of (some d, s) = d
answer_of (none, s) = record {
  device_id = 2;
  display_name = [];
  kind = DeviceKind.mobile;
  credential_hash = 0;
  scope = [];
  can_request_controller = false;
  state = DeviceState.active;
  created_at_ms = 0;
  last_seen_ms = 0;
  revoked_at_ms = none;
}

abbrev at_last : Option Device × Remote
at_last = authenticate (λ t. length t) (letters 44) 6000 (steps after_it (revoke 2 3000 twice).1)

answers : at_last ≡ (some (answer_of at_last), at_last.1)
unfolding step steps create_pairing consume_pairing authenticate revoke normalize_scope distinct one
    any update_where
answers = refl

revoke-authenticate_example : (answer_of at_last).device_id ≢ 2
unfolding any
revoke-authenticate_example =
    revoke-authenticate 2 3000 twice after_it (λ t. length t) (letters 44) 6000 refl answers
