-- ===== src/Remote/Devices/Laws.antt =====
-- A challenge is used once, a pairing gives a device that can be authenticated, and a revoked device
-- cannot.
use agent_router.Prelude.{
  ℕ, ◌+◌, ◌≤◌, ◌<◌, Bool, true, false, none, some, List, [], ◌∷◌, ◌++◌, ◌==◌, ◌≡◌, ◌≢◌, ◌⊎◌, refl,
  arith, one, any, length, Text, ==-refl, Option-cases, Bool-cases, ◌&&◌, leb, update_where, inl,
  inr, ◌∙◌, subst,
}
use agent_router.Prelude.Laws.{
  one-update_where, one-append, one-any, any-update_where_keeps, any-update_where-false,
  any-append_false, any-update_where, one-append_none,
}
use agent_router.Protocol.{Ident}
use agent_router.Remote.Devices.{
  Error, Answer, threw, gave, DeviceKind, Device, Pairing, Remote, Randomness, pairing_clashes,
  device_clashes, PairingInput, create_pairing, consume_pairing, authenticate, revoke, enrol,
  use_pairing, device_of, pairing_of, is_pending, is_active_device, seen_at, revoke_at,
  can_be_revoked, Step, step, steps, normalize_scope, is_blank, ttl_of,
}

Answer-cases {ℓ} :
    {A : Type ℓ} (m : Answer A) → ((e : Error) × (m ≡ threw e)) ⊎ ((a : A) × (m ≡ gave a))
Answer-cases (threw e) = inl (e, refl)
Answer-cases (gave a) = inr (a, refl)

-- What a pairing that is consumed was.
consume_pairing-eq-gave :
    (w : Randomness) (challenge : Text) (now : ℕ) (s : Remote) {r : Ident × Text} {s' : Remote}
    → consume_pairing w challenge now s ≡ gave (r, s')
    → (p : Pairing) × (one (λ p. p.challenge_hash == w.hash challenge) s.pairings ≡ some p)
      × (is_pending p.state ≡ true)
      × (now < p.expires_at_ms)
      × ((leb 12 (length challenge) && leb (length challenge) 128) ≡ true)
      × (enrol w now p s ≡ (r, s'))
unfolding consume_pairing
consume_pairing-eq-gave w challenge now s {r} {s'} h =
    elim (Option-cases (one (λ p. p.challenge_hash == w.hash challenge) s.pairings)) [
      | inl e ↦ absurd (ground arith)
      | inr (p, e) ↦ (p, e, ground arith, ground arith, ground arith, ground arith)
    ]

-- The pairing that a hash stands for is not pending any more.
abbrev Used : Ident → Remote → Type 0
Used h s =
    (q : Pairing) × (one (λ p. p.challenge_hash == h) s.pairings ≡ some q)
    × (is_pending q.state ≡ false)

use_pairing-Used :
    (h id device : Ident) (now : ℕ) (s : Remote) (ds : List Device)
    → Used h s
    → Used h (record {
      devices = ds;
      pairings = update_where (λ q. q.pairing_id == id) (use_pairing device now) s.pairings;
    })
use_pairing-Used h id device now s ds (q, found, off) =
    let u =
      one-update_where (λ q. q.challenge_hash == h) (λ q. q.pairing_id == id)
        (use_pairing device now) s.pairings (λ q. refl) in
    elim (Bool-cases (q.pairing_id == id)) [
      | inl e ↦ (use_pairing device now q, ground arith, refl)
      | inr e ↦ (q, ground arith, off)
    ]

create-Used :
    (w : Randomness) (now : ℕ) (input : PairingInput) (h : Ident) (s : Remote) {a : Text}
    {s' : Remote}
    → create_pairing w now input s ≡ gave (a, s')
    → Used h s
    → Used h s'
unfolding create_pairing
create-Used w now input h s {a} {s'} e (q, found, off) = elim (Option-cases input.kind) [
  | inl n ↦ absurd (ground arith)
  | inr (kind, k) ↦ elim (Option-cases (normalize_scope input.scope)) [
    | inl n ↦ absurd (ground arith)
    | inr (scope, l) ↦
        let kept =
          one-append (λ p. p.challenge_hash == h) s.pairings
            (pairing_of w now input kind scope ∷ []) found in
        (q, ground arith, off)
  ]
]

step-Used : (t : Step) (h : Ident) (s : Remote) → Used h s → Used h (step t s)
unfolding step authenticate revoke
step-Used (Step.pair w now input) h s u = elim (Answer-cases (create_pairing w now input s)) [
  | inl (e, k) ↦ rw k u
  | inr ((a, s'), k) ↦ rw k (create-Used w now input h s k u)
]
step-Used (Step.consumes w challenge now) h s u =
    elim (Answer-cases (consume_pairing w challenge now s)) [
      | inl (e, k) ↦ rw k u
      | inr ((r, s'), k) ↦
          let (p, _, _, _, _, done) = consume_pairing-eq-gave w challenge now s k in
          rw k (
            subst (λ (x : (Ident × Text) × Remote). Used h x.1) done
              (use_pairing-Used h p.pairing_id w.id now s (s.devices ++ device_of w now p ∷ []) u))
    ]
step-Used (Step.authenticates hash token now) h s u =
    elim (Option-cases (one (λ d. d.credential_hash == hash token) s.devices)) [
      | inl e ↦ ground arith
      | inr (d, e) ↦ ground arith
    ]
step-Used (Step.revokes id now) h s u = u

steps-Used : (ts : List Step) (h : Ident) (s : Remote) → Used h s → Used h (steps ts s)
unfolding steps
steps-Used [] h s u = u
steps-Used (t ∷ ts) h s u = steps-Used ts h (step t s) (step-Used t h s u)

-- A challenge that has been consumed is refused ever after: after any further steps of the store,
-- by a call at any time that hashes the challenge alike.
pub consume_pairing_once :
    (w later : Randomness) (challenge : Text) (now then_ : ℕ) (s : Remote) (ts : List Step)
    {r : Ident × Text} {s' : Remote}
    → later.hash challenge ≡ w.hash challenge
    → consume_pairing w challenge now s ≡ gave (r, s')
    → consume_pairing later challenge then_ (steps ts s') ≡ threw Error.pairing_invalid
unfolding consume_pairing
consume_pairing_once w later challenge now then_ s ts {r} {s'} same h =
    let (p, found, _, _, long, done) = consume_pairing-eq-gave w challenge now s h in
    let u =
      one-update_where (λ q. q.challenge_hash == w.hash challenge)
        (λ q. q.pairing_id == p.pairing_id) (use_pairing w.id now) s.pairings (λ q. refl) in
    let used : Used (w.hash challenge) s' =
      (use_pairing w.id now p, ground (arith, ==-refl p.pairing_id), refl) in
    let (q, there, off) = steps-Used ts (w.hash challenge) s' used in
    let there_later : one (λ q. q.challenge_hash == later.hash challenge) (steps ts s').pairings
        ≡ some q =
      rw same there in
    ground arith

-- No active device has the identifier.
abbrev pub NoActive : Ident → Remote → Type 0
NoActive id s = any (can_be_revoked id) s.devices ≡ false

-- The steps enrol no device under the identifier.
abbrev pub enrols : Step → Ident → Bool
enrols (Step.pair w now input) id = false
enrols (Step.consumes w challenge now) id = w.id == id
enrols (Step.authenticates hash token now) id = false
enrols (Step.revokes other now) id = false

revoke-NoActive : (id : Ident) (now : ℕ) (s : Remote) → NoActive id (revoke id now s).1
unfolding revoke
revoke-NoActive id now s =
    any-update_where-false (can_be_revoked id) (can_be_revoked id) (revoke_at now) s.devices
      (λ d h. ground arith) (λ d h. h)

consume-NoActive :
    (w : Randomness) (challenge : Text) (now : ℕ) (id : Ident) (s : Remote) {r : Ident × Text}
    {s' : Remote}
    → (w.id == id) ≡ false
    → NoActive id s
    → consume_pairing w challenge now s ≡ gave (r, s')
    → NoActive id s'
unfolding any
consume-NoActive w challenge now id s {r} {s'} other n h =
    let (p, _, _, _, _, done) = consume_pairing-eq-gave w challenge now s h in
    subst (λ (x : (Ident × Text) × Remote). NoActive id x.1) done
      (any-append_false (can_be_revoked id) s.devices (device_of w now p ∷ []) n (ground arith))

authenticate-NoActive :
    (hash : Text → Ident) (token : Text) (now : ℕ) (id : Ident) (s : Remote)
    → NoActive id s
    → NoActive id (authenticate hash token now s).1
unfolding authenticate
authenticate-NoActive hash token now id s n =
    elim (Option-cases (one (λ d. d.credential_hash == hash token) s.devices)) [
      | inl e ↦ ground arith
      | inr (d, e) ↦
          let seen =
            any-update_where (can_be_revoked id) (λ f. f.device_id == d.device_id) (seen_at now)
              s.devices (λ f. refl) in
          ground arith
    ]

revoke-keeps :
    (other : Ident) (now : ℕ) (id : Ident) (s : Remote)
    → NoActive id s
    → NoActive id (revoke other now s).1
unfolding revoke
revoke-keeps other now id s n =
    any-update_where_keeps (can_be_revoked id) (can_be_revoked other) (revoke_at now) s.devices
      (λ d. ground arith) n

create-keeps :
    (w : Randomness) (now : ℕ) (input : PairingInput) (s : Remote) {a : Text} {s' : Remote}
    → create_pairing w now input s ≡ gave (a, s')
    → s'.devices ≡ s.devices
unfolding create_pairing
create-keeps w now input s {a} {s'} h = ground arith

step-NoActive :
    (t : Step) (id : Ident) (s : Remote)
    → enrols t id ≡ false
    → NoActive id s
    → NoActive id (step t s)
unfolding step
step-NoActive (Step.pair w now input) id s other n =
    elim (Answer-cases (create_pairing w now input s)) [
      | inl (e, h) ↦ rw h n
      | inr ((a, s'), h) ↦ rw h (rw (create-keeps w now input s h) n)
    ]
step-NoActive (Step.consumes w challenge now) id s other n =
    elim (Answer-cases (consume_pairing w challenge now s)) [
      | inl (e, h) ↦ rw h n
      | inr ((r, s'), h) ↦ rw h (consume-NoActive w challenge now id s other n h)
    ]
step-NoActive (Step.authenticates hash token now) id s other n =
    authenticate-NoActive hash token now id s n
step-NoActive (Step.revokes rid now) id s other n = revoke-keeps rid now id s n

steps-NoActive :
    (ts : List Step) (id : Ident) (s : Remote)
    → any (λ t. enrols t id) ts ≡ false
    → NoActive id s
    → NoActive id (steps ts s)
unfolding steps any
steps-NoActive [] id s other n = n
steps-NoActive (t ∷ ts) id s other n =
    steps-NoActive ts id (step t s) (ground arith) (step-NoActive t id s (ground arith) n)

-- A device that authenticates is an active one of the table.
authenticate-eq-some :
    (hash : Text → Ident) (token : Text) (now : ℕ) (s : Remote) {d : Device} {s' : Remote}
    → authenticate hash token now s ≡ (some d, s')
    → (e : Device) × (one (λ d. d.credential_hash == hash token) s.devices ≡ some e)
      × (is_active_device e.state ≡ true)
      × (d ≡ seen_at now e)
unfolding authenticate
authenticate-eq-some hash token now s {d} {s'} h =
    elim (Option-cases (one (λ d. d.credential_hash == hash token) s.devices)) [
      | inl e ↦ absurd (ground arith)
      | inr (e, found) ↦ (e, found, ground arith, ground arith)
    ]

-- Once a device is revoked, no token authenticates as it, after any further use of the store that
-- enrols no device under its identifier again.
pub revoke-authenticate :
    (id : Ident) (now : ℕ) (s : Remote) (ts : List Step) (hash : Text → Ident) (token : Text)
    (later : ℕ) {d : Device} {s' : Remote}
    → any (λ t. enrols t id) ts ≡ false
    → authenticate hash token later (steps ts (revoke id now s).1) ≡ (some d, s')
    → d.device_id ≢ id
revoke-authenticate id now s ts hash token later {d} {s'} other h same =
    let n = steps-NoActive ts id (revoke id now s).1 other (revoke-NoActive id now s) in
    let (e, found, is_active, shown) =
      authenticate-eq-some hash token later (steps ts (revoke id now s).1) h in
    let off =
      one-any (λ d. d.credential_hash == hash token) (can_be_revoked id)
        (steps ts (revoke id now s).1).devices found n in
    absurd (ground (arith, ==-refl id))

-- A row that is inserted is found where none was.
one_insert :
    {A : Type 0} (p : A → Bool) (xs : List A) (y : A)
    → one p xs ≡ none
    → p y ≡ true
    → one p (xs ++ y ∷ []) ≡ some y
unfolding one
one_insert p xs y h k = one-append_none p xs (y ∷ []) h ∙ ground arith

-- A weaker test that no row passes, and a stronger one that finds none.
one_of_any :
    {A : Type 0} (p q : A → Bool) (xs : List A)
    → ((x : A) → q x ≡ true → p x ≡ true)
    → any p xs ≡ false
    → one q xs ≡ none
unfolding one any
one_of_any p q [] h k = refl
one_of_any p q (x ∷ xs) h k = ground (arith, h x, one_of_any p q xs h)

-- A pairing that is created is consumed by its challenge before it expires, and the token that this
-- returns authenticates an active device under the new identifier, with the trimmed name, the kind,
-- the scope without repetitions and the right to ask for control that the pairing was created with,
-- created at the consumption and last seen at the authentication: where the input is well formed,
-- the secrets are of the length that the code makes, both calls hash the challenge alike, and the
-- identifiers and hashes of the challenge and of the token are not in the tables already.
pub pairing_round_trip :
    (w v : Randomness) (now then_ later : ℕ) (input : PairingInput) (kind : DeviceKind)
    (scope : List Ident) (s : Remote)
    → is_blank (w.trim input.display_name) ≡ false
    → length input.display_name ≤ 80
    → input.kind ≡ some kind
    → normalize_scope input.scope ≡ some scope
    → length w.secret ≡ 20
    → length v.secret ≡ 43
    → v.hash w.secret ≡ w.hash w.secret
    → then_ < now + ttl_of input.ttl_ms
    → any (pairing_clashes w) s.pairings ≡ false
    → any (device_clashes v) s.devices ≡ false
    → (s₁ : Remote) × (s₂ : Remote) × (s₃ : Remote) × (create_pairing w now input s
        ≡ gave (w.secret, s₁))
      × (consume_pairing v w.secret then_ s₁ ≡ gave ((v.id, v.secret), s₂))
      × ((d : Device) × (authenticate v.hash v.secret later s₂ ≡ (some d, s₃))
          × (d.device_id ≡ v.id)
          × (d.display_name ≡ w.trim input.display_name)
          × (d.kind ≡ kind)
          × (d.scope ≡ scope)
          × (d.can_request_controller ≡ input.can_request_controller)
          × (is_active_device d.state ≡ true)
          × (d.created_at_ms ≡ then_)
          × (d.last_seen_ms ≡ later))
unfolding create_pairing consume_pairing authenticate
pairing_round_trip w v now then_ later input kind scope s named short of_kind scoped long token_long
      same early new_challenge new_token =
    let p = pairing_of w now input kind scope in
    let s₁ : Remote = record s { pairings = s.pairings ++ p ∷ [] } in
    let s₂ : Remote = (enrol v then_ p s₁).1 in
    let found : one (λ q. q.challenge_hash == v.hash w.secret) s₁.pairings ≡ some p = rw same (
      one_insert (λ q. q.challenge_hash == w.hash w.secret) s.pairings p
        (one_of_any (pairing_clashes w) (λ q. q.challenge_hash == w.hash w.secret) s.pairings
          (λ q k. ground arith) new_challenge)
        (==-refl (w.hash w.secret))) in
    let device : one (λ d. d.credential_hash == v.hash v.secret) s₂.devices
        ≡ some (device_of v then_ p) =
      one_insert (λ d. d.credential_hash == v.hash v.secret) s.devices (device_of v then_ p)
        (one_of_any (device_clashes v) (λ d. d.credential_hash == v.hash v.secret) s.devices
          (λ d k. ground arith) new_token)
        (==-refl (v.hash v.secret)) in
    (
      s₁,
      s₂,
      (authenticate v.hash v.secret later s₂).1,
      ground arith,
      ground arith,
      (
        seen_at later (device_of v then_ p),
        ground arith,
        refl,
        refl,
        refl,
        refl,
        refl,
        refl,
        refl,
        refl,
      ),
    )
