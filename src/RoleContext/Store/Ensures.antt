-- ===== src/RoleContext/Store/Ensures.antt =====
-- What `ensureRole` and `ensureSession` write, and the inversion of `append`.
use agent_router.Prelude.{
  Bool, true, Option, none, some, List, [], ◌∷◌, ◌==◌, ◌≡◌, ◌⊎◌, inl, inr, refl, arith, one, any,
  Option-cases, Bool-cases, ==-refl, sym, subst, is_some,
}
use agent_router.Prelude.Laws.{any-append_last, one-append, one-append_none}
use agent_router.Protocol.{Ident}
use agent_router.RoleContext.Store.{
  Context, Reply, done, throws, StoreError, Head, NewEntry, Appended, Tools, ensure_role,
  ensure_session, with_head, head_of, append, write,
}

pub Reply-cases {ℓ} :
    {A : Type ℓ} (m : Reply A) → ((a : A) × (m ≡ done a)) ⊎ ((e : StoreError) × (m ≡ throws e))
Reply-cases (done a) = inl (a, refl)
Reply-cases (throws e) = inr (e, refl)

-- What a step that only makes rows ready leaves alone.
pub record Readies (s s' : Context) : Type 0 where
  pub roles : s'.roles ≡ s.roles
  pub sessions : s'.sessions ≡ s.sessions
  pub entries : s'.entries ≡ s.entries
  pub receipts : s'.receipts ≡ s.receipts
  pub head : (r : Ident) → head_of r s' ≡ head_of r s

-- A row that the test does not find, and one more row.
pub any-one {ℓ} : {A : Type ℓ} (p : A → Bool) (xs : List A) → any p xs ≡ is_some (one p xs)
unfolding any one
any-one p [] = refl
any-one p (x ∷ xs) = ground (arith, any-one p xs)

with_head-head :
    (role_id r : Ident) (s : Context)
    → head_of r (record s { heads = with_head role_id s.heads }) ≡ head_of r s
unfolding head_of one
with_head-head role_id r s = elim (Bool-cases (any (λ h. h.role_id == role_id) s.heads)) [
  | inl e ↦ rw e refl
  | inr e ↦ elim (Option-cases (one (λ h. h.role_id == r) s.heads)) [
    | inl n ↦
        let k =
          one-append_none (λ h. h.role_id == r) s.heads
            (record { role_id = role_id; head_seq = 0 } ∷ []) n in
        ground arith
    | inr (h, n) ↦
        let k =
          one-append (λ h. h.role_id == r) s.heads (record { role_id = role_id; head_seq = 0 } ∷ [])
            n in
        ground arith
  ]
]

has_head :
    (role_id : Ident) (hs : List Head)
    → any (λ h. h.role_id == role_id) (with_head role_id hs) ≡ true
has_head role_id hs = elim (Bool-cases (any (λ h. h.role_id == role_id) hs)) [
  | inl e ↦ rw e e
  | inr e ↦ rw e (any-append_last (λ h. h.role_id == role_id) hs (==-refl role_id))
]

pub ensure_role-eq-done :
    (role_id : Ident) (s : Context) {s' : Context}
    → ensure_role role_id s ≡ done s'
    → (s' ≡ record s { heads = with_head role_id s.heads })
      × (any (λ r. r == role_id) s.roles ≡ true)
unfolding ensure_role
ensure_role-eq-done role_id s h = (ground arith, ground arith)

pub ensure_role-Readies :
    (role_id : Ident) (s : Context) {s' : Context}
    → ensure_role role_id s ≡ done s'
    → Readies s s' × (any (λ h. h.role_id == role_id) s'.heads ≡ true) × (s'.states ≡ s.states)
ensure_role-Readies role_id s {s'} h =
    let (e, _) = ensure_role-eq-done role_id s h in
    subst
      (λ (d : Context).
        Readies s d × (any (λ h. h.role_id == role_id) d.heads ≡ true) × (d.states ≡ s.states))
      (sym e)
      (
        record {
          roles = refl;
          sessions = refl;
          entries = refl;
          receipts = refl;
          head = λ r. with_head-head role_id r s;
        },
        has_head role_id s.heads,
        refl,
      )

pub ensure_session-eq-done :
    (role_id : Ident) (session : Option Ident) (s : Context) {s' : Context}
    → ensure_session role_id session s ≡ done s'
    → s' ≡ record s { states = s'.states }
unfolding ensure_session
ensure_session-eq-done role_id none s h = ground arith
ensure_session-eq-done role_id (some e) s h = ground arith

pub ensure_session-Readies :
    (role_id : Ident) (session : Option Ident) (s : Context) {s' : Context}
    → ensure_session role_id session s ≡ done s'
    → Readies s s' × (s'.heads ≡ s.heads)
ensure_session-Readies role_id session s {s'} h =
    subst (λ (d : Context). Readies s d × (d.heads ≡ s.heads))
      (sym (ensure_session-eq-done role_id session s h))
      (
        record {
          roles = refl;
          sessions = refl;
          entries = refl;
          receipts = refl;
          head = λ r. unfold head_of in refl;
        },
        refl,
      )

-- The steps of an append that succeeds.
pub append-eq-done :
    (w : Tools) (e : NewEntry) (s : Context) {a : Appended} {s' : Context}
    → append w e s ≡ done (a, s')
    → (s₁ s₂ : Context) × (ensure_role e.role_id s ≡ done s₁)
      × (ensure_session e.role_id e.source_work_session_id s₁ ≡ done s₂)
      × (write w e s₂ ≡ (a, s'))
unfolding append
append-eq-done w e s {a} {s'} h = elim (Reply-cases (ensure_role e.role_id s)) [
  | inr (_, e₁) ↦ absurd (ground arith)
  | inl (s₁, e₁) ↦ elim (Reply-cases (ensure_session e.role_id e.source_work_session_id s₁)) [
    | inr (_, e₂) ↦ absurd (ground arith)
    | inl (s₂, e₂) ↦ (s₁, s₂, e₁, e₂, ground arith)
  ]
]
