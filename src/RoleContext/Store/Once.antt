-- ===== src/RoleContext/Store/Once.antt =====
-- The entry that an append leaves, and an append that finds its entry.
use agent_router.Prelude.{
  ℕ, suc, Bool, true, false, Option, none, some, List, [], ◌∷◌, ◌&&◌, ◌==◌, ltb, ◌≡◌, inl, inr,
  refl, arith, subst, ◌∙◌, any, one, Bool-cases, Option-cases, ==-refl, text_eq_refl,
}
use agent_router.Prelude.Laws.{any-append_last, any-update_where, one-append_none}
use agent_router.Protocol.{Ident}
use agent_router.Json.{canonical}
use agent_router.RoleContext.Store.{
  Context, done, NewEntry, Appended, Tools, SessionState, Head, LogEntry, PortableKind, append,
  write, ensure_role, ensure_session, with_state, same_entry, insert_entry, entry_at, head_of,
  raise, rank,
}
use agent_router.RoleContext.Store.Ensures.{
  Readies, append-eq-done, ensure_role-eq-done, ensure_role-Readies, ensure_session-Readies,
}

-- The rows that an append of the role and session finds ready.
unfoldable pub role_ready : Ident → Context → Bool
role_ready r s = any (λ x. x == r) s.roles && any (λ h. h.role_id == r) s.heads

unfoldable pub session_ready : Ident → Option Ident → Context → Bool
session_ready r none s = true
session_ready r (some e) s =
    any (λ x. x.id == e && x.role_id == r) s.sessions && any (λ t. t.role_session_id == e) s.states

pub role_ready-ensure_role :
    (r : Ident) (s : Context) → role_ready r s ≡ true → ensure_role r s ≡ done s
unfolding role_ready ensure_role
role_ready-ensure_role r s h = ground arith

session_ready-ensure_session :
    (r : Ident) (session : Option Ident) (s : Context)
    → session_ready r session s ≡ true
    → ensure_session r session s ≡ done s
unfolding session_ready ensure_session
session_ready-ensure_session r none s h = refl
session_ready-ensure_session r (some e) s h = ground arith

pub ensure_role-role_ready :
    (r : Ident) (s : Context) {s' : Context} → ensure_role r s ≡ done s' → role_ready r s' ≡ true
unfolding role_ready
ensure_role-role_ready r s {s'} h =
    let (_, known) = ensure_role-eq-done r s h in
    let (kept, head, _) = ensure_role-Readies r s h in rw (head, kept.roles, known) refl

has_state :
    (r e : Ident) (ts : List SessionState)
    → any (λ t. t.role_session_id == e) (with_state r e ts) ≡ true
has_state r e ts = elim (Bool-cases (any (λ t. t.role_session_id == e) ts)) [
  | inl k ↦ rw k k
  | inr k ↦ rw k (any-append_last (λ t. t.role_session_id == e) ts (==-refl e))
]

ensure_session-session_ready :
    (r : Ident) (session : Option Ident) (s : Context) {s' : Context}
    → ensure_session r session s ≡ done s'
    → session_ready r session s' ≡ true
unfolding ensure_session session_ready
ensure_session-session_ready r none s h = refl
ensure_session-session_ready r (some e) s {s'} h =
    elim (Bool-cases (any (λ x. x.id == e && x.role_id == r) s.sessions)) [
      | inr unknown ↦ absurd (ground arith)
      | inl known ↦
          let same : record s { states = with_state r e s.states } ≡ s' = ground arith in
          subst
            (λ (d : Context).
              (any (λ x. x.id == e && x.role_id == r) d.sessions
                && any (λ t. t.role_session_id == e) d.states)
              ≡ true)
            same (rw (known, has_state r e s.states) refl)
    ]

same_entry-entry_at : (w : Tools) (e : NewEntry) (n : ℕ) → same_entry w e (entry_at w e n) ≡ true
same_entry-entry_at w e n =
    rw
      (
        ==-refl e.role_id,
        text_eq_refl e.source_kind,
        text_eq_refl e.source_id,
        text_eq_refl (w.sha256 (canonical w.limits.writer e.content)),
      )
      (rank_refl e.portable_kind)
  where
    rank_refl : (k : PortableKind) → (true && true && true && rank k == rank k && true) ≡ true
    rank_refl k = ground (arith, ==-refl (rank k))

write_found :
    (w : Tools) (e : NewEntry) (s : Context) {x : LogEntry}
    → one (same_entry w e) s.entries ≡ some x
    → write w e s ≡ (record { inserted = false; context_seq = x.context_seq }, s)
write_found w e s k = ground arith

-- What an append wrote or found, it finds again.
pub write-finds :
    (w : Tools) (e : NewEntry) (s : Context) {a : Appended} {s' : Context}
    → write w e s ≡ (a, s')
    → (x : LogEntry) × (one (same_entry w e) s'.entries ≡ some x) × (x.context_seq ≡ a.context_seq)
write-finds w e s {a} {s'} h = elim (Option-cases (one (same_entry w e) s.entries)) [
  | inr (x, k) ↦
      let same : s ≡ s' = ground arith in
      (x, subst (λ (d : Context). one (same_entry w e) d.entries ≡ some x) same k, ground arith)
  | inl k ↦
      let n = suc (head_of e.role_id s) in
      let same : insert_entry w e n s ≡ s' = ground arith in
      (
        entry_at w e n,
        subst (λ (d : Context). one (same_entry w e) d.entries ≡ some (entry_at w e n)) same
            (one-append_none (same_entry w e) s.entries (entry_at w e n ∷ []) k ∙ only w e n),
        ground arith,
      )
]
  where
    only :
        (w : Tools) (e : NewEntry) (n : ℕ)
        → one (same_entry w e) (entry_at w e n ∷ []) ≡ some (entry_at w e n)
    only w e n = unfold one in rw (same_entry-entry_at w e n) refl

write-role_ready :
    (w : Tools) (e : NewEntry) (s : Context) {a : Appended} {s' : Context}
    → role_ready e.role_id s ≡ true
    → write w e s ≡ (a, s')
    → role_ready e.role_id s' ≡ true
unfolding role_ready
write-role_ready w e s {a} {s'} r h = elim (Option-cases (one (same_entry w e) s.entries)) [
  | inr (x, k) ↦
      let same : s ≡ s' = ground arith in
      subst
        (λ (d : Context).
          (any (λ x. x == e.role_id) d.roles && any (λ h. h.role_id == e.role_id) d.heads) ≡ true)
        same r
  | inl k ↦
      let same : insert_entry w e (suc (head_of e.role_id s)) s ≡ s' = ground arith in
      subst
        (λ (d : Context).
          (any (λ x. x == e.role_id) d.roles && any (λ h. h.role_id == e.role_id) d.heads) ≡ true)
        same
        (rw
          (any-update_where (λ (h : Head). h.role_id == e.role_id)
            (λ x. x.role_id == e.role_id && ltb x.head_seq (suc (head_of e.role_id s)))
            (raise (suc (head_of e.role_id s))) s.heads (λ x. refl))
          r)
]

write-session_ready :
    (w : Tools) (e : NewEntry) (r : Ident) (session : Option Ident) (s : Context) {a : Appended}
    {s' : Context}
    → write w e s ≡ (a, s')
    → session_ready r session s' ≡ session_ready r session s
unfolding session_ready
write-session_ready w e r none s h = refl
write-session_ready w e r (some x) s h = elim (Option-cases (one (same_entry w e) s.entries)) [
  | inr (y, k) ↦ ground arith
  | inl k ↦ ground arith
]

role_ready_same :
    (r : Ident) {s s' : Context}
    → Readies s s'
    → s'.heads ≡ s.heads
    → role_ready r s ≡ true
    → role_ready r s' ≡ true
unfolding role_ready
role_ready_same r kept heads h = rw (heads, kept.roles) h

-- What an append leaves: the rows of the role and of the session, and the entry.
pub append-leaves :
    (w : Tools) (e : NewEntry) (s : Context) {a : Appended} {s' : Context}
    → append w e s ≡ done (a, s')
    → (role_ready e.role_id s' ≡ true)
      × (session_ready e.role_id e.source_work_session_id s' ≡ true)
      × (x : LogEntry) × (one (same_entry w e) s'.entries ≡ some x)
      × (x.context_seq ≡ a.context_seq)
append-leaves w e s {a} {s'} h =
    let (s₁, s₂, e₁, e₂, e₃) = append-eq-done w e s h in
    let (kept, heads) = ensure_session-Readies e.role_id e.source_work_session_id s₁ e₂ in
    let r = role_ready_same e.role_id kept heads (ensure_role-role_ready e.role_id s e₁) in
    let (x, k, n) = write-finds w e s₂ e₃ in
    (
      write-role_ready w e s₂ r e₃,
      write-session_ready w e e.role_id e.source_work_session_id s₂ e₃
          ∙ ensure_session-session_ready e.role_id e.source_work_session_id s₁ e₂,
      x,
      k,
      n,
    )

-- With these rows, an append that has passed its checks before finds the entry.
pub append_found :
    (w : Tools) (e : NewEntry) (s d : Context) {a : Appended} {s' : Context} {x : LogEntry}
    → append w e s ≡ done (a, s')
    → role_ready e.role_id d ≡ true
    → session_ready e.role_id e.source_work_session_id d ≡ true
    → one (same_entry w e) d.entries ≡ some x
    → append w e d ≡ done (record { inserted = false; context_seq = x.context_seq }, d)
unfolding append
append_found w e s d h r t k =
    let known = role_ready-ensure_role e.role_id d r in
    let own = session_ready-ensure_session e.role_id e.source_work_session_id d t in
    let found = write_found w e d k in ground arith
