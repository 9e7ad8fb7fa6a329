-- ===== src/RoleContext/Store/Growth.antt =====
-- What no call of the store takes back.
use agent_router.Prelude.{
  ℕ, suc, ◌≤◌, true, Option, none, some, List, [], ◌∷◌, ◌++◌, ◌&&◌, ◌==◌, ltb, ◌≡◌, inl, inr, refl,
  arith, subst, sym, ap, ◌∙◌, any, one, Bool-cases, Option-cases, append-nil, append_assoc, Text,
  text_eq,
}
use agent_router.Prelude.Laws.{
  any-update_where, any-append_true, one-append, one-update_where, update_one,
}
use agent_router.Protocol.{Ident}
use agent_router.Json.{Json}
use agent_router.RoleContext.Store.{
  Context, done, NewEntry, Appended, Tools, SessionState, Head, LogEntry, Receipt, ReceiptState,
  Fidelity, Plan, append, write, ensure_role, ensure_session, with_head, with_state, same_entry,
  insert_entry, entry_at, head_of, raise, state_of, receipt_of, confirm_writes, prepare,
  prepared_from, set_confirmed, is_prepared, advance, fresh_state,
}
use agent_router.RoleContext.Store.Ensures.{append-eq-done, ensure_role-eq-done}
use agent_router.RoleContext.Store.Sync.{prepare-eq-done}

pub record Grows (s s' : Context) : Type 0 where
  pub roles : s'.roles ≡ s.roles
  pub sessions : s'.sessions ≡ s.sessions
  pub entries : (ys : List LogEntry) × (s'.entries ≡ s.entries ++ ys)
  pub heads :
      (r : Ident)
      → any (λ h. h.role_id == r) s.heads ≡ true
      → any (λ h. h.role_id == r) s'.heads ≡ true
  pub cursor :
      (session : Ident) (t : SessionState)
      → state_of session s ≡ some t
      → (t' : SessionState) × (state_of session s' ≡ some t')
        × (t.synced_through_seq ≤ t'.synced_through_seq)
  pub confirmed :
      (op : Text) (q : Receipt)
      → receipt_of op s ≡ some q
      → q.state ≡ ReceiptState.confirmed
      → receipt_of op s' ≡ some q

pub Grows-refl : (s : Context) → Grows s s
Grows-refl s = record {
  roles = refl;
  sessions = refl;
  entries = ([], sym (append-nil s.entries));
  heads = λ r h. h;
  cursor = λ e t h. (t, h, omega arith);
  confirmed = λ op q h k. h;
}

pub Grows-trans : {s s' s'' : Context} → Grows s s' → Grows s' s'' → Grows s s''
Grows-trans {s} g h = record {
  roles = h.roles ∙ g.roles;
  sessions = h.sessions ∙ g.sessions;
  entries =
      (let (ys, e) = g.entries in
        let (zs, f) = h.entries in
        (ys ++ zs, f ∙ ap (λ xs. xs ++ zs) e ∙ append_assoc s.entries ys zs));
  heads = λ r k. h.heads r (g.heads r k);
  cursor = λ e t k.
      let (t', k', l) = g.cursor e t k in
      let (t'', k'', l') = h.cursor e t' k' in (t'', k'', omega (arith, l, l'));
  confirmed = λ op q k c. h.confirmed op q (g.confirmed op q k c) c;
}

with_head-Grows : (r : Ident) (s : Context) → Grows s (record s { heads = with_head r s.heads })
with_head-Grows r s = record {
  roles = refl;
  sessions = refl;
  entries = ([], sym (append-nil s.entries));
  heads = λ k there. kept k there;
  cursor = λ e t h. (t, h, omega arith);
  confirmed = λ op q h k. h;
}
  where
    kept :
        (k : Ident)
        → any (λ h. h.role_id == k) s.heads ≡ true
        → any (λ h. h.role_id == k) (with_head r s.heads) ≡ true
    kept k there = elim (Bool-cases (any (λ h. h.role_id == r) s.heads)) [
      | inl e ↦ rw e there
      | inr e ↦ rw e (
          any-append_true (λ h. h.role_id == k) s.heads (record { role_id = r; head_seq = 0 } ∷ [])
            there)
    ]

with_state-Grows :
    (r e : Ident) (s : Context) → Grows s (record s { states = with_state r e s.states })
with_state-Grows r e s = record {
  roles = refl;
  sessions = refl;
  entries = ([], sym (append-nil s.entries));
  heads = λ r h. h;
  cursor = λ x t h. (t, kept x t h, omega arith);
  confirmed = λ op q h k. h;
}
  where
    kept :
        (x : Ident) (t : SessionState)
        → one (λ t. t.role_session_id == x) s.states ≡ some t
        → one (λ t. t.role_session_id == x) (with_state r e s.states) ≡ some t
    kept x t h = elim (Bool-cases (any (λ t. t.role_session_id == e) s.states)) [
      | inl k ↦ rw k h
      | inr k ↦ rw k (one-append (λ t. t.role_session_id == x) s.states (fresh_state r e ∷ []) h)
    ]

ensure_session-Grows :
    (r : Ident) (session : Option Ident) (s : Context) {s' : Context}
    → ensure_session r session s ≡ done s'
    → Grows s s'
unfolding ensure_session
ensure_session-Grows r none s {s'} h = subst (λ d. Grows s d) (ground arith) (Grows-refl s)
ensure_session-Grows r (some e) s {s'} h =
    subst (λ d. Grows s d) (ground arith) (with_state-Grows r e s)

pub ensure_role-Grows :
    (r : Ident) (s : Context) {s' : Context} → ensure_role r s ≡ done s' → Grows s s'
ensure_role-Grows r s h =
    let (e, _) = ensure_role-eq-done r s h in subst (λ d. Grows s d) (sym e) (with_head-Grows r s)

insert_entry-Grows :
    (w : Tools) (e : NewEntry) (n : ℕ) (s : Context) → Grows s (insert_entry w e n s)
insert_entry-Grows w e n s = record {
  roles = refl;
  sessions = refl;
  entries = (entry_at w e n ∷ [], refl);
  heads = λ r h.
      any-update_where (λ (h : Head). h.role_id == r)
        (λ h. h.role_id == e.role_id && ltb h.head_seq n) (raise n) s.heads (λ x. refl)
      ∙ h;
  cursor = λ e t h. (t, h, omega arith);
  confirmed = λ op q h k. h;
}

write-Grows :
    (w : Tools) (e : NewEntry) (s : Context) {a : Appended} {s' : Context}
    → write w e s ≡ (a, s')
    → Grows s s'
write-Grows w e s {a} {s'} h = elim (Option-cases (one (same_entry w e) s.entries)) [
  | inr (x, k) ↦ subst (λ d. Grows s d) (ground arith) (Grows-refl s)
  | inl k ↦
      let same : insert_entry w e (suc (head_of e.role_id s)) s ≡ s' = ground arith in
      subst (λ d. Grows s d) same (insert_entry-Grows w e (suc (head_of e.role_id s)) s)
]

pub append-Grows :
    (w : Tools) (e : NewEntry) (s : Context) {a : Appended} {s' : Context}
    → append w e s ≡ done (a, s')
    → Grows s s'
append-Grows w e s h =
    let (s₁, s₂, e₁, e₂, e₃) = append-eq-done w e s h in
    Grows-trans (ensure_role-Grows e.role_id s e₁) (
      Grows-trans (ensure_session-Grows e.role_id e.source_work_session_id s₁ e₂)
        (write-Grows w e s₂ e₃))

pub prepare-Grows :
    (p : Plan) (s : Context) {r : Receipt × Fidelity} {s' : Context}
    → prepare p s ≡ done (r, s')
    → Grows s s'
prepare-Grows p s h = elim (prepare-eq-done p s h) [
  | inl (e, _, _) ↦ subst (λ d. Grows s d) (sym e) (Grows-refl s)
  | inr (e, _) ↦
      subst (λ d. Grows s d) (sym e)
        record {
          roles = refl;
          sessions = refl;
          entries = ([], sym (append-nil s.entries));
          heads = λ r h. h;
          cursor = λ e t h. (t, h, omega arith);
          confirmed = λ op q h k.
              one-append (λ r. text_eq r.operation_id op) s.receipts (prepared_from p ∷ []) h;
        }
]

-- A receipt that is confirmed already is not written, and the cursor goes up.
pub confirm_writes-Grows :
    (q : Receipt) (native : Json) (f : Fidelity) (c : Option Json) (s : Context)
    → Grows s (confirm_writes q native f c s)
confirm_writes-Grows q native f c s = record {
  roles = refl;
  sessions = refl;
  entries = ([], sym (append-nil s.entries));
  heads = λ r h. h;
  cursor = λ e t h.
      let u =
        one-update_where (λ (t : SessionState). t.role_session_id == e)
          (λ t. t.role_session_id == q.target_work_session_id) (advance q.through_seq c f) s.states
          (λ x. refl) in
      elim (Bool-cases (t.role_session_id == q.target_work_session_id)) [
        | inl mine ↦ (advance q.through_seq c f t, u ∙ rw (h, mine) refl, omega arith)
        | inr other ↦ (t, u ∙ rw (h, other) refl, omega arith)
      ];
  confirmed = λ op p h k.
      let u =
        one-update_where (λ (r : Receipt). text_eq r.operation_id op)
          (λ r. text_eq r.operation_id q.operation_id && is_prepared r.state) (set_confirmed native)
          s.receipts (λ x. refl) in
      u
      ∙ ap
          (update_one (λ r. text_eq r.operation_id q.operation_id && is_prepared r.state)
            (set_confirmed native))
          h
      ∙ unmoved p k;
}
  where
    unmoved :
        (p : Receipt)
        → p.state ≡ ReceiptState.confirmed
        → update_one
            (λ r. text_eq r.operation_id q.operation_id && is_prepared r.state)
            (set_confirmed native)
            (some p)
          ≡ some p
    unmoved p k = ground arith
