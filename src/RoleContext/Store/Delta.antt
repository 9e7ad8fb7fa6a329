-- ===== src/RoleContext/Store/Delta.antt =====
-- A session that is brought up to date: plan, prepare, confirm.
use agent_router.Prelude.{
  ℕ, ◌≤◌, true, Option, none, some, List, [], ◌∷◌, ◌++◌, ◌==◌, leb, ◌≡◌, refl, arith, subst, sym,
  ap, ◌∙◌, one, select, Text, text_eq, text_eq_refl,
}
use agent_router.Prelude.Laws.{one-append_none, one-update_where, one-holds}
use agent_router.Protocol.{Ident}
use agent_router.Json.{Json}
use agent_router.RoleContext.Portable.{Verdict, assert_portable}
use agent_router.RoleContext.Store.{
  Context, done, Tools, SessionState, LogEntry, Receipt, ReceiptState, Fidelity, Plan, Mode,
  state_of, receipt_of, confirm, prepare, plan, prepared_from, confirm_writes, plan_from,
  native_marker, in_range, head_of, entries_of, advance, set_confirmed, show,
}
use agent_router.RoleContext.Store.Ensures.{ensure_role-Readies}
use agent_router.RoleContext.Store.Once.{role_ready, role_ready-ensure_role, ensure_role-role_ready}
use agent_router.RoleContext.Store.Sync.{Planned, plan-eq-done}

-- No number is above a bound and at most this bound.
select-in_range-empty :
    (r t : Ident) (n : ℕ) (xs : List LogEntry) → select (in_range r n n t) xs ≡ []
unfolding select
select-in_range-empty r t n [] = refl
select-in_range-empty r t n (x ∷ xs) = ground (arith, select-in_range-empty r t n xs)

leb_refl : (n : ℕ) → leb n n ≡ true
leb_refl n = ground arith

-- A delta from a state whose cursor is at the head.
plan_at_head :
    (w : Tools) (role_id target : Ident) (op : Text) (s : Context) (t : SessionState) (n : ℕ)
    → state_of target s ≡ some t
    → (t.role_id == role_id) ≡ true
    → role_ready role_id s ≡ true
    → head_of role_id s ≡ n
    → t.synced_through_seq ≡ n
    → plan w Mode.delta role_id target op s
      ≡ done (plan_from w Mode.delta role_id target op n n [], s)
unfolding plan entries_of
plan_at_head w role_id target op s t n found own ready head cursor =
    let k = role_ready-ensure_role role_id s ready in
    let empty = select-in_range-empty role_id target n s.entries in
    rw (found, own, k, cursor, head, leb_refl n, empty) refl

-- A prepared operation is confirmed by a receipt that carries its marker.
confirm_prepared :
    (w : Tools) (native : Json) (f : Fidelity) (c : Option Json) (s : Context) (q : Receipt)
    (t : SessionState) (op : Text)
    → assert_portable w.limits native ≡ Verdict.fine
    → native_marker native ≡ some q.stable_marker
    → receipt_of op s ≡ some q
    → q.state ≡ ReceiptState.prepared
    → state_of q.target_work_session_id s ≡ some t
    → confirm w op native f c s
      ≡ done (
        show (set_confirmed native q) (confirm_writes q native f c s),
        confirm_writes q native f c s,
      )
unfolding confirm
confirm_prepared w native f c s q t op fine marked found state there =
    rw (fine, found, state, marked, there, text_eq_refl q.stable_marker) refl

-- The state of a session after a confirmation for it.
state_of-confirm_writes :
    (q : Receipt) (native : Json) (f : Fidelity) (c : Option Json) (s : Context) (t : SessionState)
    → state_of q.target_work_session_id s ≡ some t
    → state_of q.target_work_session_id (confirm_writes q native f c s)
      ≡ some (advance q.through_seq c f t)
state_of-confirm_writes q native f c s t h =
    one-update_where (λ (t : SessionState). t.role_session_id == q.target_work_session_id)
      (λ t. t.role_session_id == q.target_work_session_id) (advance q.through_seq c f) s.states
      (λ x. refl)
    ∙ rw
        (
          h,
          one-holds (λ (t : SessionState). t.role_session_id == q.target_work_session_id) s.states
              h,
        )
        refl

-- What a new operation is prepared to.
prepare_new :
    (p : Plan) (s : Context)
    → receipt_of p.operation_id s ≡ none
    → prepare p s
      ≡ done (
        show (prepared_from p) (record s { receipts = s.receipts ++ prepared_from p ∷ [] }),
        record s { receipts = s.receipts ++ prepared_from p ∷ [] },
      )
unfolding prepare
prepare_new p s h = ground arith

receipt_of-prepared :
    (p : Plan) (s : Context)
    → receipt_of p.operation_id s ≡ none
    → receipt_of p.operation_id (record s { receipts = s.receipts ++ prepared_from p ∷ [] })
      ≡ some (prepared_from p)
receipt_of-prepared p s h =
    one-append_none (λ r. text_eq r.operation_id p.operation_id) s.receipts (prepared_from p ∷ []) h
    ∙ only p
  where
    only :
        (p : Plan)
        → one (λ r. text_eq r.operation_id p.operation_id) (prepared_from p ∷ [])
          ≡ some (prepared_from p)
    only p = unfold one in rw (text_eq_refl p.operation_id) refl

role_ready-heads :
    (r : Ident) (s s' : Context)
    → s'.roles ≡ s.roles
    → s'.heads ≡ s.heads
    → role_ready r s ≡ true
    → role_ready r s' ≡ true
unfolding role_ready
role_ready-heads r s s' roles heads h = rw (roles, heads) h

head_of-confirm_writes :
    (r : Ident) (q : Receipt) (native : Json) (f : Fidelity) (c : Option Json) (s : Context)
    → head_of r (confirm_writes q native f c s) ≡ head_of r s
unfolding head_of
head_of-confirm_writes r q native f c s = refl

head_of-receipts :
    (r : Ident) (s : Context) (rs : List Receipt)
    → head_of r (record s { receipts = rs }) ≡ head_of r s
unfolding head_of
head_of-receipts r s rs = refl

-- The delta after a plan that was prepared and confirmed, where the plan went up to the head.
plan_after :
    (w : Tools) (role_id : Ident) (p : Plan) (next : Text) (native : Json) (f : Fidelity)
    (c : Option Json) (s : Context) (t : SessionState)
    → state_of p.target_work_session_id s ≡ some t
    → (t.role_id == role_id) ≡ true
    → role_ready role_id s ≡ true
    → head_of role_id s ≡ p.through_seq
    → t.synced_through_seq ≤ p.through_seq
    → let s₂ : Context = record s { receipts = s.receipts ++ prepared_from p ∷ [] } in
      let s₃ = confirm_writes (prepared_from p) native f c s₂ in
      plan w Mode.delta role_id p.target_work_session_id next s₃
      ≡ done (
        plan_from w Mode.delta role_id p.target_work_session_id next p.through_seq p.through_seq [],
        s₃,
      )
plan_after w role_id p next native f c s t there own ready head before =
    let s₂ : Context = record s { receipts = s.receipts ++ prepared_from p ∷ [] } in
    let s₃ = confirm_writes (prepared_from p) native f c s₂ in
    plan_at_head w role_id p.target_work_session_id next s₃ (advance p.through_seq c f t)
      p.through_seq (state_of-confirm_writes (prepared_from p) native f c s₂ t there) own
      (role_ready-heads role_id s s₃ refl refl ready)
      (head_of-confirm_writes role_id (prepared_from p) native f c s₂
        ∙ head_of-receipts role_id s s₂.receipts
        ∙ head)
      (omega (arith, before))

-- The rows of a session are those before the role was made ready.
Planned-state :
    (w : Tools) (mode : Mode) (role_id target : Ident) (op : Text) (s : Context) {p : Plan}
    {s' : Context}
    → (k : Planned w mode role_id target op s p s') → state_of target s' ≡ some k.state
Planned-state w mode role_id target op s k =
    let (_, _, states) = ensure_role-Readies role_id s k.ready in
    ap (one (λ t. t.role_session_id == target)) states ∙ k.found

-- A session is brought up to date: where a delta is planned under an operation that is new, its
-- preparation succeeds, and so does its confirmation with portable content that carries the marker
-- of the plan; and then the next delta is empty, and begins where the first one ended.
pub plan-prepare-confirm :
    (w : Tools) (role_id target : Ident) (op next : Text) (native : Json) (f : Fidelity)
    (c : Option Json) (s : Context) {p : Plan} {s₁ : Context}
    → plan w Mode.delta role_id target op s ≡ done (p, s₁)
    → receipt_of op s₁ ≡ none
    → assert_portable w.limits native ≡ Verdict.fine
    → native_marker native ≡ some p.stable_marker
    → (r r' : Receipt × Fidelity) × (s₂ s₃ : Context) × (prepare p s₁ ≡ done (r, s₂))
      × (confirm w op native f c s₂ ≡ done (r', s₃))
      × (plan w Mode.delta role_id target next s₃
          ≡ done (plan_from w Mode.delta role_id target next p.through_seq p.through_seq [], s₃))
plan-prepare-confirm w role_id target op next native f c s {p} {s₁} h new fine marked =
    let k = plan-eq-done w Mode.delta role_id target op s h in
    let into_target : p.target_work_session_id ≡ target =
      ap (λ (q : Plan). q.target_work_session_id) k.made in
    let under_op : p.operation_id ≡ op = ap (λ (q : Plan). q.operation_id) k.made in
    let through : p.through_seq ≡ head_of role_id s₁ = ap (λ (q : Plan). q.through_seq) k.made in
    let s₂ : Context = record s₁ { receipts = s₁.receipts ++ prepared_from p ∷ [] } in
    let s₃ = confirm_writes (prepared_from p) native f c s₂ in
    let there =
      subst (λ x. state_of x s₁ ≡ some k.state) (sym into_target)
        (Planned-state w Mode.delta role_id target op s k) in
    let fresh = subst (λ o. receipt_of o s₁ ≡ none) (sym under_op) new in
    (
      show (prepared_from p) s₂,
      show (set_confirmed native (prepared_from p)) s₃,
      s₂,
      s₃,
      prepare_new p s₁ fresh,
      confirm_prepared w native f c s₂ (prepared_from p) k.state op fine marked
          (subst (λ o. receipt_of o s₂ ≡ some (prepared_from p)) under_op
            (receipt_of-prepared p s₁ fresh))
          refl there,
      subst
          (λ x.
            plan w Mode.delta role_id x next s₃
            ≡ done (plan_from w Mode.delta role_id x next p.through_seq p.through_seq [], s₃))
          into_target
          (plan_after w role_id p next native f c s₁ k.state there k.own
            (ensure_role-role_ready role_id s k.ready) (sym through)
            (ground (arith, k.ordered, through))),
    )
