-- ===== src/RoleContext/Store/Sync.antt =====
-- The inversion of the operations that bring a session up to date: `planDelta`, `planFull`,
-- `prepare`, `confirm` and `reconcile`.
use agent_router.Prelude.{
  true, Option, none, some, List, [], ◌∷◌, ◌++◌, ◌==◌, not, leb, ◌≡◌, ◌⊎◌, inl, inr, refl, arith,
  subst, Text, Option-cases, Bool-cases, select, ◌&&◌,
}
use agent_router.Protocol.{Ident}
use agent_router.Json.{Json}
use agent_router.RoleContext.Store.{
  Context, done, Tools, Mode, Plan, Fidelity, Receipt, ReceiptState, SessionState, plan, prepare,
  confirm, reconcile, head_of, entries_of, state_of, start_of, receipt_of, prepared_from, plan_from,
  in_range, ensure_role, confirm_writes, is_marker, native_marker, marker_object, is_confirmed,
  includes,
}
use agent_router.RoleContext.Store.Ensures.{Reply-cases}

-- What a plan is made from.
pub record Planned (w : Tools) (mode : Mode) (role_id target : Ident) (op : Text) (s : Context)
    (p : Plan) (s' : Context) : Type 0 where
  pub state : SessionState
  pub found : state_of target s ≡ some state
  pub own : (state.role_id == role_id) ≡ true
  pub ready : ensure_role role_id s ≡ done s'
  pub ordered : leb (start_of mode state) (head_of role_id s') ≡ true
  pub made :
      p
      ≡ plan_from w mode role_id target op
          (start_of mode state)
          (head_of role_id s')
          (select (in_range role_id (start_of mode state) (head_of role_id s') target) s'.entries)

pub plan-eq-done :
    (w : Tools) (mode : Mode) (role_id target : Ident) (op : Text) (s : Context) {p : Plan}
    {s' : Context}
    → plan w mode role_id target op s ≡ done (p, s')
    → Planned w mode role_id target op s p s'
unfolding plan entries_of
plan-eq-done w mode role_id target op s {p} {s'} h = elim (Option-cases (state_of target s)) [
  | inl none_there ↦ absurd (ground arith)
  | inr (t, e) ↦ elim (Bool-cases (t.role_id == role_id)) [
    | inr other ↦ absurd (ground arith)
    | inl own ↦ elim (Reply-cases (ensure_role role_id s)) [
      | inr (x, k) ↦ absurd (ground arith)
      | inl (s₁, k) ↦ elim (Bool-cases (leb (start_of mode t) (head_of role_id s₁))) [
        | inr bad ↦ absurd (ground arith)
        | inl o ↦
            let same : s₁ ≡ s' = ground arith in
            record {
              state = t;
              found = e;
              own = own;
              ready = ground arith;
              ordered = subst (λ d. leb (start_of mode t) (head_of role_id d) ≡ true) same o;
              made =
                  subst
                    (λ d.
                      p
                      ≡ plan_from w mode role_id target op (start_of mode t) (head_of role_id d) (
                          select (in_range role_id (start_of mode t) (head_of role_id d) target)
                            d.entries))
                    same (ground arith);
            }
      ]
    ]
  ]
]

pub prepare-eq-done :
    (p : Plan) (s : Context) {r : Receipt × Fidelity} {s' : Context}
    → prepare p s ≡ done (r, s')
    → ((s' ≡ s) × (q : Receipt) × (receipt_of p.operation_id s ≡ some q))
      ⊎ ((s' ≡ record s { receipts = s.receipts ++ prepared_from p ∷ [] })
          × (receipt_of p.operation_id s ≡ none))
unfolding prepare
prepare-eq-done p s h = elim (Option-cases (receipt_of p.operation_id s)) [
  | inl n ↦ inr (ground arith, n)
  | inr (q, e) ↦ inl (ground arith, q, e)
]

pub confirm-eq-done :
    (w : Tools) (op : Text) (native : Json) (f : Fidelity) (cursor : Option Json) (s : Context)
    {r : Receipt × Fidelity} {s' : Context}
    → confirm w op native f cursor s ≡ done (r, s')
    → (q : Receipt) × (receipt_of op s ≡ some q)
      × (((s' ≡ s) × (q.state ≡ ReceiptState.confirmed))
          ⊎ ((s' ≡ confirm_writes q native f cursor s)
              × (q.state ≡ ReceiptState.prepared)
              × (is_marker (native_marker native) q.stable_marker ≡ true)))
unfolding confirm
confirm-eq-done w op native f cursor s {r} {s'} h = elim (Option-cases (receipt_of op s)) [
  | inl n ↦ absurd (ground arith)
  | inr (q, e) ↦ by_state q e q.state refl
]
  where
    by_state :
        (q : Receipt)
        → receipt_of op s ≡ some q
        → (st : ReceiptState) → q.state ≡ st
        → (q : Receipt) × (receipt_of op s ≡ some q)
          × (((s' ≡ s) × (q.state ≡ ReceiptState.confirmed))
              ⊎ ((s' ≡ confirm_writes q native f cursor s)
                  × (q.state ≡ ReceiptState.prepared)
                  × (is_marker (native_marker native) q.stable_marker ≡ true)))
    by_state q e ReceiptState.confirmed k = (q, e, inl (ground arith, k))
    by_state q e ReceiptState.failed k = absurd (ground arith)
    by_state q e ReceiptState.prepared k = (q, e, inr (ground arith, k, ground arith))

-- A reconciliation writes nothing or confirms.
pub reconcile-eq-done :
    (w : Tools) (op : Text) (markers : List Text) (s : Context) {r : Option (Receipt × Fidelity)}
    {s' : Context}
    → reconcile w op markers s ≡ done (r, s')
    → (s' ≡ s)
      ⊎ ((native : Json) × (q : Receipt × Fidelity) × (confirm w op native Fidelity.exact none s
            ≡ done (q, s')))
unfolding reconcile
reconcile-eq-done w op markers s {r} {s'} h = elim (Option-cases (receipt_of op s)) [
  | inl n ↦ inl (ground arith)
  | inr (q, e) ↦
      elim (Bool-cases (not (is_confirmed q.state) && includes markers q.stable_marker)) [
        | inr miss ↦ inl (ground arith)
        | inl hit ↦
            elim (Reply-cases
              (confirm w op (marker_object q.stable_marker) Fidelity.exact none s)) [
                | inr (x, k) ↦ absurd (ground arith)
                | inl ((q', s₁), k) ↦ inr (marker_object q.stable_marker, q', ground arith)
              ]
      ]
]
