-- ===== src/RoleContext/Store/Runs.antt =====
-- Sequences of calls of the store, by any callers. A call that throws changes nothing.
use agent_router.Prelude.{
  Option, none, List, [], ◌∷◌, ◌≡◌, inl, inr, refl, subst, sym, Text, select, one,
}
use agent_router.Protocol.{Ident}
use agent_router.Json.{Json}
use agent_router.RoleContext.Store.{
  Context, Reply, done, throws, NewEntry, Tools, Mode, Plan, Fidelity, Session, Receipt, append,
  plan, prepare, confirm, reconcile, head_of,
}
use agent_router.RoleContext.Store.Ensures.{ensure_role-Readies}
use agent_router.RoleContext.Store.Sync.{
  plan-eq-done, prepare-eq-done, confirm-eq-done, reconcile-eq-done,
}
use agent_router.RoleContext.Store.Numbered.{
  Numbered, Readies-Numbered, append-Numbered, numbers_of, range,
}

pub data Call : Type 0 where
  append_entry : NewEntry → Call
  make_plan : Mode → (role_id target : Ident) → (operation_id : Text) → Call
  prepare_plan : Plan → Call
  confirm_operation : (operation_id : Text) → Json → Fidelity → Option Json → Call
  reconcile_operation : (operation_id : Text) → List Text → Call

-- The tables after a reply.
abbrev pub after {ℓ} : {A : Type ℓ} → Context → Reply (A × Context) → Context
after s (done (a, s')) = s'
after s (throws e) = s

unfoldable pub perform : Tools → Call → Context → Context
perform w (Call.append_entry e) s = after s (append w e s)
perform w (Call.make_plan mode role_id target op) s = after s (plan w mode role_id target op s)
perform w (Call.prepare_plan p) s = after s (prepare p s)
perform w (Call.confirm_operation op native f cursor) s = after s (confirm w op native f cursor s)
perform w (Call.reconcile_operation op markers) s = after s (reconcile w op markers s)

unfoldable pub run : Tools → List Call → Context → Context
run w [] s = s
run w (c ∷ cs) s = run w cs (perform w c s)

-- What a run starts from: the roles and their sessions, and nothing in the log.
abbrev pub fresh : List Ident → List Session → Context
fresh roles sessions = record {
  roles = roles;
  sessions = sessions;
  heads = [];
  entries = [];
  states = [];
  receipts = [];
}

-- A property of the tables that every call that returns keeps, holds after each call.
pub after-keeps {ℓ κ} :
    {A : Type ℓ} (P : Context → Type κ) (s : Context) (m : Reply (A × Context))
    → P s
    → ((a : A) (s' : Context) → m ≡ done (a, s') → P s')
    → P (after s m)
after-keeps P s (done (a, s')) p k = k a s' refl
after-keeps P s (throws e) p k = p

confirm-Numbered :
    (w : Tools) (op : Text) (native : Json) (f : Fidelity) (cursor : Option Json) (s : Context)
    {r : Receipt × Fidelity} {s' : Context}
    → Numbered s
    → confirm w op native f cursor s ≡ done (r, s')
    → Numbered s'
unfolding Numbered head_of
confirm-Numbered w op native f cursor s m h =
    let (q, _, e) = confirm-eq-done w op native f cursor s h in
    elim e [
      | inl (same, _) ↦ subst Numbered (sym same) m
      | inr (new, _, _) ↦ subst Numbered (sym new) m
    ]

perform-Numbered : (w : Tools) (c : Call) (s : Context) → Numbered s → Numbered (perform w c s)
unfolding perform Numbered head_of
perform-Numbered w (Call.append_entry e) s m =
    after-keeps Numbered s (append w e s) m (λ a s' h. append-Numbered w e s m h)
perform-Numbered w (Call.make_plan mode role_id target op) s m =
    after-keeps Numbered s (plan w mode role_id target op s) m (λ a s' h.
      let (r, _, _) =
        ensure_role-Readies role_id s (plan-eq-done w mode role_id target op s h).ready in
      Readies-Numbered r m)
perform-Numbered w (Call.prepare_plan p) s m = after-keeps Numbered s (prepare p s) m (λ a s' h.
    elim (prepare-eq-done p s h) [
      | inl (e, q, k) ↦ subst Numbered (sym e) m
      | inr (e, k) ↦ subst Numbered (sym e) m
    ])
perform-Numbered w (Call.confirm_operation op native f cursor) s m =
    after-keeps Numbered s (confirm w op native f cursor s) m
      (λ a s' h. confirm-Numbered w op native f cursor s m h)
perform-Numbered w (Call.reconcile_operation op markers) s m =
    after-keeps Numbered s (reconcile w op markers s) m (λ a s' h.
      elim (reconcile-eq-done w op markers s h) [
        | inl e ↦ subst Numbered (sym e) m
        | inr (native, q, k) ↦ confirm-Numbered w op native Fidelity.exact none s m k
      ])

run_from-Numbered : (w : Tools) (cs : List Call) (s : Context) → Numbered s → Numbered (run w cs s)
unfolding run
run_from-Numbered w [] s m = m
run_from-Numbered w (c ∷ cs) s m = run_from-Numbered w cs (perform w c s) (perform-Numbered w c s m)

-- After any calls on tables with no entry: the entries of each role are numbered 1, 2, ... up to the
-- role's head, in the order in which they were appended.
pub run-Numbered :
    (w : Tools) (roles : List Ident) (sessions : List Session) (cs : List Call)
    → Numbered (run w cs (fresh roles sessions))
unfolding Numbered
run-Numbered w roles sessions cs =
    run_from-Numbered w cs (fresh roles sessions)
      (λ r. unfold numbers_of range head_of select one in refl)
