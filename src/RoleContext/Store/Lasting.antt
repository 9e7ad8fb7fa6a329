-- ===== src/RoleContext/Store/Lasting.antt =====
-- What lasts in the log whatever is called.
use agent_router.Prelude.{
  true, false, Option, none, some, List, [], ◌∷◌, ◌==◌, ◌≡◌, inl, inr, refl, arith, subst, sym, ap,
  ◌∙◌, any, one, is_some, Text,
}
use agent_router.Prelude.Laws.{one-append, one-any-true}
use agent_router.Protocol.{Ident}
use agent_router.Json.{Json}
use agent_router.RoleContext.Store.{
  Context, done, NewEntry, Appended, Tools, Receipt, Fidelity, append, same_entry, confirm, prepare,
  plan, reconcile,
}
use agent_router.RoleContext.Store.Ensures.{any-one}
use agent_router.RoleContext.Store.Sync.{plan-eq-done, confirm-eq-done, reconcile-eq-done}
use agent_router.RoleContext.Store.Runs.{Call, perform, run, after-keeps}
use agent_router.RoleContext.Store.Once.{role_ready, session_ready, append-leaves, append_found}
use agent_router.RoleContext.Store.Growth.{
  Grows, Grows-refl, Grows-trans, append-Grows, ensure_role-Grows, prepare-Grows,
  confirm_writes-Grows,
}

confirm-Grows :
    (w : Tools) (op : Text) (native : Json) (f : Fidelity) (c : Option Json) (s : Context)
    {r : Receipt × Fidelity} {s' : Context}
    → confirm w op native f c s ≡ done (r, s')
    → Grows s s'
confirm-Grows w op native f c s h =
    let (q, _, e) = confirm-eq-done w op native f c s h in
    elim e [
      | inl (same, _) ↦ subst (λ d. Grows s d) (sym same) (Grows-refl s)
      | inr (new, _, _) ↦ subst (λ d. Grows s d) (sym new) (confirm_writes-Grows q native f c s)
    ]

pub perform-Grows : (w : Tools) (c : Call) (s : Context) → Grows s (perform w c s)
unfolding perform
perform-Grows w (Call.append_entry e) s =
    after-keeps (Grows s) s (append w e s) (Grows-refl s) (λ a s' h. append-Grows w e s h)
perform-Grows w (Call.make_plan mode role_id target op) s =
    after-keeps (Grows s) s (plan w mode role_id target op s) (Grows-refl s)
      (λ a s' h. ensure_role-Grows role_id s (plan-eq-done w mode role_id target op s h).ready)
perform-Grows w (Call.prepare_plan p) s =
    after-keeps (Grows s) s (prepare p s) (Grows-refl s) (λ a s' h. prepare-Grows p s h)
perform-Grows w (Call.confirm_operation op native f c) s =
    after-keeps (Grows s) s (confirm w op native f c s) (Grows-refl s)
      (λ a s' h. confirm-Grows w op native f c s h)
perform-Grows w (Call.reconcile_operation op markers) s =
    after-keeps (Grows s) s (reconcile w op markers s) (Grows-refl s) (λ a s' h.
      elim (reconcile-eq-done w op markers s h) [
        | inl e ↦ subst (λ d. Grows s d) (sym e) (Grows-refl s)
        | inr (native, q, k) ↦ confirm-Grows w op native Fidelity.exact none s k
      ])

-- Whatever is called, the entries of the log stay, and new ones come after them; the cursor of a
-- session never goes down; and the receipt of an operation that is confirmed stays as it is.
pub run-Grows : (w : Tools) (cs : List Call) (s : Context) → Grows s (run w cs s)
unfolding run
run-Grows w [] s = Grows-refl s
run-Grows w (c ∷ cs) s = Grows-trans (perform-Grows w c s) (run-Grows w cs (perform w c s))

Grows-role_ready :
    (r : Ident) {s d : Context} → Grows s d → role_ready r s ≡ true → role_ready r d ≡ true
unfolding role_ready
Grows-role_ready r g h = let k = g.heads r in rw g.roles (ground arith)

Grows-session_ready :
    (r : Ident) (session : Option Ident) {s d : Context}
    → Grows s d
    → session_ready r session s ≡ true
    → session_ready r session d ≡ true
unfolding session_ready
Grows-session_ready r none g h = refl
Grows-session_ready r (some e) {s} {d} g h =
    let (t, k) = one-any-true (λ t. t.role_session_id == e) s.states (ground arith) in
    let (t', k', _) = g.cursor e t k in
    let there : any (λ t. t.role_session_id == e) d.states ≡ true =
      any-one (λ t. t.role_session_id == e) d.states ∙ ap is_some k' in
    rw g.sessions (ground arith)

-- An entry that has been appended, and is appended again after any calls: the answer is that
-- nothing is inserted, and the number that the entry was given, and no table changes.
pub append_again :
    (w : Tools) (e : NewEntry) (s : Context) (cs : List Call) {a : Appended} {s' : Context}
    → append w e s ≡ done (a, s')
    → append w e (run w cs s')
      ≡ done (record { inserted = false; context_seq = a.context_seq }, run w cs s')
append_again w e s cs {a} {s'} h =
    let (r, t, x, k, n) = append-leaves w e s h in
    let g = run-Grows w cs s' in
    let (ys, more) = g.entries in
    append_found w e s (run w cs s') h (Grows-role_ready e.role_id g r)
      (Grows-session_ready e.role_id e.source_work_session_id g t)
      (ap (one (same_entry w e)) more ∙ one-append (same_entry w e) s'.entries ys k)
    ∙ ap (λ i. done (record { inserted = false; context_seq = i }, run w cs s')) n
