-- ===== src/RoleContext/Store/Seen.antt =====
-- Runs of the store, as callers see its log.
use agent_router.Prelude.{
  Option, none, List, [], ◌∷◌, ◌≡◌, inl, inr, refl, sym, ap, ◌∙◌, if◌then◌else◌, Text,
}
use agent_router.Json.{Json}
use agent_router.RoleContext.Store.{
  Context, done, NewEntry, Tools, Fidelity, Receipt, Plan, append, plan, prepare, confirm,
  reconcile, origin_of,
}
use agent_router.RoleContext.Store.Ensures.{Reply-cases, ensure_role-Readies}
use agent_router.RoleContext.Store.Sync.{
  plan-eq-done, prepare-eq-done, confirm-eq-done, reconcile-eq-done,
}
use agent_router.RoleContext.Store.Runs.{Call, run, perform, after, after-keeps}
use agent_router.RoleContext.Store.Lasting.{perform-Grows}
use agent_router.RoleContext.Store.Refinement.{
  log_of, put, accepted, see, see_all, is_done, append-accepted, append-log_of, log_of-Readies,
}

confirm-log_of :
    (w : Tools) (op : Text) (native : Json) (f : Fidelity) (c : Option Json) (s : Context)
    {r : Receipt × Fidelity} {s' : Context}
    → confirm w op native f c s ≡ done (r, s')
    → log_of s' ≡ log_of s
unfolding log_of
confirm-log_of w op native f c s h =
    let (q, _, e) = confirm-eq-done w op native f c s h in
    elim e [ inl (same, _) ↦ ap log_of same | inr (new, _, _) ↦ ap log_of new ]

prepare-log_of :
    (p : Plan) (s : Context) {r : Receipt × Fidelity} {s' : Context}
    → prepare p s ≡ done (r, s')
    → log_of s' ≡ log_of s
unfolding log_of
prepare-log_of p s h = elim (prepare-eq-done p s h) [
  | inl (e, _, _) ↦ ap log_of e
  | inr (e, _) ↦ ap log_of e
]

after-append :
    (w : Tools) (e : NewEntry) (s : Context)
    → log_of (after s (append w e s)) ≡ (
        if accepted w s.roles s.sessions e
        then put e.role_id (origin_of w e) (log_of s)
        else log_of s)
after-append w e s = elim (Reply-cases (append w e s)) [
  | inl ((a, s'), h) ↦
      let returned = sym (append-accepted w e s) ∙ ap is_done h in
      let (_, seen) = append-log_of w e s h in rw (h, returned) (λ i k. seen k i)
  | inr (x, h) ↦ let refused = sym (append-accepted w e s) ∙ ap is_done h in rw (h, refused) refl
]

perform-see :
    (w : Tools) (c : Call) (s : Context)
    → log_of (perform w c s) ≡ see w s.roles s.sessions c (log_of s)
unfolding perform see
perform-see w (Call.append_entry e) s = after-append w e s
perform-see w (Call.make_plan mode role_id target op) s =
    after-keeps (λ d. log_of d ≡ log_of s) s (plan w mode role_id target op s) refl
      (λ a s' h.
        let (r, _, _) =
          ensure_role-Readies role_id s (plan-eq-done w mode role_id target op s h).ready in
        log_of-Readies r)
perform-see w (Call.prepare_plan p) s =
    after-keeps (λ d. log_of d ≡ log_of s) s (prepare p s) refl (λ a s' h. prepare-log_of p s h)
perform-see w (Call.confirm_operation op native f c) s =
    after-keeps (λ d. log_of d ≡ log_of s) s (confirm w op native f c s) refl
      (λ a s' h. confirm-log_of w op native f c s h)
perform-see w (Call.reconcile_operation op markers) s =
    after-keeps (λ d. log_of d ≡ log_of s) s (reconcile w op markers s) refl
      (λ a s' h. elim (reconcile-eq-done w op markers s h) [
        | inl e ↦ ap log_of e
        | inr (native, q, k) ↦ confirm-log_of w op native Fidelity.exact none s k
      ])

-- After any calls, the logs that the tables hold are those of the abstract log: each entry that is
-- accepted was put into the log of its role unless its origin was there, in the order of the calls,
-- and no other call is seen there.
pub run-see_all :
    (w : Tools) (cs : List Call) (s : Context)
    → log_of (run w cs s) ≡ see_all w s.roles s.sessions cs (log_of s)
unfolding run see_all
run-see_all w [] s = refl
run-see_all w (c ∷ cs) s =
    let g = perform-Grows w c s in
    run-see_all w cs (perform w c s)
    ∙ ap (λ rs. see_all w rs (perform w c s).sessions cs (log_of (perform w c s))) g.roles
    ∙ ap (λ es. see_all w s.roles es cs (log_of (perform w c s))) g.sessions
    ∙ ap (see_all w s.roles s.sessions cs) (perform-see w c s)
