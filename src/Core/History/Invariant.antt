-- ===== src/Core/History/Invariant.antt =====
-- The bounds hold in every state that a history reaches, and tasks move along the table.
use agent_router.Prelude.{
  ℕ, ◌+◌, ◌≤◌, ◌<◌, true, some, List, [], ◌∷◌, ◌++◌, ◌≡◌, refl, arith, map, update_where,
  count_where, ◌==◌, ◌&&◌, ltb, leb, subst, sym,
}
use agent_router.Prelude.Laws.{count_where-append, count_where_mono}
use agent_router.Protocol.{Ident}
use agent_router.Domain.{TaskState}
use agent_router.Domain.Laws.{is_final, allowed-not_final}
use agent_router.Store.{Db, Outside, Draw, AutoStart, Task}
use agent_router.Core.Dispatch.Gates.{Plan, role_starts, space_starts, admit, pass, Options}
use agent_router.Core.Dispatch.Start.{Dispatch, occupy, auto_start_of, lease_of}
use agent_router.Core.Dispatch.Admission.{
  admit-eq-pass, within_limits-eq-pass, free_resources-eq-pass,
}
use agent_router.Core.Dispatch.Effects.{Activates, Starts}
use agent_router.Core.Evolution.{Evolves, Evolves-refl, Evolves-trans, Leads, find_task}
use agent_router.Core.Calm.{Calm, slot_ids, is_running_slot, Distinct}
use agent_router.Core.History.{Call, perform, history}
use agent_router.Core.History.Steps.{Change, perform-Change}
use agent_router.Core.History.Bounds.{
  Bounded, Unique, role_window, space_window, live-occupy, ids-occupy, Distinct-lease_all,
  AllFree-of_any,
}

-- A start that the rate limit let pass keeps every window within the limit.
role_window-start :
    (now : ℕ) (role_id : Ident) (a : AutoStart) (starts : List AutoStart)
    → a.role_id ≡ role_id
    → a.started_at_ms ≡ now
    → role_starts now role_id starts < 5
    → (w : ℕ) (r : Ident) → role_window w r starts ≤ 5
    → role_window w r (starts ++ a ∷ []) ≤ 5
unfolding count_where
role_window-start now role_id a starts of_role at_now few w r before = ground (
  arith,
  count_where-append
      (λ a. a.role_id == r && leb w a.started_at_ms && ltb a.started_at_ms (w + 60000)) starts
      (a ∷ []),
  within,
)
  where
    within :
        r ≡ role_id
        → w ≤ now
        → now < w + 60000
        → role_window w r starts ≤ role_starts now role_id starts
    within e lo hi =
        count_where_mono
          (λ a. a.role_id == r && leb w a.started_at_ms && ltb a.started_at_ms (w + 60000))
          (λ a. a.role_id == role_id && ltb now (a.started_at_ms + 60000)) starts
          (λ x h. ground arith)

space_window-start :
    (now : ℕ) (space_id : Ident) (a : AutoStart) (starts : List AutoStart)
    → a.space_id ≡ space_id
    → a.started_at_ms ≡ now
    → space_starts now space_id starts < 30
    → (w : ℕ) (r : Ident) → space_window w r starts ≤ 30
    → space_window w r (starts ++ a ∷ []) ≤ 30
unfolding count_where
space_window-start now space_id a starts of_space at_now few w r before = ground (
  arith,
  count_where-append
      (λ a. a.space_id == r && leb w a.started_at_ms && ltb a.started_at_ms (w + 300000)) starts
      (a ∷ []),
  within,
)
  where
    within :
        r ≡ space_id
        → w ≤ now
        → now < w + 300000
        → space_window w r starts ≤ space_starts now space_id starts
    within e lo hi =
        count_where_mono
          (λ a. a.space_id == r && leb w a.started_at_ms && ltb a.started_at_ms (w + 300000))
          (λ a. a.space_id == space_id && ltb now (a.started_at_ms + 300000)) starts
          (λ x h. ground arith)

Calm-Bounded : {s s' : Db} → Calm s s' → Bounded s → Bounded s'
Calm-Bounded {s} {s'} c b = record {
  slots = subst Unique (sym c.slots.ids) b.slots;
  live = omega (arith, c.slots.live, b.live);
  leases = c.leases b.leases;
  role_rate = λ w r. subst (λ starts. role_window w r starts ≤ 5) (sym c.starts) (b.role_rate w r);
  space_rate =
      λ w r. subst (λ starts. space_window w r starts ≤ 30) (sym c.starts) (b.space_rate w r);
}

begun-Bounded :
    (opts : Options) (o : Outside) (role_id : Ident) (plan : Plan) (d : Dispatch) {s s₁ s' : Db}
    → admit opts o role_id s ≡ pass plan
    → Activates s s₁
    → Starts o role_id plan d s₁ s'
    → Bounded s
    → Bounded s'
begun-Bounded opts o role_id plan d {s} {s₁} {s'} admitted v st b =
    let (within, _, free, _) = admit-eq-pass opts o role_id s admitted in
    let (few, role_few, space_few) =
      within_limits-eq-pass o.now role_id plan.principal.space_id plan.task s within in
    let (unleased, different) = free_resources-eq-pass plan.bound.binding s free in
    let run = o.fresh Draw.run in
    let slots_eq =
      subst
        (λ xs.
          s'.role_slots ≡ update_where (λ t. t.role_id == role_id) (occupy plan.task.id run) xs)
        v.slots st.slots in
    let leases_eq =
      subst
        (λ ls.
          s'.resource_leases ≡ ls ++ map (lease_of run plan.bound.binding.epoch) plan.resources)
        v.leases st.leases in
    let starts_eq =
      subst (λ xs. s'.auto_starts ≡ xs ++ auto_start_of o role_id plan ∷ []) v.starts st.starts in
    record {
      slots =
          subst (λ xs. Unique (slot_ids xs)) (sym slots_eq)
            (subst Unique (sym (ids-occupy role_id plan.task.id run s.role_slots)) b.slots);
      live =
          subst (λ xs. count_where is_running_slot xs ≤ 3) (sym slots_eq)
            (omega (arith, few, live-occupy role_id plan.task.id run s.role_slots b.slots));
      leases = subst Distinct (sym leases_eq) (
          Distinct-lease_all run plan.bound.binding.epoch s.resource_leases plan.resources
            (AllFree-of_any s plan.resources unleased) different b.leases);
      role_rate = λ w r.
          subst (λ xs. role_window w r xs ≤ 5) (sym starts_eq)
            (role_window-start o.now role_id (auto_start_of o role_id plan) s.auto_starts refl refl
              role_few w r (b.role_rate w r));
      space_rate = λ w r.
          subst (λ xs. space_window w r xs ≤ 30) (sym starts_eq)
            (space_window-start o.now plan.principal.space_id (auto_start_of o role_id plan)
              s.auto_starts refl refl space_few w r (b.space_rate w r));
    }

pub Change-Bounded : {s s' : Db} → Change s s' → Bounded s → Bounded s'
Change-Bounded (Change.calm c) b = Calm-Bounded c b
Change-Bounded (Change.begun opts o role_id plan d s₁ admitted v st) b =
    begun-Bounded opts o role_id plan d admitted v st b

-- Whatever is called, in whatever order: from a state within the bounds, at most three roles have a
-- run, no two leases have one key, no role has started more than five runs in any sixty seconds, and
-- no space more than thirty in any three hundred.
pub history-Bounded : (cs : List Call) (s : Db) → Bounded s → Bounded (history cs s)
unfolding history
history-Bounded [] s b = b
history-Bounded (c ∷ cs) s b =
    history-Bounded cs (perform c s) (Change-Bounded (perform-Change c s) b)

Change-Evolves : {s s' : Db} → Change s s' → Evolves s.tasks s'.tasks
Change-Evolves (Change.calm c) = c.tasks
Change-Evolves {s} {s'} (Change.begun opts o role_id plan d s₁ admitted v st) =
    subst (λ ts. Evolves ts s'.tasks) v.tasks st.tasks

-- Whatever is called, in whatever order, no task is lost, and every task has moved along the
-- transitions of the table.
pub history-Evolves : (cs : List Call) (s : Db) → Evolves s.tasks (history cs s).tasks
unfolding history
history-Evolves [] s = Evolves-refl s.tasks
history-Evolves (c ∷ cs) s =
    Evolves-trans (Change-Evolves (perform-Change c s)) (history-Evolves cs (perform c s))

stays : (a : TaskState) {b : TaskState} → is_final a ≡ true → Leads a b → b ≡ a
stays a final Leads.stay = refl
stays a final (Leads.go {b} {c} l h) =
    let e = stays a final l in cc (allowed-not_final b c h, final, e)

-- A task that is delivered, handed off, partial, failed or cancelled stays so through every history.
pub history-final :
    (cs : List Call) (s : Db) (id : Ident) (t : Task)
    → find_task id s.tasks ≡ some t
    → is_final t.state ≡ true
    → (u : Task) × (find_task id (history cs s).tasks ≡ some u) × (u.state ≡ t.state)
history-final cs s id t found final =
    let (u, there, leads) = (history-Evolves cs s).at id t found in
    (u, there, stays t.state final leads)
