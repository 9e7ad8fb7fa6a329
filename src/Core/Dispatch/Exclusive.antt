-- ===== src/Core/Dispatch/Exclusive.antt =====
-- A dispatch starts a run for a role that has none, and for no other.
use agent_router.Prelude.{
  true, Option, none, some, List, ◌≡◌, refl, arith, one, update_where, ◌==◌, ap, ◌∙◌, sym, subst,
}
use agent_router.Prelude.Laws.{one-update_where, one-holds}
use agent_router.Protocol.{Ident, ok}
use agent_router.Domain.{TaskState}
use agent_router.Store.{Db, Outside, Draw, Task, RoleSlot}
use agent_router.Core.Evolution.{find_task}
use agent_router.Core.Dispatch.{dispatch}
use agent_router.Core.Dispatch.Gates.{Options, all_active}
use agent_router.Core.Dispatch.Start.{Dispatch, occupy}
use agent_router.Core.Dispatch.Admission.{admit-eq-pass, select_task-eq-pass}
use agent_router.Core.Dispatch.Effects.{Effect, dispatch-eq-ok}
use agent_router.Core.Recover.{recover}
use agent_router.Core.Recover.Laws.{recover-slot}

abbrev pub slot_of : Ident → Db → Option RoleSlot
slot_of role_id s = one (λ t. t.role_id == role_id) s.role_slots

-- What holds before and after a dispatch that starts a run.
pub record Started (role_id : Ident) (d : Dispatch) (s s' : Db) : Type 0 where
  pub role_active : all_active s role_id ≡ some true
  pub was_free : (p : RoleSlot) × (slot_of role_id s ≡ some p) × (p.active_run_id ≡ none)
  pub is_taken :
      (p : RoleSlot) × (slot_of role_id s' ≡ some p)
      × (p.active_run_id ≡ some d.id)
      × (p.active_task_id ≡ some d.task_id)
  pub task_active :
      (t : Task) × (find_task d.task_id s'.tasks ≡ some t) × (t.state ≡ TaskState.active)

-- The slot after it is occupied.
occupied :
    (role_id task run : Ident) (xs : List RoleSlot) {p : RoleSlot}
    → one (λ t. t.role_id == role_id) xs ≡ some p
    → one
        (λ t. t.role_id == role_id)
        (update_where (λ t. t.role_id == role_id) (occupy task run) xs)
      ≡ some (occupy task run p)
occupied role_id task run xs {p} found =
    let hit : (p.role_id == role_id) ≡ true = one-holds (λ t. t.role_id == role_id) xs found in
    let u =
      one-update_where (λ t. t.role_id == role_id) (λ t. t.role_id == role_id) (occupy task run) xs
        (λ t. refl) in
    ground arith

-- A dispatch that starts a run: the role, its space and its project are active, and its slot held no
-- run; then the slot holds the run and its task, and that task is active.
pub dispatch_starts :
    (opts : Options) (o : Outside) (role_id : Ident) (s : Db) {d : Dispatch} {s' : Db}
    → dispatch opts o role_id s ≡ ok (some d, s')
    → Started role_id d s s'
dispatch_starts opts o role_id s {d} {s'} h = elim (dispatch-eq-ok opts o role_id s h) [
  | Effect.idle nothing i ↦ absurd (ground arith)
  | Effect.started plan a g e s₁ what admitted v _ st ↦
      let same : e ≡ d = ground arith in
      let (_, chosen, _, _) = admit-eq-pass opts o role_id s admitted in
      let (p, found, free, active, _) = select_task-eq-pass opts role_id s chosen in
      let (t, there, in_state) = st.began in
      let now : slot_of role_id s' ≡ some (occupy plan.task.id (o.fresh Draw.run) p) =
        ap (one (λ t. t.role_id == role_id)) (
          st.slots
          ∙ ap (update_where (λ t. t.role_id == role_id) (occupy plan.task.id (o.fresh Draw.run)))
              v.slots)
        ∙ occupied role_id plan.task.id (o.fresh Draw.run) s.role_slots found in
      subst (λ (x : Dispatch). Started role_id x s s') same
        (record {
          role_active = active;
          was_free = (p, found, free);
          is_taken = (
            occupy plan.task.id (o.fresh Draw.run) p,
            now,
            ap some (sym st.named),
            ap some (sym st.of_task),
          );
          task_active =
              (t, subst (λ id. find_task id s'.tasks ≡ some t) (sym st.of_task) there, in_state);
        })
]

-- After a recovery no dispatch starts a run for a role whose slot held one before the recovery.
pub recover-dispatch :
    (opts : Options) (o : Outside) (role_id : Ident) (s : Db) (p : RoleSlot) {s' s'' : Db}
    {out : Option Dispatch} {run : Ident}
    → slot_of role_id s ≡ some p
    → p.active_run_id ≡ some run
    → recover s ≡ ok s'
    → dispatch opts o role_id s' ≡ ok (out, s'')
    → out ≡ none
recover-dispatch opts o role_id s p {s' = s'} {out = none} found busy r h = refl
recover-dispatch opts o role_id s p {s' = s'} {out = some d} found busy r h =
    let (q, there, same) = recover-slot s role_id p r found in
    let st = dispatch_starts opts o role_id s' h in
    let (q', there', free) = st.was_free in
    let agree : q ≡ q' = ground arith in absurd (ground arith)
