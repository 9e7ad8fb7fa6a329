-- ===== src/Core/Dispatch/Admission.antt =====
-- What the gates of a dispatch have established when they let it pass.
use agent_router.Prelude.{
  ℕ, true, false, none, some, List, [], ◌∷◌, ◌≡◌, ◌<◌, ◌==◌, arith, one, any, Option-cases, inl,
  inr,
}
use agent_router.Protocol.{Ident}
use agent_router.Store.{Db, Outside, Binding, Task, Kind, Resource, RoleSlot}
use agent_router.Core.Dispatch.Gates.{
  Options, pass, Plan, admit, select_task, within_limits, choose, free_resources, auth_resources,
  leased, resource_eq, live_slots, role_starts, space_starts, all_active,
}

pub admit-eq-pass :
    (opts : Options) (o : Outside) (role_id : Ident) (s : Db) {plan : Plan}
    → admit opts o role_id s ≡ pass plan
    → (within_limits o.now role_id plan.principal.space_id plan.task s ≡ pass tt)
      × (select_task opts role_id s ≡ pass (plan.task, plan.kind))
      × (free_resources plan.bound.binding s ≡ pass plan.resources)
      × (plan.task.role_session_id ≡ some plan.role_session_id)
unfolding admit
admit-eq-pass opts o role_id s {plan} h = ground arith

pub within_limits-eq-pass :
    (now : ℕ) (role_id space_id : Ident) (t : Task) (s : Db)
    → within_limits now role_id space_id t s ≡ pass tt
    → (live_slots s < 3)
      × (role_starts now role_id s.auto_starts < 5)
      × (space_starts now space_id s.auto_starts < 30)
unfolding within_limits
within_limits-eq-pass now role_id space_id t s h = ground arith

-- Resources that are pairwise different.
abbrev pub Different : List Resource → Type 0
Different [] = Unit {0}
Different (r ∷ rs) = (any (resource_eq r) rs ≡ false) × Different rs

pub free_resources-eq-pass :
    (b : Binding) (s : Db) {rs : List Resource}
    → free_resources b s ≡ pass rs
    → (any (leased s) rs ≡ false) × Different rs
unfolding free_resources auth_resources any
free_resources-eq-pass b s {rs} h = ground arith

-- The slot of the role is free, and the task is the slot's own that waits, or one in the queue.
pub select_task-eq-pass :
    (opts : Options) (role_id : Ident) (s : Db) {t : Task} {k : Kind}
    → select_task opts role_id s ≡ pass (t, k)
    → (slot : RoleSlot) × (one (λ t. t.role_id == role_id) s.role_slots ≡ some slot)
      × (slot.active_run_id ≡ none)
      × (all_active s role_id ≡ some true)
      × (choose opts role_id slot.active_task_id s ≡ pass (t, k))
unfolding select_task
select_task-eq-pass opts role_id s {t} {k} h =
    elim (Option-cases (one (λ t. t.role_id == role_id) s.role_slots)) [
      | inl e ↦ absurd (ground arith)
      | inr (slot, e) ↦ (slot, e, ground arith, ground arith, ground arith)
    ]
