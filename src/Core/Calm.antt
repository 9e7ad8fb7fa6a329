-- ===== src/Core/Calm.antt =====
-- What an operation that starts no run does to the tables that bound the starting of runs: tasks
-- move along the table, no slot comes to life, leases stay distinct, no start is recorded.
use agent_router.Prelude.{
  ◌≤◌, Bool, true, false, some, List, [], ◌∷◌, ◌≡◌, refl, ◌==◌, arith, any, map, update_where,
  count_where, delete_where, is_some, inl, inr, sym, ◌∙◌, subst,
}
use agent_router.Protocol.{Ident}
use agent_router.Store.{Db, RoleSlot, ResourceLease}
use agent_router.Core.Evolution.{Evolves, Evolves-refl, Evolves-trans}
use agent_router.Core.Quiet.{Quiet}
use agent_router.Core.Dispatch.Gates.{resource_eq, set_reason}
use agent_router.Core.Dispatch.Effects.{Idles}

abbrev pub is_running_slot : RoleSlot → Bool
is_running_slot t = is_some t.active_run_id

abbrev pub slot_ids : List RoleSlot → List Ident
slot_ids = map (λ t. t.role_id)

-- The same slots, and no more of them with a run.
pub record Shrinks (xs ys : List RoleSlot) : Type 0 where
  pub ids : slot_ids ys ≡ slot_ids xs
  pub live : count_where is_running_slot ys ≤ count_where is_running_slot xs

pub Shrinks-refl : (xs : List RoleSlot) → Shrinks xs xs
Shrinks-refl xs = record { ids = refl; live = omega arith }

pub Shrinks-trans : {xs ys zs : List RoleSlot} → Shrinks xs ys → Shrinks ys zs → Shrinks xs zs
Shrinks-trans a b = record { ids = b.ids ∙ a.ids; live = omega arith }

-- An update that keeps the role and brings no slot to life.
pub Shrinks-update_where :
    (p : RoleSlot → Bool) (f : RoleSlot → RoleSlot)
    → ((t : RoleSlot) → (f t).role_id ≡ t.role_id)
    → ((t : RoleSlot) → is_running_slot (f t) ≡ true → is_running_slot t ≡ true)
    → (xs : List RoleSlot) → Shrinks xs (update_where p f xs)
unfolding update_where count_where
Shrinks-update_where p f keep dim [] = record { ids = refl; live = omega arith }
Shrinks-update_where p f keep dim (x ∷ xs) =
    let rest = Shrinks-update_where p f keep dim xs in
    record { ids = ground (arith, keep x, rest.ids); live = ground (arith, dim x, rest.live) }

abbrev pub same_key : ResourceLease → ResourceLease → Bool
same_key l m = resource_eq l.resource_key m.resource_key

-- No two leases have one key.
abbrev pub Distinct : List ResourceLease → Type 0
Distinct [] = Unit {0}
Distinct (l ∷ ls) = (any (same_key l) ls ≡ false) × Distinct ls

any-select_false :
    (p q : ResourceLease → Bool) (ls : List ResourceLease)
    → any p ls ≡ false
    → any p (delete_where q ls) ≡ false
unfolding any delete_where
any-select_false p q [] h = refl
any-select_false p q (l ∷ ls) h = ground (arith, any-select_false p q ls)

pub Distinct-delete_where :
    (q : ResourceLease → Bool) (ls : List ResourceLease)
    → Distinct ls
    → Distinct (delete_where q ls)
unfolding any delete_where
Distinct-delete_where q [] d = tt
Distinct-delete_where q (l ∷ ls) d =
    ground (arith, any-select_false (same_key l) q ls d.0, Distinct-delete_where q ls d.1)

any-same_key :
    (p : ResourceLease → Bool) (f : ResourceLease → ResourceLease) (l : ResourceLease)
    → ((m : ResourceLease) → (f m).resource_key ≡ m.resource_key)
    → (ls : List ResourceLease) → any (same_key l) (update_where p f ls) ≡ any (same_key l) ls
unfolding any update_where
any-same_key p f l keep [] = refl
any-same_key p f l keep (m ∷ ms) = ground (arith, keep m, any-same_key p f l keep ms)

-- An update that keeps the keys.
pub Distinct-update_where :
    (p : ResourceLease → Bool) (f : ResourceLease → ResourceLease)
    → ((m : ResourceLease) → (f m).resource_key ≡ m.resource_key)
    → (ls : List ResourceLease) → Distinct ls
    → Distinct (update_where p f ls)
unfolding any update_where
Distinct-update_where p f keep [] d = tt
Distinct-update_where p f keep (l ∷ ls) d = ground (
  arith,
  keep l,
  any-same_key p f l keep ls,
  any-same_key p f (f l) keep ls,
  Distinct-update_where p f keep ls d.1,
)

pub record Calm (s s' : Db) : Type 0 where
  pub tasks : Evolves s.tasks s'.tasks
  pub slots : Shrinks s.role_slots s'.role_slots
  pub leases : Distinct s.resource_leases → Distinct s'.resource_leases
  pub starts : s'.auto_starts ≡ s.auto_starts

pub Calm-refl : (s : Db) → Calm s s
Calm-refl s = record {
  tasks = Evolves-refl s.tasks;
  slots = Shrinks-refl s.role_slots;
  leases = λ d. d;
  starts = refl;
}

pub Calm-trans : {s t u : Db} → Calm s t → Calm t u → Calm s u
Calm-trans a b = record {
  tasks = Evolves-trans a.tasks b.tasks;
  slots = Shrinks-trans a.slots b.slots;
  leases = λ d. b.leases (a.leases d);
  starts = b.starts ∙ a.starts;
}

pub Calm-of_Quiet : {s s' : Db} → Quiet s s' → Calm s s'
Calm-of_Quiet {s} {s'} q = record {
  tasks = q.tasks;
  slots = subst (Shrinks s.role_slots) (sym q.slots) (Shrinks-refl s.role_slots);
  leases = subst (λ ls. Distinct s.resource_leases → Distinct ls) (sym q.leases) (λ d. d);
  starts = q.starts;
}

pub Calm-of_Idles : {role_id : Ident} {s s' : Db} → Idles role_id s s' → Calm s s'
Calm-of_Idles {role_id} {s} {s'} i = record {
  tasks = subst (Evolves s.tasks) (sym i.tasks) (Evolves-refl s.tasks);
  slots = elim i.slots [
    | inl e ↦ subst (Shrinks s.role_slots) (sym e) (Shrinks-refl s.role_slots)
    | inr (r, e) ↦ subst (Shrinks s.role_slots) (sym e) (
        Shrinks-update_where (λ t. t.role_id == role_id) (set_reason (some r)) (λ t. refl)
          (λ t h. h) s.role_slots)
  ];
  leases = subst (λ ls. Distinct s.resource_leases → Distinct ls) (sym i.leases) (λ d. d);
  starts = i.starts;
}
