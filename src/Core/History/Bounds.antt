-- ===== src/Core/History/Bounds.antt =====
-- What holds in every state that a history reaches: the limits that `dispatch` of
-- packages/runtime/core.ts is there to keep.
use agent_router.Prelude.{
  ℕ, suc, ◌+◌, ◌≤◌, Bool, false, List, [], ◌∷◌, ◌++◌, ◌≡◌, refl, arith, any, map, update_where,
  count_where, ◌==◌, ◌&&◌, ltb, leb, append_assoc, append-nil,
}
use agent_router.Prelude.Laws.{any-append_false}
use agent_router.Protocol.{Ident}
use agent_router.Store.{Db, RoleSlot, ResourceLease, Resource, AutoStart}
use agent_router.Core.Dispatch.Gates.{resource_eq, leased, live_slots}
use agent_router.Core.Dispatch.Start.{occupy, lease_of}
use agent_router.Core.Dispatch.Admission.{Different}
use agent_router.Core.Calm.{slot_ids, is_running_slot, Distinct, same_key}

-- Identifiers that are pairwise different: `role_id` is the key of the slots.
abbrev pub Unique : List Ident → Type 0
Unique [] = Unit {0}
Unique (i ∷ is) = (any (λ j. j == i) is ≡ false) × Unique is

-- The starts of a role, or of a space, in a window of time that begins at `w`.
abbrev pub role_window : ℕ → Ident → List AutoStart → ℕ
role_window w role_id starts =
    count_where
      (λ a. a.role_id == role_id && leb w a.started_at_ms && ltb a.started_at_ms (w + 60000)) starts

abbrev pub space_window : ℕ → Ident → List AutoStart → ℕ
space_window w space_id starts =
    count_where
      (λ a. a.space_id == space_id && leb w a.started_at_ms && ltb a.started_at_ms (w + 300000))
      starts

pub record Bounded (s : Db) : Type 0 where
  pub slots : Unique (slot_ids s.role_slots)
  pub live : live_slots s ≤ 3
  pub leases : Distinct s.resource_leases
  pub role_rate : (w : ℕ) (role_id : Ident) → role_window w role_id s.auto_starts ≤ 5
  pub space_rate : (w : ℕ) (space_id : Ident) → space_window w space_id s.auto_starts ≤ 30

-- An update of rows that are not there.
untouched :
    (role_id : Ident) (f : RoleSlot → RoleSlot) (xs : List RoleSlot)
    → any (λ j. j == role_id) (slot_ids xs) ≡ false
    → update_where (λ t. t.role_id == role_id) f xs ≡ xs
unfolding any update_where
untouched role_id f [] h = refl
untouched role_id f (x ∷ xs) h = ground (arith, untouched role_id f xs)

-- Occupying a role's slot brings at most one slot to life.
pub live-occupy :
    (role_id task run : Ident) (xs : List RoleSlot)
    → Unique (slot_ids xs)
    → count_where is_running_slot (update_where (λ t. t.role_id == role_id) (occupy task run) xs)
      ≤ suc (count_where is_running_slot xs)
unfolding any update_where count_where
live-occupy role_id task run [] u = omega arith
live-occupy role_id task run (x ∷ xs) u =
    ground (arith, untouched role_id (occupy task run) xs, live-occupy role_id task run xs u.1)

pub ids-occupy :
    (role_id task run : Ident) (xs : List RoleSlot)
    → slot_ids (update_where (λ t. t.role_id == role_id) (occupy task run) xs) ≡ slot_ids xs
unfolding update_where
ids-occupy role_id task run [] = refl
ids-occupy role_id task run (x ∷ xs) = ground (arith, ids-occupy role_id task run xs)

abbrev pub holds_key : ResourceLease → Resource → Bool
holds_key l r = resource_eq l.resource_key r

-- One more lease, with a key that is free.
Distinct-insert :
    (run : Ident) (epoch : ℕ) (r : Resource) (ls : List ResourceLease)
    → any (λ l. holds_key l r) ls ≡ false
    → Distinct ls
    → Distinct (ls ++ lease_of run epoch r ∷ [])
unfolding any
Distinct-insert run epoch r [] h d = (refl, tt)
Distinct-insert run epoch r (l ∷ ls) h d = ground (
  arith,
  any-append_false (same_key l) ls (lease_of run epoch r ∷ []),
  Distinct-insert run epoch r ls,
)

free-after :
    (run : Ident) (epoch : ℕ) (r q : Resource) (ls : List ResourceLease)
    → resource_eq r q ≡ false
    → any (λ l. holds_key l q) ls ≡ false
    → any (λ l. holds_key l q) (ls ++ lease_of run epoch r ∷ []) ≡ false
unfolding any
free-after run epoch r q [] h k = ground arith
free-after run epoch r q (l ∷ ls) h k = ground (arith, free-after run epoch r q ls)

-- All the resources of a list are free.
abbrev pub AllFree : List ResourceLease → List Resource → Type 0
AllFree ls [] = Unit {0}
AllFree ls (r ∷ rs) = (any (λ l. holds_key l r) ls ≡ false) × AllFree ls rs

AllFree-after :
    (run : Ident) (epoch : ℕ) (r : Resource) (ls : List ResourceLease) (rs : List Resource)
    → any (resource_eq r) rs ≡ false
    → AllFree ls rs
    → AllFree (ls ++ lease_of run epoch r ∷ []) rs
unfolding any
AllFree-after run epoch r ls [] h a = tt
AllFree-after run epoch r ls (q ∷ rs) h a = (
  free-after run epoch r q ls (ground arith) a.0,
  AllFree-after run epoch r ls rs (ground arith) a.1,
)

pub Distinct-lease_all :
    (run : Ident) (epoch : ℕ) (ls : List ResourceLease) (rs : List Resource)
    → AllFree ls rs
    → Different rs
    → Distinct ls
    → Distinct (ls ++ map (lease_of run epoch) rs)
Distinct-lease_all run epoch ls [] a v d = rw (append-nil ls) d
Distinct-lease_all run epoch ls (r ∷ rs) a v d =
    rw (← append_assoc ls (lease_of run epoch r ∷ []) (map (lease_of run epoch) rs)) (
      Distinct-lease_all run epoch (ls ++ lease_of run epoch r ∷ []) rs
        (AllFree-after run epoch r ls rs v.0 a.1) v.1 (Distinct-insert run epoch r ls a.0 d))

pub AllFree-of_any :
    (s : Db) (rs : List Resource) → any (leased s) rs ≡ false → AllFree s.resource_leases rs
unfolding any
AllFree-of_any s [] h = tt
AllFree-of_any s (r ∷ rs) h = (ground arith, AllFree-of_any s rs (ground arith))
