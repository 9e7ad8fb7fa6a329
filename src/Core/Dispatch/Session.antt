-- ===== src/Core/Dispatch/Session.antt =====
-- The method `ensureActiveActivation` of packages/runtime/core.ts, with the triggers and the unique
-- index of migration 011 that its writes can meet.
use agent_router.Prelude.{
  ℕ, suc, Bool, true, false, Option, none, some, List, [], ◌∷◌, ◌++◌, ◌&&◌, not, ◌==◌, is_some, one,
  update_where, max, if◌then◌else◌,
}
use agent_router.Protocol.{Ident, Failure, Result, ok, err, ◌>>=◌}
use agent_router.Store.{Db, Outside, Draw, Binding, RoleSession, Affinity, Activation}

-- A column that is null agrees with everything.
abbrev pub agrees : Option Ident → Ident → Bool
agrees none b = true
agrees (some a) b = a == b

abbrev pub affinity_agrees : Affinity → Ident → Bool
affinity_agrees Affinity.absent w = true
affinity_agrees Affinity.malformed w = false
affinity_agrees (Affinity.workspace a) w = agrees a w

-- The session may run under the binding.
unfoldable pub session_fits : RoleSession → Binding → Bool
session_fits e b =
    agrees e.harness b.harness
    && agrees e.driver_id b.harness
    && affinity_agrees e.affinity b.workspace_id

abbrev pub is_bare : Affinity → Bool
is_bare (Affinity.workspace none) = true
is_bare _ = false

abbrev pub set_session : Binding → RoleSession → RoleSession
set_session b e = record e {
  harness = some b.harness;
  driver_id = some b.harness;
  affinity = Affinity.workspace (some b.workspace_id);
}

-- A session with no harness takes the binding's. The trigger refuses to replace an affinity that is
-- there, and one without a workspace would be.
unfoldable pub adopt : Binding → RoleSession → Db → Result Db
adopt b e s =
    if is_some e.harness
    then ok s
    else (if is_bare e.affinity
        then err Failure.broken
        else ok (record s {
          role_sessions =
              update_where (λ r. r.id == e.id && not (is_some r.harness)) (set_session b)
                s.role_sessions;
        }))

abbrev pub serves : Ident → Binding → Activation → Bool
serves session b a =
    a.role_session_id == session && a.binding_id == b.id && a.binding_epoch == b.epoch

abbrev pub end_it : Activation → Activation
end_it a = record a { active = false }

-- `coalesce(max(activation_epoch), 0)`
unfoldable pub last_epoch : Ident → List Activation → ℕ
last_epoch role_id [] = 0
last_epoch role_id (a ∷ rest) =
    max (if a.role_id == role_id then a.activation_epoch else 0) (last_epoch role_id rest)

-- A fresh activation, its predecessor ended.
unfoldable pub renew_activation :
    Outside → Ident → Binding → Ident → Option Activation → Db → Activation × Db
renew_activation o role_id b session old s = (fresh, record s { activations = ended ++ fresh ∷ [] })
  where
    ended : List Activation
    ended = elim old [
      | none ↦ s.activations
      | some a ↦ update_where (λ r. r.id == a.id && r.active) end_it s.activations
    ]

    fresh : Activation
    fresh = record {
      id = o.fresh Draw.activation;
      role_id = role_id;
      role_session_id = session;
      binding_id = b.id;
      binding_epoch = b.epoch;
      activation_epoch = suc (last_epoch role_id s.activations);
      active = true;
    }

abbrev pub keep_or_renew :
    Outside → Ident → Binding → Ident → Option Activation → Db → Activation × Db
keep_or_renew o role_id b session none s = renew_activation o role_id b session none s
keep_or_renew o role_id b session (some a) s =
    if serves session b a then (a, s) else renew_activation o role_id b session (some a) s

abbrev pub some_activation : Activation × Db → Option Activation × Db
some_activation (a, s) = (some a, s)

unfoldable pub ensure_active_activation :
    Outside → Ident → Binding → Ident → Db → Result (Option Activation × Db)
ensure_active_activation o role_id b session s =
    elim (one (λ e. e.id == session && e.role_id == role_id && e.active) s.role_sessions) [
      | none ↦ ok (none, s)
      | some e ↦
          if session_fits e b
          then (do
            s₁ ← adopt b e s
            ok (
                some_activation (
                  keep_or_renew o role_id b session
                    (one (λ a. a.role_id == role_id && a.active) s₁.activations) s₁)))
          else ok (none, s)
    ]
