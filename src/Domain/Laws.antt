-- ===== src/Domain/Laws.antt =====
-- Facts about the transition table.
use agent_router.Prelude.{Bool, true, false, ◌≡◌, arith}
use agent_router.Domain.{TaskState, allowed}

-- The states that no transition leaves.
abbrev pub is_final : TaskState → Bool
is_final TaskState.delivered = true
is_final TaskState.handed_off = true
is_final TaskState.partial = true
is_final TaskState.failed = true
is_final TaskState.cancelled = true
is_final _ = false

pub allowed-not_final : (a b : TaskState) → allowed a b ≡ true → is_final a ≡ false
unfolding allowed
allowed-not_final TaskState.queued b h = ground arith
allowed-not_final _ b h = ground arith
