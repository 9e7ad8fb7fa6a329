-- ===== src/Transfer/Decide.antt =====
-- Whether the content of the source goes to the target as it is: `decideTransfer`, `inheritSupported`.
use agent_router.Prelude.{
  ℕ, ◌≤◌, ◌<◌, Option, none, some, leb, ◌≡◌, ◌⊎◌, inl, inr, refl, arith, if◌then◌else◌, Bool-cases,
}

pub data Reason : Type 0 where
  target_at_least_source usage_fits_target : Reason

pub data Decision : Type 0 where
  direct : Reason → Decision
  compress ask_user : Decision

pub record Capacity : Type 0 where
  pub target_window_tokens : Option ℕ
  pub source_window_tokens : Option ℕ
  pub source_usage_tokens : Option ℕ

-- What is decided where the source's window is larger.
abbrev pub decide_usage : (target : ℕ) → Option ℕ → Decision
decide_usage target none = Decision.ask_user
decide_usage target (some usage) =
    if leb usage target then Decision.direct Reason.usage_fits_target else Decision.compress

abbrev pub decide_windows : Option ℕ → Option ℕ → Option ℕ → Decision
decide_windows none source usage = Decision.ask_user
decide_windows (some target) none usage = Decision.ask_user
decide_windows (some target) (some source) usage =
    if leb source target
    then Decision.direct Reason.target_at_least_source
    else decide_usage target usage

unfoldable pub decide_transfer : Capacity → Decision
decide_transfer c =
    decide_windows c.target_window_tokens c.source_window_tokens c.source_usage_tokens

-- What each decision says of the sizes.
unfoldable pub Right : (target source usage : Option ℕ) → Decision → Type 0
Right target source usage (Decision.direct r) =
    (t s : ℕ) × (target ≡ some t) × (source ≡ some s) × ((u : ℕ) → usage ≡ some u → u ≤ s → u ≤ t)
Right target source usage Decision.compress =
    (t s u : ℕ) × (target ≡ some t) × (source ≡ some s) × (usage ≡ some u) × (t < u) × (t < s)
Right target source usage Decision.ask_user =
    (target ≡ none)
    ⊎ ((source ≡ none)
        ⊎ ((t s : ℕ) × (target ≡ some t) × (source ≡ some s) × (t < s) × (usage ≡ none)))

decide_usage-Right : (t s : ℕ) (u : Option ℕ) → t < s → Right (some t) (some s) u (decide_usage t u)
unfolding Right
decide_usage-Right t s none h = inr (inr (t, s, refl, refl, h, refl))
decide_usage-Right t s (some u) h = elim (Bool-cases (leb u t)) [
  | inl within ↦ rw within (t, s, refl, refl, λ v e l. ground arith)
  | inr over ↦ rw over (t, s, u, refl, refl, refl, ground arith, h)
]

decide_windows-Right : (t s u : Option ℕ) → Right t s u (decide_windows t s u)
unfolding Right
decide_windows-Right none s u = inl refl
decide_windows-Right (some t) none u = inr (inl refl)
decide_windows-Right (some t) (some s) u = elim (Bool-cases (leb s t)) [
  | inl wide ↦ rw wide (t, s, refl, refl, λ v e l. ground arith)
  | inr narrow ↦ rw narrow (decide_usage-Right t s u (ground arith))
]

-- The decision is right about the content, whichever sizes are known. Where it is direct, both
-- windows are known, and a usage within the source's window is within the target's. Where it is to
-- compress, all sizes are known, and the usage is more than the target's window. Where the user is
-- asked, a window is unknown, or the target's is the smaller one and the usage is unknown.
pub decide_transfer-Right :
    (c : Capacity)
    → Right c.target_window_tokens c.source_window_tokens c.source_usage_tokens (decide_transfer c)
unfolding decide_transfer
decide_transfer-Right c =
    decide_windows-Right c.target_window_tokens c.source_window_tokens c.source_usage_tokens
