-- ===== src/Domain.antt =====
-- packages/domain/index.ts: the states of a task and the table of their transitions.
pub mod Laws
use agent_router.Prelude.{ℕ, Bool, true, false, List, [], ◌∷◌, any, ◌==◌, refl, ◌≡◌}
use agent_router.Protocol.{Failure, Code, Category, Result, require}

pub data TaskState : Type 0 where
  queued active waiting_input result_staged needs_attention suspended : TaskState
  delivered handed_off partial failed cancelled : TaskState

-- A number for each state, by which states are compared.
abbrev pub ordinal : TaskState → ℕ
ordinal TaskState.queued = 0
ordinal TaskState.active = 1
ordinal TaskState.waiting_input = 2
ordinal TaskState.result_staged = 3
ordinal TaskState.needs_attention = 4
ordinal TaskState.suspended = 5
ordinal TaskState.delivered = 6
ordinal TaskState.handed_off = 7
ordinal TaskState.partial = 8
ordinal TaskState.failed = 9
ordinal TaskState.cancelled = 10

abbrev pub state_eq : TaskState → TaskState → Bool
state_eq a b = ordinal a == ordinal b

-- `taskTransitions`
unfoldable pub task_transitions : TaskState → List TaskState
task_transitions TaskState.queued =
    TaskState.active ∷ TaskState.cancelled ∷ TaskState.suspended ∷ []
task_transitions TaskState.active =
    TaskState.waiting_input ∷ TaskState.result_staged ∷ TaskState.needs_attention
    ∷ TaskState.suspended ∷ []
task_transitions TaskState.waiting_input =
    TaskState.active ∷ TaskState.result_staged ∷ TaskState.needs_attention ∷ TaskState.suspended
    ∷ []
task_transitions TaskState.result_staged =
    TaskState.delivered ∷ TaskState.handed_off ∷ TaskState.partial ∷ TaskState.failed
    ∷ TaskState.cancelled ∷ TaskState.needs_attention ∷ []
task_transitions TaskState.needs_attention = TaskState.suspended ∷ []
task_transitions TaskState.suspended = TaskState.queued ∷ []
task_transitions _ = []

-- `taskTransitions[from]?.includes(to)`
unfoldable pub allowed : TaskState → TaskState → Bool
unfolding task_transitions any
allowed from to = any (state_eq to) (task_transitions from)

unfoldable pub assert_transition : TaskState → TaskState → Result (Unit {0})
assert_transition from to =
    require (allowed from to) (Failure.route Code.illegal_task_transition Category.conflict)
