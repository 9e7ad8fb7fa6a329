-- ===== src/Core/Dispatch/Input.antt =====
-- The request that a run is given by `dispatch` of packages/runtime/core.ts: the task's, and on a
-- continuation that waits for the user the first formal input, or else the last message.
use agent_router.Prelude.{
  ℕ, Bool, true, false, Option, none, some, List, [], ◌∷◌, ◌++◌, ◌&&◌, ◌||◌, not, ◌==◌, ltb, leb,
  holds, is_some, one, Text, if◌then◌else◌,
}
use mathlib.Core.List.{reverse}
use agent_router.Protocol.{Ident, Request, WaitFor}
use agent_router.Store.{Db, Task, Kind, Snapshot, TaskInput, TaskInputNote, ConversationItem}
use agent_router.Core.Dispatch.Gates.{Plan}

-- The white space and line ends of ECMAScript, which `trim` removes.
abbrev pub is_space : ℕ → Bool
is_space c =
    leb 9 c && leb c 13
    || c == 32
    || c == 160
    || c == 5760
    || leb 8192 c && leb c 8202
    || c == 8232
    || c == 8233
    || c == 8239
    || c == 8287
    || c == 12288
    || c == 65279

unfoldable pub trim_start : Text → Text
trim_start [] = []
trim_start (c ∷ s) = let rest = trim_start s in if is_space c then rest else c ∷ s

unfoldable pub trim : Text → Text
trim s = reverse (trim_start (reverse (trim_start s)))

-- `order by created_at_ms, id limit 1` among the inputs of a task that nothing has consumed.
abbrev pub earlier : TaskInput → TaskInput → Bool
earlier i j =
    ltb i.created_at_ms j.created_at_ms || i.created_at_ms == j.created_at_ms && ltb i.id j.id

abbrev pub is_open : Ident → TaskInput → Bool
is_open task i = i.task_id == task && not (is_some i.consumed_at_ms)

unfoldable pub first_open : Ident → List TaskInput → Option TaskInput
first_open task [] = none
first_open task (i ∷ is) =
    let rest = first_open task is in
    if is_open task i
    then elim rest [ none ↦ some i | some j ↦ if earlier j i then some j else some i ]
    else rest

-- The last message of the user on a task.
unfoldable pub last_message : Ident → List ConversationItem → Option ConversationItem
last_message task [] = none
last_message task (c ∷ cs) =
    let rest = last_message task cs in
    if is_some rest then rest else (if holds c.task_id task && c.user_message then some c else none)

-- The request of a run, and the formal input that it consumes.
pub record Given : Type 0 where
  pub snapshot : Snapshot
  pub consumes : Option Ident

-- `'\n\n[用户续办输入]\n'`
abbrev pub heading : Text
heading = 10 ∷ 10 ∷ 91 ∷ 29992 ∷ 25143 ∷ 32493 ∷ 21150 ∷ 36755 ∷ 20837 ∷ 93 ∷ 10 ∷ []

abbrev pub plain : Task → Given
plain t = record { snapshot = record { request = t.request; task_input = none }; consumes = none }

abbrev pub with_body : Request → Text → Request
with_body r b = record r { body = r.body ++ heading ++ b }

-- An input whose text is empty after `trim` is no input.
abbrev pub annotated : Task → Text → Option Ident → TaskInputNote → Option Given
annotated t [] id note = none
annotated t (c ∷ b) id note = some (record {
  snapshot = record { request = with_body t.request (c ∷ b); task_input = some note };
  consumes = id;
})

abbrev pub from_legacy : Task → Option ConversationItem → Option Given
from_legacy t none = none
from_legacy t (some c) = annotated t (trim c.body) none (TaskInputNote.legacy (trim c.body))

abbrev pub from_user : Task → Option TaskInput → Db → Option Given
from_user t (some i) s =
    annotated t (trim i.payload) (some i.id) (TaskInputNote.formal i.id (trim i.payload))
from_user t none s = from_legacy t (last_message t.id s.conversation_items)

abbrev pub waits_for_user : Db → Ident → Bool
waits_for_user s id = elim (one (λ w. w.task_id == id) s.wait_records) [
  | none ↦ false
  | some w ↦ elim w.waiting_for [ WaitFor.user_input ↦ true | _ ↦ false ]
]

abbrev pub is_continuation : Kind → Bool
is_continuation Kind.continuation = true
is_continuation _ = false

-- `none` is a continuation that lacks its input.
unfoldable pub given : Plan → Db → Option Given
given plan s =
    if is_continuation plan.kind && waits_for_user s plan.task.id
    then from_user plan.task (first_open plan.task.id s.task_inputs) s
    else some (plain plan.task)
