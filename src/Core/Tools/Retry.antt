-- ===== src/Core/Tools/Retry.antt =====
-- Retrying a tool call.
use agent_router.Prelude.{ℕ, true, ◌≡◌, ◌≢◌, arith, Text, Option-cases, inl, inr, sym, ◌∙◌}
use agent_router.Protocol.{Code, Category, Failure, ok, err, Input, Tool}
use agent_router.Store.{Db, Outside, Response}
use agent_router.Core.External.{External}
use agent_router.Core.Identity.{Identity, Bound, identity}
use agent_router.Core.Operation.{operation}
use agent_router.Core.Messages.{send, send_body}
use agent_router.Core.Finish.{finish, finish_body}
use agent_router.Core.Wait.{wait, wait_body}
use agent_router.Core.Quiet.{Quiet, send_body-Quiet, finish_body-Quiet, wait_body-Quiet}
use agent_router.Core.Idempotence.{Body, operation_twice, operation_conflict}
use agent_router.Core.Tools.{RoleTool, role_call}

abbrev pub tool_of : RoleTool → Tool
tool_of RoleTool.route_send = Tool.send
tool_of RoleTool.route_finish = Tool.finish
tool_of RoleTool.route_wait = Tool.wait

-- A tool call that can succeed is an operation on the digest of its tool and input.
pub record IsOperation (x : External) (p : Identity) (tool : RoleTool) (input : Input)
    : Type 0 where
  pub body : Outside → Body
  pub quiet :
      (o : Outside) (row : ℕ) (s : Db) (r : Response) (s' : Db)
      → body o row s ≡ ok (r, s')
      → Quiet s s'
  pub same :
      (o : Outside) (op : Text) (s : Db)
      → role_call x o p tool op input s
        ≡ operation p op (x.digest (record { tool = tool_of tool; input = input })) (body o) s

send-IsOperation :
    (x : External) (p : Identity) (input : Input) (o : Outside) (op : Text) (s : Db)
    {a : Response × Db}
    → role_call x o p RoleTool.route_send op input s ≡ ok a
    → IsOperation x p RoleTool.route_send input
unfolding role_call send
send-IsOperation x p (Input.request q) o op s h = record {
  body = λ o. send_body x o p (Input.request q);
  quiet = λ o row s r s' e. send_body-Quiet x o p (Input.request q) row s e;
  same = λ o op s. ground arith;
}
send-IsOperation x p (Input.notice n) o op s h = record {
  body = λ o. send_body x o p (Input.notice n);
  quiet = λ o row s r s' e. send_body-Quiet x o p (Input.notice n) row s e;
  same = λ o op s. ground arith;
}
send-IsOperation x p (Input.finish f) o op s h = absurd (ground arith)
send-IsOperation x p (Input.wait w) o op s h = absurd (ground arith)
send-IsOperation x p Input.error o op s h = absurd (ground arith)

finish-IsOperation :
    (x : External) (p : Identity) (input : Input) (o : Outside) (op : Text) (s : Db)
    {a : Response × Db}
    → role_call x o p RoleTool.route_finish op input s ≡ ok a
    → IsOperation x p RoleTool.route_finish input
unfolding role_call finish
finish-IsOperation x p (Input.finish f) o op s h = elim (Option-cases p.task_id) [
  | inl e ↦ absurd (ground arith)
  | inr (id, e) ↦ record {
    body = λ o. finish_body x o p id f;
    quiet = λ o row s r s' e. finish_body-Quiet x o p id f row s e;
    same = λ o op s. ground arith;
  }
]
finish-IsOperation x p (Input.request q) o op s h = absurd (ground arith)
finish-IsOperation x p (Input.notice n) o op s h = absurd (ground arith)
finish-IsOperation x p (Input.wait w) o op s h = absurd (ground arith)
finish-IsOperation x p Input.error o op s h = absurd (ground arith)

wait-IsOperation :
    (x : External) (p : Identity) (input : Input) (o : Outside) (op : Text) (s : Db)
    {a : Response × Db}
    → role_call x o p RoleTool.route_wait op input s ≡ ok a
    → IsOperation x p RoleTool.route_wait input
unfolding role_call wait
wait-IsOperation x p (Input.wait w) o op s h = elim (Option-cases p.task_id) [
  | inl e ↦ absurd (ground arith)
  | inr (id, e) ↦ record {
    body = λ o. wait_body p id w;
    quiet = λ o row s r s' e. wait_body-Quiet p id w row s e;
    same = λ o op s. ground arith;
  }
]
wait-IsOperation x p (Input.request q) o op s h = absurd (ground arith)
wait-IsOperation x p (Input.notice n) o op s h = absurd (ground arith)
wait-IsOperation x p (Input.finish f) o op s h = absurd (ground arith)
wait-IsOperation x p Input.error o op s h = absurd (ground arith)

pub IsOperation-of_ok :
    (x : External) (o : Outside) (p : Identity) (tool : RoleTool) (op : Text) (input : Input)
    (s : Db) {a : Response × Db}
    → role_call x o p tool op input s ≡ ok a
    → IsOperation x p tool input
IsOperation-of_ok x o p RoleTool.route_send op input s h = send-IsOperation x p input o op s h
IsOperation-of_ok x o p RoleTool.route_finish op input s h = finish-IsOperation x p input o op s h
IsOperation-of_ok x o p RoleTool.route_wait op input s h = wait-IsOperation x p input o op s h

-- A tool call that succeeded may be sent again under its operation's identifier, at any later time:
-- as long as the principal still stands in the state that it left, it gets the same answer and
-- changes nothing.
pub role_call_twice :
    (x : External) (o later : Outside) (p : Identity) (tool : RoleTool) (op : Text) (input : Input)
    (s : Db) {r : Response} {s' : Db} (b : Bound)
    → role_call x o p tool op input s ≡ ok (r, s')
    → identity p true s' ≡ ok b
    → role_call x later p tool op input s' ≡ ok (r, s')
role_call_twice x o later p tool op input s {r} {s'} b h known =
    let t = IsOperation-of_ok x o p tool op input s h in
    let d = x.digest (record { tool = tool_of tool; input = input }) in
    t.same later op s'
    ∙ operation_twice p op d (t.body o) (t.body later) s b
        (λ row s r s' e. (t.quiet o row s r s' e).log) (sym (t.same o op s) ∙ h) known

-- Another input under the identifier of a call that succeeded is a conflict, as long as the principal
-- still stands in the state that the first call left, where the digests of the two calls differ and
-- the second call succeeds in some state.
pub role_call_conflict :
    (x : External) (o later : Outside) (p : Identity) (tool : RoleTool) (op : Text)
    (input other : Input) (s : Db) {r : Response} {s' : Db} (b : Bound) {a : Response × Db} (t : Db)
    → role_call x o p tool op input s ≡ ok (r, s')
    → identity p true s' ≡ ok b
    → x.digest (record { tool = tool_of tool; input = input })
      ≢ x.digest (record { tool = tool_of tool; input = other })
    → role_call x later p tool op other t ≡ ok a
    → role_call x later p tool op other s'
      ≡ err (Failure.route Code.operation_conflict Category.conflict)
role_call_conflict x o later p tool op input other s {r} {s'} b t h known differs formed =
    let c = IsOperation-of_ok x o p tool op input s h in
    let c' = IsOperation-of_ok x later p tool op other t formed in
    let d = x.digest (record { tool = tool_of tool; input = input }) in
    let d' = x.digest (record { tool = tool_of tool; input = other }) in
    c'.same later op s'
    ∙ operation_conflict p op d d' (c.body o) (c'.body later) s b
        (λ row s r s' e. (c.quiet o row s r s' e).log) (sym (c.same o op s) ∙ h) known differs
