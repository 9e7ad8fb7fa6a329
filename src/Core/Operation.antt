-- ===== src/Core/Operation.antt =====
-- The idempotent envelope of the role tools: the method `operation` of packages/runtime/core.ts.
use agent_router.Prelude.{
  ℕ, suc, Bool, true, false, Option, none, some, List, [], ◌∷◌, ◌++◌, ◌&&◌, ◌==◌, leb, ltb, same,
  one, update_where, length, max, Text, text_eq, if◌then◌else◌,
}
use agent_router.Protocol.{Ident, Failure, Code, Category, Result, ok, err, ◌>>=◌, ◌>>◌, require}
use agent_router.Store.{Db, Scope, Operation, Response}
use agent_router.Core.Identity.{Identity, identity}

abbrev pub scope_of : Identity → Scope
scope_of p = record { binding_id = p.binding_id; epoch = p.epoch; run_id = p.run_id }

abbrev pub scope_eq : Scope → Scope → Bool
scope_eq a b = a.binding_id == b.binding_id && a.epoch == b.epoch && same a.run_id b.run_id

-- `select * from operations where scope_key=? and operation_id=?`
unfoldable pub recorded : Scope → Text → Db → Option Operation
recorded scope op s = one (λ o. scope_eq o.scope scope && text_eq o.operation_id op) s.operations

-- An autoincremented key: one more than every key so far.
unfoldable pub next_row : List Operation → ℕ
next_row [] = 1
next_row (o ∷ os) = max (suc o.id) (next_row os)

abbrev pub set_response : Response → Operation → Operation
set_response r o = record o { response = r }

-- The body of the transaction for an operation that is not recorded yet.
unfoldable pub execute :
    Identity → Text → Ident → (ℕ → Db → Result (Response × Db)) → Db → Result (Response × Db)
execute p op hash fn s = do
  identity p false s
  let row = next_row s.operations
  let entry : Operation = record {
    id = row;
    scope = scope_of p;
    operation_id = op;
    request_hash = hash;
    response = Response.empty;
  }
  (response, s') ← fn row (record s { operations = s.operations ++ entry ∷ [] })
  ok (
    response,
    record s' {
      operations = update_where (λ o. o.id == row) (set_response response) s'.operations;
    },
  )

-- An operation that is recorded: the same request gets the same answer, another is a conflict.
unfoldable pub replay : Ident → Operation → Db → Result (Response × Db)
replay hash o s =
    if o.request_hash == hash
    then ok (o.response, s)
    else err (Failure.route Code.operation_conflict Category.conflict)

-- `catch (e)`: what is no `RouteError` is reported as an unavailable store.
abbrev pub as_route {ℓ} : {A : Type ℓ} → Result A → Result A
as_route (ok a) = ok a
as_route (err (Failure.route c k)) = err (Failure.route c k)
as_route (err Failure.broken) = err (Failure.route Code.store_unavailable Category.unavailable)

abbrev pub op_valid : Text → Bool
op_valid op = ltb 0 (length op) && leb (length op) 200

unfoldable pub operation :
    Identity → Text → Ident → (ℕ → Db → Result (Response × Db)) → Db → Result (Response × Db)
operation p op hash fn s = do
  require (op_valid op) (Failure.route Code.invalid_operation_id Category.validation)
  identity p true s
  as_route (elim (recorded (scope_of p) op s) [
    | some o ↦ replay hash o s
    | none ↦ execute p op hash fn s
  ])
