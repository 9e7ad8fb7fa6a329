-- ===== src/Core/Idempotence.antt =====
-- A call under an operation's identifier that has been recorded is answered from the record.
use agent_router.Prelude.{
  ℕ, Bool, true, Option, none, some, [], ◌∷◌, ◌++◌, ◌≡◌, ◌≢◌, refl, ◌==◌, ◌&&◌, arith, one,
  update_where, Option-cases, inl, inr, ◌⊎◌, subst, Text, text_eq, text_eq_refl, same, ==-refl,
}
use agent_router.Prelude.Laws.{one-append_none, one-update_where}
use agent_router.Protocol.{Ident, Code, Category, Failure, Result, ok, err, Result-cases}
use agent_router.Store.{Db, Operation, Response}
use agent_router.Core.Identity.{Identity, Bound, identity}
use agent_router.Core.Operation.{
  scope_of, scope_eq, recorded, next_row, set_response, execute, replay, op_valid, operation,
}

-- A body of an operation, which leaves the record of operations to the envelope.
abbrev pub Body : Type 0
Body = ℕ → Db → Result (Response × Db)

abbrev pub KeepsLog : Body → Type 0
KeepsLog fn =
    (row : ℕ) (s : Db) (r : Response) (s' : Db)
    → fn row s ≡ ok (r, s')
    → s'.operations ≡ s.operations

abbrev pub entry_of : Identity → Text → Ident → Response → ℕ → Operation
entry_of p op hash r row = record {
  id = row;
  scope = scope_of p;
  operation_id = op;
  request_hash = hash;
  response = r;
}

abbrev pub logged : Identity → Text → Ident → Db → Db
logged p op hash s = record s {
  operations = s.operations ++ entry_of p op hash Response.empty (next_row s.operations) ∷ [];
}

same_refl : (o : Option Ident) → same o o ≡ true
same_refl none = refl
same_refl (some a) = ==-refl a

-- What an operation that is carried out has done.
pub execute-eq-ok :
    (p : Identity) (op : Text) (hash : Ident) (fn : Body) (s : Db) {r : Response} {s' : Db}
    → execute p op hash fn s ≡ ok (r, s')
    → (s₁ : Db) × (fn (next_row s.operations) (logged p op hash s) ≡ ok (r, s₁))
      × (s' ≡ record s₁ {
        operations =
            update_where (λ o. o.id == next_row s.operations) (set_response r) s₁.operations;
      })
unfolding execute
execute-eq-ok p op hash fn s {r} {s'} h =
    elim (Result-cases (fn (next_row s.operations) (logged p op hash s))) [
      | inr (_, e) ↦ absurd (ground arith)
      | inl ((q, s₁), e) ↦ (s₁, ground arith, ground arith)
    ]

-- The record that an operation leaves is found by the next call.
execute-recorded :
    (p : Identity) (op : Text) (hash : Ident) (fn : Body) (s : Db) {r : Response} {s' : Db}
    → KeepsLog fn
    → recorded (scope_of p) op s ≡ none
    → execute p op hash fn s ≡ ok (r, s')
    → recorded (scope_of p) op s' ≡ some (entry_of p op hash r (next_row s.operations))
unfolding recorded one
execute-recorded p op hash fn s {r} {s'} keeps new h =
    let (s₁, e, done) = execute-eq-ok p op hash fn s h in
    rw
      (
        done,
        keeps (next_row s.operations) (logged p op hash s) r s₁ e,
        one-update_where test (λ o. o.id == next_row s.operations) (set_response r)
            (logged p op hash s).operations (λ o. refl),
        one-append_none test s.operations
            (entry_of p op hash Response.empty (next_row s.operations) ∷ []) new,
      )
      (ground (arith, same_refl p.run_id, text_eq_refl op))
  where
    test : Operation → Bool
    test o = scope_eq o.scope (scope_of p) && text_eq o.operation_id op

-- An operation that succeeds was answered from its record, or was carried out.
pub operation-eq-ok :
    (p : Identity) (op : Text) (hash : Ident) (fn : Body) (s : Db) {r : Response} {s' : Db}
    → operation p op hash fn s ≡ ok (r, s')
    → (op_valid op ≡ true)
      × (((q : Operation) × (recorded (scope_of p) op s ≡ some q)
            × (q.request_hash ≡ hash)
            × (q.response ≡ r)
            × (s ≡ s'))
          ⊎ ((recorded (scope_of p) op s ≡ none) × (execute p op hash fn s ≡ ok (r, s'))))
unfolding operation replay
operation-eq-ok p op hash fn s {r} {s'} h = elim (Option-cases (recorded (scope_of p) op s)) [
  | inr (q, e) ↦ (ground arith, inl (q, e, ground arith, ground arith, ground arith))
  | inl e ↦ (ground arith, inr (e, ground arith))
]

-- After a success the record is there, with the request's hash and the answer.
pub operation-recorded :
    (p : Identity) (op : Text) (hash : Ident) (fn : Body) (s : Db) {r : Response} {s' : Db}
    → KeepsLog fn
    → operation p op hash fn s ≡ ok (r, s')
    → (q : Operation) × (op_valid op ≡ true)
      × (recorded (scope_of p) op s' ≡ some q)
      × (q.request_hash ≡ hash)
      × (q.response ≡ r)
operation-recorded p op hash fn s {r} {s'} keeps h =
    let (valid, how) = operation-eq-ok p op hash fn s h in
    elim how [
      | inl (q, e, eh, er, es) ↦
          (q, valid, subst (λ d. recorded (scope_of p) op d ≡ some q) es e, eh, er)
      | inr (e, done) ↦ (
        entry_of p op hash r (next_row s.operations),
        valid,
        execute-recorded p op hash fn s keeps e done,
        refl,
        refl,
      )
    ]

-- The same operation again gives the same answer and changes nothing, whatever its body would do.
pub operation_twice :
    (p : Identity) (op : Text) (hash : Ident) (fn again : Body) (s : Db) {r : Response} {s' : Db}
    (b : Bound)
    → KeepsLog fn
    → operation p op hash fn s ≡ ok (r, s')
    → identity p true s' ≡ ok b
    → operation p op hash again s' ≡ ok (r, s')
unfolding operation replay
operation_twice p op hash fn again s {r} {s'} b keeps h known =
    let (q, valid, found, same_hash, same_answer) = operation-recorded p op hash fn s keeps h in
    ground arith

-- Another request under the identifier of a recorded operation is a conflict.
pub operation_conflict :
    (p : Identity) (op : Text) (hash other : Ident) (fn again : Body) (s : Db) {r : Response}
    {s' : Db} (b : Bound)
    → KeepsLog fn
    → operation p op hash fn s ≡ ok (r, s')
    → identity p true s' ≡ ok b
    → hash ≢ other
    → operation p op other again s' ≡ err (Failure.route Code.operation_conflict Category.conflict)
unfolding operation replay
operation_conflict p op hash other fn again s {r} {s'} b keeps h known differs =
    let (q, valid, found, same_hash, same_answer) = operation-recorded p op hash fn s keeps h in
    ground arith
