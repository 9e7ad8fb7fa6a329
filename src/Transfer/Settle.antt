-- ===== src/Transfer/Settle.antt =====
-- `scheduleRetry` and `settleSeeded`: a target that has been given the content is confirmed, and
-- then the transfer is committed.
use agent_router.Prelude.{
  ℕ, suc, Bool, true, false, Option, none, some, ◌==◌, ◌&&◌, ◌||◌, one, leb, ltb, Text,
  if◌then◌else◌,
}
use agent_router.Protocol.{Ident}
use agent_router.Transfer.Rows.{
  Op, Meta, Code, Tables, Session, World, Event, Commit, say, op_of, is_seeded, fail,
  mark_uncertain, set_meta, max_confirm_attempts, max_retries,
}
use agent_router.Transfer.Ports.{
  Deps, Port, Receipt, Awaited, Outcome, target_context, filled, is_sha256, same_text, or_empty,
}

-- After a bounded number of retries, the operation waits for a person.
unfoldable pub schedule_retry : Ident → World → World
schedule_retry id w = elim (op_of id w.tables) [
  | none ↦ w
  | some o ↦
      if leb max_retries o.meta.retries
      then mark_uncertain id Code.unresolved w
      else say (Event.retry_later id)
          (set_meta id (λ m. record m { retries = suc o.meta.retries }) w)
]

-- The row says that the target has been confirmed, for the hash that the row holds as sent.
abbrev pub is_confirmed : Meta → Bool
is_confirmed m =
    filled m.seed_sha256 && m.target_confirmed && same_text m.accepted_payload_sha256 m.seed_sha256

abbrev pub current_session : Ident → Tables → Option Session
current_session role_id t = one (λ s. s.role_id == role_id && s.active) t.sessions

abbrev pub race : Ident → Ident → World → World
race id role_id w = say (Event.settled role_id) (fail id Code.race w)

-- The check of the active session, and the commit. The row is as it was read at the start.
unfoldable pub commit_transfer : Deps → Op → Text → World → World
commit_transfer d o ref w = elim (current_session o.role_id w.tables) [
  | none ↦ race o.id o.role_id w
  | some s ↦
      if s.id == o.from_session_id
      then (let c : Commit = record {
        op_id = o.id;
        role_id = o.role_id;
        from_session_id = o.from_session_id;
        name = o.meta.name;
        target_harness = or_empty o.meta.target_harness;
        native_session_ref = ref;
      } in
          elim (d.commit c w.tables) [
            | none ↦ race o.id o.role_id w
            | some t ↦
                say (Event.settled o.role_id)
                  (record (say (Event.committing c w.tables) w) { tables = t })
          ])
      else race o.id o.role_id w
]

-- Whether a receipt confirms what was sent, or, for a fork whose hash is not known yet, anything.
abbrev pub confirms : Option Text → Outcome Receipt → Bool
confirms expected (Outcome.returned r) =
    r.confirmed
    && is_sha256 r.accepted_payload_hash
    && (same_text expected none || same_text r.accepted_payload_hash expected)
confirms expected (Outcome.thrown a b) = false

abbrev pub record_receipt : Outcome Receipt → Meta → Meta
record_receipt (Outcome.returned r) m = record m {
  target_confirmed = true;
  seed_sha256 = r.accepted_payload_hash;
  accepted_payload_sha256 = r.accepted_payload_hash;
  native_receipt = r.native_receipt;
}
record_receipt (Outcome.thrown a b) m = m

abbrev pub unconfirmed : Ident → (attempts : ℕ) → World → World
unconfirmed id attempts w =
    if ltb attempts max_confirm_attempts
    then schedule_retry id (mark_uncertain id Code.ambiguous w)
    else mark_uncertain id Code.unresolved w

-- The port is asked, without a write to the target.
abbrev pub ask : Port → Op → Text → Tables → Awaited Receipt
ask p o ref t =
    let c = target_context o.meta (or_empty o.meta.target_harness) in
    let plain = p.confirm_target c ref o.id o.meta.seed_sha256 t in
    if o.meta.native_fork
    then elim p.confirm_native_fork [
      | none ↦ plain
      | some f ↦ f c (or_empty o.meta.source_native_ref) ref o.id o.meta.seed_sha256 t
    ]
    else plain

unfoldable pub confirm_attempt : Deps → Port → Op → Text → World → World
confirm_attempt d p o ref w =
    let attempts = suc o.meta.confirm_attempts in
    let w₁ = set_meta o.id (λ m. record m { confirm_attempts = attempts }) w in
    let a = ask p o ref w₁.tables in
    let w₂ = record w₁ { tables = a.tables } in
    if confirms o.meta.seed_sha256 a.outcome
    then commit_transfer d o ref (set_meta o.id (record_receipt a.outcome) w₂)
    else unconfirmed o.id attempts w₂

-- What is known of the target allows an attempt.
abbrev pub resolvable : Meta → Bool
resolvable m = filled m.target_native_ref && (m.native_fork || filled m.seed_sha256)

unfoldable pub settle_row : Deps → Op → World → World
settle_row d o w = elim (d.ports (or_empty o.meta.target_harness)) [
  | none ↦ mark_uncertain o.id Code.unresolved w
  | some p ↦
      if resolvable o.meta
      then (if is_confirmed o.meta
          then commit_transfer d o (or_empty o.meta.target_native_ref) w
          else confirm_attempt d p o (or_empty o.meta.target_native_ref) w)
      else mark_uncertain o.id Code.unresolved w
]

unfoldable pub settle_seeded : Deps → Ident → World → World
settle_seeded d id w = elim (op_of id w.tables) [
  | none ↦ w
  | some o ↦ if is_seeded o.state then settle_row d o w else w
]
