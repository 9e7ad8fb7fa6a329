-- ===== src/Transfer/Due.antt =====
-- When a transfer may be committed: what the source and the target must be then.
pub mod Shown
use agent_router.Prelude.{true, false, Option, none, some, ◌≡◌, ◌⊎◌, Text}
use agent_router.Protocol.{Ident}
use agent_router.Transfer.Rows.{Op, Commit, Tables, Session, op_of}
use agent_router.Transfer.Ports.{
  Deps, Port, Receipt, Awaited, Outcome, PortContext, is_sha256, or_empty, target_context,
}
use agent_router.Transfer.Settle.{current_session}

-- The row says that the target has accepted the hash that the row holds as sent.
pub record Recorded (o : Op) : Type 0 where
  pub hash : Text
  pub sent : o.meta.seed_sha256 ≡ some hash
  pub confirmed : o.meta.target_confirmed ≡ true
  pub accepted : o.meta.accepted_payload_sha256 ≡ some hash

-- What the driver answers when it is asked about a row: a native fork is confirmed as one where the
-- driver can, and the hash that the row holds as sent goes with the question.
pub data Asks (p : Port) (ref : Text) (o : Op) (before : Tables) (a : Awaited Receipt)
    : Type 0 where
  as_fork :
      (f : (c : PortContext) (source_ref target_ref : Text) (op : Ident) (expected : Option Text)
        → Tables
        → Awaited Receipt)
      → o.meta.native_fork ≡ true
      → p.confirm_native_fork ≡ some f
      → a
        ≡ f
            (target_context o.meta (or_empty o.meta.target_harness))
            (or_empty o.meta.source_native_ref)
            ref
            o.id
            o.meta.seed_sha256
            before
      → Asks p ref o before a
  as_target :
      (o.meta.native_fork ≡ false) ⊎ (p.confirm_native_fork ≡ none)
      → a
        ≡ p.confirm_target
            (target_context o.meta (or_empty o.meta.target_harness))
            ref
            o.id
            o.meta.seed_sha256
            before
      → Asks p ref o before a

-- The driver of the target was asked about the row, as it stood in the tables of the call, and its
-- receipt confirms the hash that the row held as sent, or any where it is a fork that held none.
pub record Asked (d : Deps) (ref : Text) (o : Op) (before : Tables) (t : Tables) : Type 0 where
  pub port : Port
  pub driver : d.ports (or_empty o.meta.target_harness) ≡ some port
  pub answer : Awaited Receipt
  pub asks : Asks port ref o before answer
  pub receipt : Receipt
  pub returned : answer.outcome ≡ Outcome.returned receipt
  pub confirmed : receipt.confirmed ≡ true
  pub hash : is_sha256 receipt.accepted_payload_hash ≡ true
  pub same :
      (receipt.accepted_payload_hash ≡ o.meta.seed_sha256)
      ⊎ ((o.meta.seed_sha256 ≡ none) × (o.meta.native_fork ≡ true))
  -- The sessions are as the driver left them, and the row now holds the hash of the receipt.
  pub sessions : t.sessions ≡ answer.tables.sessions
  pub row :
      (q : Op)
      → op_of o.id t ≡ some q
      → (q.meta.target_confirmed ≡ true)
        × (q.meta.seed_sha256 ≡ receipt.accepted_payload_hash)
        × (q.meta.accepted_payload_sha256 ≡ receipt.accepted_payload_hash)

-- How the target is known to have the content, at a commit in these tables.
pub data Proven (d : Deps) (c : Commit) (t : Tables) : Type 0 where
  recorded :
      (o : Op)
      → op_of c.op_id t ≡ some o
      → or_empty o.meta.target_native_ref ≡ c.native_session_ref
      → Recorded o
      → Proven d c t
  asked :
      (o : Op) (before : Tables)
      → op_of c.op_id before ≡ some o
      → or_empty o.meta.target_native_ref ≡ c.native_session_ref
      → Asked d c.native_session_ref o before t
      → Proven d c t

-- A commit that is called where it may be: the source is the active session of its role, and the
-- target is known to have the content.
pub record Due (d : Deps) (c : Commit) (t : Tables) : Type 0 where
  pub current : (s : Session) × (current_session c.role_id t ≡ some s) × (s.id ≡ c.from_session_id)
  pub proven : Proven d c t
