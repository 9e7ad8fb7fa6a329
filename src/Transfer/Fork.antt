-- ===== src/Transfer/Fork.antt =====
-- `runNativeFork`: within one harness, the session is forked by the driver.
use agent_router.Prelude.{
  Bool, true, false, Option, none, some, ◌&&◌, ◌||◌, not, is_some, Text, if◌then◌else◌,
}
use agent_router.Protocol.{Ident}
use agent_router.Transfer.Rows.{
  Op, Meta, State, Code, Tables, World, Event, say, op_of, is_preparing, is_exported, fail,
  mark_uncertain, move, set_meta,
}
use agent_router.Transfer.Ports.{
  Deps, Port, Receipt, Awaited, Outcome, PortContext, target_context, filled, is_sha256, same_text,
  or_empty, noted, quiet, undispatched,
}
use agent_router.Transfer.Settle.{settle_seeded, schedule_retry}

abbrev pub unfinished : State → Bool
unfinished s = is_preparing s || is_exported s

abbrev pub meta_now : Op → Tables → Meta
meta_now o t = elim (op_of o.id t) [ none ↦ o.meta | some r ↦ r.meta ]

-- The reference of the target, where the row has one.
abbrev pub target_of : Ident → Tables → Option Text
target_of id t = elim (op_of id t) [ none ↦ none | some r ↦ r.meta.target_native_ref ]

abbrev pub as_fork : Text → Meta → Meta
as_fork source_ref m = record m { native_fork = true; source_native_ref = some source_ref }

-- A target that is known already is only confirmed, where the driver can.
abbrev pub fork_call :
    Port
    → ((c : PortContext) (source_ref : Text) (op : Ident) (target_ref : Option Text)
        → Tables
        → Awaited Receipt)
    → PortContext
    → Text
    → Ident
    → Meta
    → Tables
    → Awaited Receipt
fork_call p fork c source_ref op m t = elim p.confirm_native_fork [
  | none ↦ undispatched (fork c source_ref op m.target_native_ref t)
  | some confirm ↦
      if filled m.target_native_ref
      then quiet (confirm c source_ref (or_empty m.target_native_ref) op m.seed_sha256 t)
      else undispatched (fork c source_ref op m.target_native_ref t)
]

-- The receipt is confirmed, has a hash, and is of the target that was known.
abbrev pub accepts : Option Text → Receipt → Bool
accepts known r =
    r.confirmed
    && is_sha256 r.accepted_payload_hash
    && (not (filled known) || same_text (some r.native_session_ref) known)

abbrev pub forked : Text → Receipt → Meta → Meta
forked source_ref r m = record m {
  native_fork = true;
  source_native_ref = some source_ref;
  target_native_ref = some r.native_session_ref;
  target_created = true;
  seed_sha256 = r.accepted_payload_hash;
  accepted_payload_sha256 = r.accepted_payload_hash;
  target_confirmed = true;
  native_receipt = r.native_receipt;
}

abbrev pub to_seeded : Ident → (State → Bool) → Option Code → World → World
to_seeded id from code w = move id from State.seeded (λ c. code) w

-- The branches of the `catch`, by what the message says and what target is known.
unfoldable pub fork_failed : Deps → Op → (not_started no_retry : Bool) → World → World
fork_failed d o not_started no_retry w = say (Event.settled o.role_id) (
    if is_some (target_of o.id w.tables)
    then settle_seeded d o.id (to_seeded o.id unfinished (some Code.ambiguous) w)
    else if not_started
    then fail o.id Code.target_init_failed w
    else if no_retry
    then mark_uncertain o.id Code.unresolved w
    else schedule_retry o.id w)

abbrev pub fork_outcome : Deps → Op → Text → (known : Option Text) → Outcome Receipt → World → World
fork_outcome d o source_ref known (Outcome.thrown a b) w = fork_failed d o a b w
fork_outcome d o source_ref known (Outcome.returned r) w =
    if accepts known r
    then settle_seeded d o.id
        (to_seeded o.id unfinished none (set_meta o.id (forked source_ref r) w))
    else fork_failed d o false false w

unfoldable pub run_native_fork :
    Deps
    → Port
    → ((c : PortContext) (source_ref : Text) (op : Ident) (target_ref : Option Text)
        → Tables
        → Awaited Receipt)
    → Op
    → Text
    → World
    → World
run_native_fork d p fork o source_ref w =
    let m = meta_now o w.tables in
    let a =
      fork_call p fork (target_context o.meta (or_empty o.meta.target_harness)) source_ref o.id m
        w.tables in
    fork_outcome d o source_ref m.target_native_ref a.outcome (noted o.id (as_fork source_ref) a w)
