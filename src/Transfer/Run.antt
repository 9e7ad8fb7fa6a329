-- ===== src/Transfer/Run.antt =====
-- `run`, `runOrSettle` and `resumeInterrupted`.
use agent_router.Prelude.{
  ℕ, Bool, true, Option, none, some, List, [], ◌∷◌, ◌==◌, ◌&&◌, not, one, select, is_some, Text,
  text_eq, if◌then◌else◌,
}
use agent_router.Protocol.{Ident}
use agent_router.Transfer.Decide.{Decision, Capacity, decide_transfer}
use agent_router.Transfer.Rows.{
  Op, Meta, State, Code, Tables, Session, World, Event, say, op_of, is_active, is_preparing,
  is_exported, is_seeded, fail, move, set_meta,
}
use agent_router.Transfer.Ports.{
  Deps, Port, Receipt, Content, Outcome, PortContext, source_context, target_context, filled,
  same_text, or_empty, noted, undispatched,
}
use agent_router.Transfer.Settle.{settle_seeded, schedule_retry}
use agent_router.Transfer.Fork.{run_native_fork, target_of, to_seeded, unfinished}

abbrev pub fail_settled : Op → Code → World → World
fail_settled o code w = say (Event.settled o.role_id) (fail o.id code w)

abbrev pub no_fork : Meta → Meta
no_fork m = m

abbrev pub capacities : (target : Option ℕ) → Outcome (Option ℕ × Option ℕ) → Capacity
capacities target (Outcome.returned (window, usage)) = record {
  target_window_tokens = target;
  source_window_tokens = window;
  source_usage_tokens = usage;
}
capacities target (Outcome.thrown a b) = record {
  target_window_tokens = target;
  source_window_tokens = none;
  source_usage_tokens = none;
}

-- The capacities that the ports know. A throw ends the questions.
abbrev pub asked_source : Port → PortContext → Text → (target : Option ℕ) → World → Capacity × World
asked_source p c ref target w = elim p.source_capacity [
  | none ↦ (capacities target (Outcome.returned (none, none)), w)
  | some f ↦
      let a = f c ref w.tables in (capacities target a.outcome, record w { tables = a.tables })
]

abbrev pub asked_target : Port → PortContext → Text → Outcome (Option ℕ) → World → Capacity × World
asked_target p c ref (Outcome.returned window) w = asked_source p c ref window w
asked_target p c ref (Outcome.thrown a b) w = (capacities none (Outcome.thrown a b), w)

unfoldable pub measure :
    (source target : Port)
    → Op
    → (source_c target_c : PortContext) → Text
    → World
    → Capacity × World
measure sp tp o sc tc ref w = elim tp.target_window_tokens [
  | none ↦ asked_source sp sc ref none w
  | some f ↦
      let a = undispatched (f tc o.id (target_of o.id w.tables) w.tables) in
      asked_target sp sc ref a.outcome (noted o.id no_fork a w)
]

abbrev pub given : Text → Receipt → Meta → Meta
given seed r m =
    let matches = r.confirmed && same_text r.accepted_payload_hash (some seed) in
    record m {
      target_native_ref = some r.native_session_ref;
      target_created = true;
      target_confirmed = matches;
      accepted_payload_sha256 = if matches then some seed else none;
      native_receipt = r.native_receipt;
    }

-- After `initializeTarget`: only an error that says NOT_STARTED fails the operation.
unfoldable pub initialized : Deps → Op → (seed : Text) → Outcome Receipt → World → World
initialized d o seed (Outcome.thrown not_started no_retry) w = say (Event.settled o.role_id) (
    if not_started
    then fail o.id Code.target_init_failed w
    else if is_some (target_of o.id w.tables)
    then settle_seeded d o.id (to_seeded o.id is_exported (some Code.ambiguous) w)
    else schedule_retry o.id w)
initialized d o seed (Outcome.returned r) w =
    let recorded = target_of o.id w.tables in
    if filled recorded && not (same_text recorded (some r.native_session_ref))
    then say (Event.settled o.role_id) (
        to_seeded o.id is_exported (some Code.target_ref_mismatch)
          (set_meta o.id (λ m. record m { target_returned_ref = some r.native_session_ref }) w))
    else settle_seeded d o.id (to_seeded o.id is_exported none (set_meta o.id (given seed r) w))

unfoldable pub send_seed : Deps → Port → Op → PortContext → Text → World → World
send_seed d tp o tc text w =
    let seed = d.sha256 text in
    let w₁ = set_meta o.id (λ m. record m { seed_sha256 = some seed }) w in
    let a = tp.initialize_target tc text o.id seed (target_of o.id w₁.tables) w₁.tables in
    initialized d o seed a.outcome (noted o.id no_fork a w₁)

abbrev pub send_shorter : Deps → Port → Op → PortContext → Outcome Content → World → World
send_shorter d tp o tc (Outcome.thrown a b) w = fail_settled o Code.source_compression_unavailable w
send_shorter d tp o tc (Outcome.returned x) w =
    send_seed d tp o tc x.text
      (set_meta o.id (λ m. record m { compressed = true; compressed_truncated = x.truncated }) w)

-- The decision, and what it leads to.
unfoldable pub decided :
    Deps → (source target : Port) → Op → PortContext → Text → Capacity → Decision → World → World
decided d sp tp o tc text c (Decision.direct r) w = send_seed d tp o tc text w
decided d sp tp o tc text c Decision.ask_user w = fail_settled o Code.capacity_ask_user w
decided d sp tp o tc text c Decision.compress w = elim sp.compress_source [
  | none ↦ fail_settled o Code.source_compression_unavailable w
  | some f ↦
      let a = f text c.target_window_tokens w.tables in
      send_shorter d tp o tc a.outcome (record w { tables = a.tables })
]

abbrev pub decide_on :
    Deps → (source target : Port) → Op → PortContext → Text → Capacity × World → World
decide_on d sp tp o tc text (c, w) =
    decided d sp tp o tc text c (decide_transfer c)
      (set_meta o.id (λ m. record m { decision = some (decide_transfer c) }) w)

-- The content is there: the operation is exported.
abbrev pub exported_as :
    Deps
    → (source target : Port) → Op
    → (source_c target_c : PortContext) → Text
    → Outcome Content
    → World
    → World
exported_as d sp tp o sc tc ref (Outcome.thrown a b) w = fail_settled o Code.export_failed w
exported_as d sp tp o sc tc ref (Outcome.returned x) w =
    let w₁ =
      set_meta o.id
        (λ m. record m { exported_sha256 = some (d.sha256 x.text); truncated = x.truncated }) w in
    decide_on d sp tp o tc x.text
      (measure sp tp o sc tc ref (move o.id is_preparing State.exported (λ e. e) w₁))

unfoldable pub transfer :
    Deps → (source target : Port) → Op → (source_c target_c : PortContext) → Text → World → World
transfer d sp tp o sc tc ref w =
    let a = sp.export_context sc ref w.tables in
    exported_as d sp tp o sc tc ref a.outcome (record w { tables = a.tables })

-- The content was being sent when the process stopped: the target is only confirmed.
abbrev pub sent_before : Op → Bool
sent_before o =
    is_exported o.state
    && is_some o.meta.target_native_ref
    && is_some o.meta.seed_sha256
    && o.meta.seed_send_started

abbrev pub target_harness : Meta → Text
target_harness m = or_empty m.target_harness

abbrev pub source_harness : Meta → Text
source_harness m = elim m.source_harness [ none ↦ target_harness m | some h ↦ h ]

abbrev pub source_of : Op → Tables → Option Session
source_of o t = one (λ s. s.id == o.from_session_id && s.role_id == o.role_id) t.sessions

unfoldable pub run_plain : Deps → (source target : Port) → Op → Session → Text → World → World
run_plain d sp tp o s ref w =
    if sent_before o
    then settle_seeded d o.id (move o.id is_exported State.seeded (λ e. e) w)
    else transfer d sp tp o (source_context o.meta (source_harness o.meta) (some s.id))
        (target_context o.meta (target_harness o.meta)) ref w

unfoldable pub run_with : Deps → (source target : Port) → Op → Session → Text → World → World
run_with d sp tp o s ref w = elim sp.native_fork_target [
  | none ↦ run_plain d sp tp o s ref w
  | some f ↦
      if text_eq (source_harness o.meta) (target_harness o.meta)
      then run_native_fork d sp f o ref w
      else run_plain d sp tp o s ref w
]

unfoldable pub run_ports : Deps → Op → Option Port → Option Port → World → World
run_ports d o none tp w = fail_settled o Code.export_unsupported w
run_ports d o (some sp) none w = fail_settled o Code.export_unsupported w
run_ports d o (some sp) (some tp) w = elim (source_of o w.tables) [
  | none ↦ fail_settled o Code.race w
  | some s ↦
      if s.active
      then (if filled s.native_session_ref
          then run_with d sp tp o s (or_empty s.native_session_ref) w
          else fail_settled o Code.export_failed w)
      else fail_settled o Code.race w
]

unfoldable pub run : Deps → Ident → World → World
run d id w = elim (op_of id w.tables) [
  | none ↦ w
  | some o ↦
      if unfinished o.state
      then run_ports d o (d.ports (source_harness o.meta)) (d.ports (target_harness o.meta)) w
      else w
]

unfoldable pub run_or_settle : Deps → Ident → World → World
run_or_settle d id w = elim (op_of id w.tables) [
  | none ↦ w
  | some o ↦ if is_seeded o.state then settle_seeded d id w else run d id w
]

-- After a start of the process, every operation that is not finished is taken up. The source starts
-- them side by side; here one runs to its end before the next, and what others write while it waits
-- comes with its awaits. The handlers for exceptions of the database are left out.
abbrev pub resume_all : Deps → List Op → World → World
resume_all d [] w = w
resume_all d (o ∷ os) w =
    resume_all d os (if is_seeded o.state then settle_seeded d o.id w else run d o.id w)

unfoldable pub resume_interrupted : Deps → World → World
resume_interrupted d w = resume_all d (select (λ o. is_active o.state) w.tables.ops) w
