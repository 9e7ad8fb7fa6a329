-- ===== src/Transfer/Kept/Whole.antt =====
-- What every call of the engine keeps.
use agent_router.Prelude.{Option, none, some, List, [], ◌∷◌, ◌≡◌, refl, select, Text, text_eq}
use agent_router.Protocol.{Ident}
use agent_router.Transfer.Decide.{decide_transfer}
use agent_router.Transfer.Rows.{
  Op, State, Code, Tables, Session, World, op_of, is_seeded, is_exported, is_preparing, is_active,
  set_meta, move,
}
use agent_router.Transfer.Ports.{Deps, Port, Content, Outcome, PortContext, filled, or_empty}
use agent_router.Transfer.Settle.{settle_seeded}
use agent_router.Transfer.Fork.{unfinished}
use agent_router.Transfer.Run.{
  measure, exported_as, transfer, sent_before, source_of, run_plain, run_with, run_ports, run,
  run_or_settle, resume_all, resume_interrupted, source_harness, target_harness,
}
use agent_router.Transfer.Kept.{Kept, by_test, by_option}
use agent_router.Transfer.Kept.Settled.{settle_seeded-Kept}
use agent_router.Transfer.Kept.Runs.{
  is_exported-is_active, is_preparing-is_active, run_native_fork-Kept, fail_settled-Kept,
  measure-Kept, decided-Kept,
}

-- A call of the engine.
pub data Act : Type 0 where
  runs settles runs_or_settles : Ident → Act
  resumes : Act

unfoldable pub act : Deps → Act → World → World
act d (Act.runs id) w = run d id w
act d (Act.settles id) w = settle_seeded d id w
act d (Act.runs_or_settles id) w = run_or_settle d id w
act d Act.resumes w = resume_interrupted d w

-- What the world may become: by calls of the engine, in any order, and by what others do between them.
pub data Reaches (d : Deps) (others : Tables → Tables → Type 0) (start : World)
    : World → Type 0 where
  at_start : Reaches d others start start
  then_acts : {w : World} (a : Act) → Reaches d others start w → Reaches d others start (act d a w)
  then_changes :
      {w : World} (t : Tables)
      → others w.tables t
      → Reaches d others start w
      → Reaches d others start (record w { tables = t })

module _ {d : Deps} {others : Tables → Tables → Type 0} {I : World → Type 0}
    (k : Kept d others I) where
  exported_as-Kept :
      (sh th : Text) (sp tp : Port) (o : Op) (sc tc : PortContext) (ref : Text)
      (out : Outcome Content) (w : World)
      → d.ports sh ≡ some sp
      → d.ports th ≡ some tp
      → I w
      → I (exported_as d sp tp o sc tc ref out w)
  exported_as-Kept sh th sp tp o sc tc ref (Outcome.thrown a b) w there here i =
      fail_settled-Kept k o Code.export_failed w i
  exported_as-Kept sh th sp tp o sc tc ref (Outcome.returned x) w there here i =
      let w₁ =
        set_meta o.id
          (λ m. record m { exported_sha256 = some (d.sha256 x.text); truncated = x.truncated }) w in
      let w₂ = move o.id is_preparing State.exported (λ e. e) w₁ in
      let i₂ = measure-Kept k sh th sp tp o sc tc ref w₂ there here (
        k.moving w₁ o.id is_preparing State.exported (λ e. e) is_preparing-is_active
          (k.patching w o.id
            (λ m. record m { exported_sha256 = some (d.sha256 x.text); truncated = x.truncated })
            (λ m. refl) i)) in
      let c = (measure sp tp o sc tc ref w₂).0 in
      decided-Kept k sh th sp tp o tc x.text c (decide_transfer c) _ there here
        (k.patching _ o.id (λ m. record m { decision = some (decide_transfer c) }) (λ m. refl) i₂)

  transfer-Kept :
      (sh th : Text) (sp tp : Port) (o : Op) (sc tc : PortContext) (ref : Text) (w : World)
      → d.ports sh ≡ some sp
      → d.ports th ≡ some tp
      → I w
      → I (transfer d sp tp o sc tc ref w)
  unfolding transfer
  transfer-Kept sh th sp tp o sc tc ref w there here i =
      exported_as-Kept sh th sp tp o sc tc ref _ _ there here
        (k.waiting w _ ((k.ports sh sp there).export_context sc ref w.tables) i)

  run_plain-Kept :
      (sh th : Text) (sp tp : Port) (o : Op) (s : Session) (ref : Text) (w : World)
      → d.ports sh ≡ some sp
      → d.ports th ≡ some tp
      → I w
      → I (run_plain d sp tp o s ref w)
  unfolding run_plain
  run_plain-Kept sh th sp tp o s ref w there here i =
      by_test I (sent_before o)
        (λ e.
          settle_seeded-Kept k o.id _
            (k.moving w o.id is_exported State.seeded (λ e. e) is_exported-is_active i))
        (λ e. transfer-Kept sh th sp tp o _ _ ref w there here i)

  run_with-Kept :
      (sh th : Text) (sp tp : Port) (o : Op) (s : Session) (ref : Text) (w : World)
      → d.ports sh ≡ some sp
      → d.ports th ≡ some tp
      → I w
      → I (run_with d sp tp o s ref w)
  unfolding run_with
  run_with-Kept sh th sp tp o s ref w there here i =
      by_option I sp.native_fork_target (λ n. run_plain-Kept sh th sp tp o s ref w there here i)
        (λ f n.
          by_test I (text_eq (source_harness o.meta) (target_harness o.meta))
            (λ e. run_native_fork-Kept k sh sp f o ref w there n i)
            (λ e. run_plain-Kept sh th sp tp o s ref w there here i))

  run_ports-Kept :
      (o : Op) (sh th : Text) (sp tp : Option Port) (w : World)
      → d.ports sh ≡ sp
      → d.ports th ≡ tp
      → I w
      → I (run_ports d o sp tp w)
  unfolding run_ports
  run_ports-Kept o sh th none tp w there here i = fail_settled-Kept k o Code.export_unsupported w i
  run_ports-Kept o sh th (some sp) none w there here i =
      fail_settled-Kept k o Code.export_unsupported w i
  run_ports-Kept o sh th (some sp) (some tp) w there here i =
      by_option I (source_of o w.tables) (λ n. fail_settled-Kept k o Code.race w i)
        (λ s n.
          by_test I s.active
            (λ e.
              by_test I (filled s.native_session_ref)
                (λ f. run_with-Kept sh th sp tp o s (or_empty s.native_session_ref) w there here i)
                (λ f. fail_settled-Kept k o Code.export_failed w i))
            (λ e. fail_settled-Kept k o Code.race w i))

  run-Kept : (id : Ident) (w : World) → I w → I (run d id w)
  unfolding run
  run-Kept id w i =
      by_option I (op_of id w.tables) (λ n. i)
        (λ o n.
          by_test I (unfinished o.state)
            (λ e.
              run_ports-Kept o (source_harness o.meta) (target_harness o.meta) _ _ w refl refl i)
            (λ e. i))

  run_or_settle-Kept : (id : Ident) (w : World) → I w → I (run_or_settle d id w)
  unfolding run_or_settle
  run_or_settle-Kept id w i =
      by_option I (op_of id w.tables) (λ n. i)
        (λ o n.
          by_test I (is_seeded o.state) (λ e. settle_seeded-Kept k id w i) (λ e. run-Kept id w i))

  resume_all-Kept : (os : List Op) (w : World) → I w → I (resume_all d os w)
  resume_all-Kept [] w i = i
  resume_all-Kept (o ∷ os) w i =
      resume_all-Kept os _ (
        by_test I (is_seeded o.state) (λ e. settle_seeded-Kept k o.id w i) (λ e. run-Kept o.id w i))

  pub act-Kept : (a : Act) (w : World) → I w → I (act d a w)
  unfolding act resume_interrupted
  act-Kept (Act.runs id) w i = run-Kept id w i
  act-Kept (Act.settles id) w i = settle_seeded-Kept k id w i
  act-Kept (Act.runs_or_settles id) w i = run_or_settle-Kept id w i
  act-Kept Act.resumes w i = resume_all-Kept (select (λ o. is_active o.state) w.tables.ops) w i

  pub Reaches-Kept : {start w : World} → I start → Reaches d others start w → I w
  Reaches-Kept i Reaches.at_start = i
  Reaches-Kept i (Reaches.then_acts {w} a r) = act-Kept a w (Reaches-Kept i r)
  Reaches-Kept i (Reaches.then_changes {w} t m r) = k.waiting w t m (Reaches-Kept i r)
