-- ===== src/Transfer/Completes.antt =====
-- A transfer that nothing disturbs is committed.
use agent_router.Prelude.{
  Bool, true, false, Option, none, some, [], ◌∷◌, ◌++◌, ◌==◌, ◌&&◌, ◌||◌, ◌≡◌, refl, arith, ap, ◌∙◌,
  one, Text, text_eq_refl,
}
use agent_router.Prelude.Laws.{one-holds, one-update_where}
use agent_router.Protocol.{Ident}
use agent_router.Transfer.Rows.{
  Op, Meta, State, Code, Tables, Session, World, Event, Commit, say, op_of, is_exported, is_seeded,
  set_meta, move, with_meta, moved,
}
use agent_router.Transfer.Ports.{
  Deps, Port, Receipt, Awaited, Outcome, PortContext, filled, or_empty, noted,
}
use agent_router.Transfer.Settle.{
  settle_seeded, settle_row, commit_transfer, is_confirmed, resolvable, current_session,
}
use agent_router.Transfer.Due.Shown.{op_of-set_meta-some}
use agent_router.Transfer.Fork.{target_of, to_seeded}
use agent_router.Transfer.Run.{send_seed, initialized, given, no_fork}

op_of-move-some :
    (id : Ident) (from : State → Bool) (to : State) (code : Option Code → Option Code) (w : World)
    {r : Op}
    → op_of id w.tables ≡ some r
    → from r.state ≡ true
    → op_of id (move id from to code w).tables ≡ some (moved to code r)
unfolding move
op_of-move-some id from to code w {r} h live =
    one-update_where (λ (o : Op). o.id == id) (λ o. o.id == id && from o.state) (moved to code)
      w.tables.ops (λ x. refl)
    ∙ rw (h, one-holds (λ (o : Op). o.id == id) w.tables.ops h, live) refl

-- The commit of a row.
abbrev pub commit_of : Op → Text → Commit
commit_of o ref = record {
  op_id = o.id;
  role_id = o.role_id;
  from_session_id = o.from_session_id;
  name = o.meta.name;
  target_harness = or_empty o.meta.target_harness;
  native_session_ref = ref;
}

-- What is there after a commit that returned.
abbrev pub done_with : Op → Text → Tables → World → World
done_with o ref t w =
    say (Event.settled o.role_id)
      (record (say (Event.committing (commit_of o ref) w.tables) w) { tables = t })

commit_transfer_done :
    (d : Deps) (o : Op) (ref : Text) (w : World) (s : Session) (t : Tables)
    → current_session o.role_id w.tables ≡ some s
    → (s.id == o.from_session_id) ≡ true
    → d.commit (commit_of o ref) w.tables ≡ some t
    → commit_transfer d o ref w ≡ done_with o ref t w
unfolding commit_transfer
commit_transfer_done d o ref w s t there own done = ground arith

settle_seeded_row :
    (d : Deps) (id : Ident) (w : World) (o : Op)
    → op_of id w.tables ≡ some o
    → is_seeded o.state ≡ true
    → settle_seeded d id w ≡ settle_row d o w
unfolding settle_seeded
settle_seeded_row d id w o row seeded = ground arith

settle_row_confirmed :
    (d : Deps) (w : World) (o : Op) (p : Port)
    → d.ports (or_empty o.meta.target_harness) ≡ some p
    → resolvable o.meta ≡ true
    → is_confirmed o.meta ≡ true
    → settle_row d o w ≡ commit_transfer d o (or_empty o.meta.target_native_ref) w
unfolding settle_row
settle_row_confirmed d w o p port known sure = ground arith

-- A driver that leaves the tables alone and was asked to note nothing.
abbrev pub plain {ℓ} : {A : Type ℓ} → A → Tables → Awaited A
plain a t = record { tables = t; created = none; dispatched = false; outcome = Outcome.returned a }

send_seed_returns :
    (d : Deps) (tp : Port) (o : Op) (tc : PortContext) (text : Text) (w : World) (x : Receipt)
    → ((h : Text) (ref : Option Text) (t : Tables)
        → tp.initialize_target tc text o.id h ref t ≡ plain x t)
    → send_seed d tp o tc text w
      ≡ initialized d o
          (d.sha256 text)
          (Outcome.returned x)
          (set_meta o.id (λ m. record m { seed_sha256 = some (d.sha256 text) }) w)
unfolding send_seed noted
send_seed_returns d tp o tc text w x answers =
    let w₁ = set_meta o.id (λ m. record m { seed_sha256 = some (d.sha256 text) }) w in
    ap
      (λ (a : Awaited Receipt). initialized d o (d.sha256 text) a.outcome (noted o.id no_fork a w₁))
      (answers (d.sha256 text) (target_of o.id w₁.tables) w₁.tables)

initialized_fresh :
    (d : Deps) (o : Op) (seed : Text) (x : Receipt) (w : World)
    → filled (target_of o.id w.tables) ≡ false
    → initialized d o seed (Outcome.returned x) w
      ≡ settle_seeded d o.id (to_seeded o.id is_exported none (set_meta o.id (given seed x) w))
unfolding initialized
initialized_fresh d o seed x w h = rw h refl

given-is_confirmed :
    (seed : Text) (x : Receipt) (m : Meta)
    → filled (some seed) ≡ true
    → m.seed_sha256 ≡ some seed
    → x.confirmed ≡ true
    → x.accepted_payload_hash ≡ some seed
    → is_confirmed (given seed x m) ≡ true
given-is_confirmed seed x m long known sure same =
    rw (known, long, sure, same, text_eq_refl seed) (rw (text_eq_refl seed) refl)

given-resolvable :
    (seed : Text) (x : Receipt) (m : Meta)
    → filled (some seed) ≡ true
    → filled (some x.native_session_ref) ≡ true
    → m.seed_sha256 ≡ some seed
    → resolvable (given seed x m) ≡ true
given-resolvable seed x m long ref known = rw (ref, known, long) (or_true m.native_fork)
  where
    or_true : (b : Bool) → (true && (b || true)) ≡ true
    or_true true = refl
    or_true false = refl

target_of_row :
    (id : Ident) (t : Tables) {r : Op}
    → op_of id t ≡ some r
    → target_of id t ≡ r.meta.target_native_ref
target_of_row id t h = ground arith

-- The row when the seed has been accepted.
abbrev seeded_row : Text → Receipt → Op → Op
seeded_row seed x r =
    moved State.seeded (λ c. none)
      (with_meta (given seed x) (with_meta (λ m. record m { seed_sha256 = some seed }) r))

-- The world when the seed has been accepted.
abbrev seeded_world : Ident → Text → Receipt → World → World
seeded_world id seed x w =
    to_seeded id is_exported none
      (set_meta id (given seed x) (set_meta id (λ m. record m { seed_sha256 = some seed }) w))

seeded_world-sessions :
    (id : Ident) (seed : Text) (x : Receipt) (w : World)
    → (seeded_world id seed x w).tables.sessions ≡ w.tables.sessions
unfolding set_meta move
seeded_world-sessions id seed x w = refl

seeded_world-events :
    (id : Ident) (seed : Text) (x : Receipt) (w : World)
    → (seeded_world id seed x w).events ≡ w.events
unfolding set_meta move
seeded_world-events id seed x w = refl

-- An operation that is exported and has no target yet completes in one go, where the driver of the
-- target leaves the tables alone and confirms the hash of the seed with a reference of the target,
-- the session that it comes from is the active one of its role, and `commit` returns: the commit is
-- called with that reference, its tables are there at the end, and the role is settled.
pub send_seed-commits :
    (d : Deps) (tp p : Port) (o r : Op) (tc : PortContext) (text : Text) (w : World) (x : Receipt)
    (s : Session) (finish : Tables → Tables)
    → op_of o.id w.tables ≡ some r
    → is_exported r.state ≡ true
    → filled r.meta.target_native_ref ≡ false
    → ((h : Text) (ref : Option Text) (t : Tables)
        → tp.initialize_target tc text o.id h ref t ≡ plain x t)
    → filled (some (d.sha256 text)) ≡ true
    → filled (some x.native_session_ref) ≡ true
    → x.confirmed ≡ true
    → x.accepted_payload_hash ≡ some (d.sha256 text)
    → d.ports (or_empty r.meta.target_harness) ≡ some p
    → current_session r.role_id w.tables ≡ some s
    → (s.id == r.from_session_id) ≡ true
    → ((t : Tables) → d.commit (commit_of r x.native_session_ref) t ≡ some (finish t))
    → (before : Tables) × ((send_seed d tp o tc text w).tables ≡ finish before)
      × ((send_seed d tp o tc text w).events
          ≡ w.events
            ++ Event.committing (commit_of r x.native_session_ref) before ∷ []
            ++ Event.settled r.role_id ∷ [])
send_seed-commits d tp p o r tc text w x s finish row live fresh answers long ref sure same port
      there own commits =
    let seed = d.sha256 text in
    let w₁ = set_meta o.id (λ m. record m { seed_sha256 = some seed }) w in
    let w₃ = seeded_world o.id seed x w in
    let q = seeded_row seed x r in
    let row₁ = op_of-set_meta-some o.id (λ m. record m { seed_sha256 = some seed }) w row in
    let row₂ = op_of-set_meta-some o.id (given seed x) w₁ row₁ in
    let row₃ =
      op_of-move-some o.id is_exported State.seeded (λ c. none) (set_meta o.id (given seed x) w₁)
        row₂ live in
    let none_before : filled (target_of o.id w₁.tables) ≡ false =
      ap filled (target_of_row o.id w₁.tables row₁) ∙ fresh in
    let here : current_session q.role_id w₃.tables ≡ some s =
      ap (one (λ (s : Session). s.role_id == r.role_id && s.active))
        (seeded_world-sessions o.id seed x w)
      ∙ there in
    let whole : send_seed d tp o tc text w
        ≡ done_with q x.native_session_ref (finish w₃.tables) w₃ =
      send_seed_returns d tp o tc text w x answers
      ∙ initialized_fresh d o seed x w₁ none_before
      ∙ settle_seeded_row d o.id w₃ q row₃ refl
      ∙ settle_row_confirmed d w₃ q p port
          (given-resolvable seed x (record r.meta { seed_sha256 = some seed }) long ref refl)
          (given-is_confirmed seed x (record r.meta { seed_sha256 = some seed }) long refl sure
            same)
      ∙ commit_transfer_done d q x.native_session_ref w₃ s (finish w₃.tables) here own
          (commits w₃.tables) in
    (
      w₃.tables,
      ap (λ (u : World). u.tables) whole,
      ap (λ (u : World). u.events) whole
          ∙ ap
              (λ es.
                es
                ++ Event.committing (commit_of r x.native_session_ref) w₃.tables ∷ []
                ++ Event.settled r.role_id ∷ [])
              (seeded_world-events o.id seed x w),
    )
