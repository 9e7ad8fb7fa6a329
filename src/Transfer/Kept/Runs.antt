-- ===== src/Transfer/Kept/Runs.antt =====
-- What whole runs keep.
use agent_router.Prelude.{
  ℕ, Bool, true, false, Option, none, some, ◌&&◌, not, ◌≡◌, inl, inr, refl, arith, is_some, Text,
  if◌then◌else◌, Option-cases, Bool-cases,
}
use agent_router.Protocol.{Ident}
use agent_router.Transfer.Decide.{Decision, Capacity}
use agent_router.Transfer.Rows.{
  Op, Meta, State, Code, Tables, World, is_exported, is_preparing, is_active, set_meta,
}
use agent_router.Transfer.Ports.{
  Deps, Port, Receipt, Content, Awaited, Outcome, PortContext, filled, same_text, or_empty, noted,
  undispatched, target_context,
}
use agent_router.Transfer.Fork.{
  unfinished, meta_now, target_of, as_fork, fork_call, accepts, forked, fork_failed, fork_outcome,
  run_native_fork,
}
use agent_router.Transfer.Run.{
  fail_settled, no_fork, asked_source, asked_target, send_shorter, measure, given, initialized,
  send_seed, decided,
}
use agent_router.Transfer.Kept.{Kept, by_test, by_option}
use agent_router.Transfer.Kept.Settled.{settle_seeded-Kept}

pub is_exported-is_active : (x : State) → is_exported x ≡ true → is_active x ≡ true
is_exported-is_active State.exported h = refl
is_exported-is_active State.preparing h = absurd (ground arith)
is_exported-is_active State.seeded h = absurd (ground arith)
is_exported-is_active State.committed h = absurd (ground arith)
is_exported-is_active State.failed h = absurd (ground arith)
is_exported-is_active State.cancelled h = absurd (ground arith)

pub is_preparing-is_active : (x : State) → is_preparing x ≡ true → is_active x ≡ true
is_preparing-is_active State.preparing h = refl
is_preparing-is_active State.exported h = absurd (ground arith)
is_preparing-is_active State.seeded h = absurd (ground arith)
is_preparing-is_active State.committed h = absurd (ground arith)
is_preparing-is_active State.failed h = absurd (ground arith)
is_preparing-is_active State.cancelled h = absurd (ground arith)

unfinished-is_active : (x : State) → unfinished x ≡ true → is_active x ≡ true
unfinished-is_active x h = elim (Bool-cases (is_preparing x)) [
  | inl e ↦ is_preparing-is_active x e
  | inr e ↦ is_exported-is_active x (ground arith)
]

module _ {d : Deps} {others : Tables → Tables → Type 0} {I : World → Type 0}
    (k : Kept d others I) where
  noted-Kept {ℓ} :
      {A : Type ℓ} (id : Ident) (fork : Meta → Meta) (a : Awaited A) (w : World)
      → ((m : Meta) → (fork m).retries ≡ m.retries)
      → others w.tables a.tables
      → I w
      → I (noted id fork a w)
  unfolding noted
  noted-Kept id fork a w same meanwhile i =
      let i₁ = k.waiting w a.tables meanwhile i in
      by_test I a.dispatched
        (λ e. k.patching _ id (λ m. record m { seed_send_started = true }) (λ m. refl) (created i₁))
        (λ e. created i₁)
    where
      created :
          I (record w { tables = a.tables })
          → I (
              if filled a.created
              then set_meta id
                  (λ m. record (fork m) { target_native_ref = a.created; target_created = true })
                  (record w { tables = a.tables })
              else record w { tables = a.tables })
      created i₁ =
          by_test I (filled a.created)
            (λ e.
              k.patching _ id
                (λ m. record (fork m) { target_native_ref = a.created; target_created = true }) same
                i₁)
            (λ e. i₁)

  fork_failed-Kept : (o : Op) (a b : Bool) (w : World) → I w → I (fork_failed d o a b w)
  unfolding fork_failed
  fork_failed-Kept o a b w i = k.told _ o.role_id (
      by_test I (is_some (target_of o.id w.tables))
        (λ e. settle_seeded-Kept k o.id _ (
          k.moving w o.id unfinished State.seeded (λ c. some Code.ambiguous) unfinished-is_active
            i))
        (λ e.
          by_test I a (λ e. k.failing w o.id Code.target_init_failed i)
            (λ e.
              by_test I b (λ e. k.marking w o.id Code.unresolved i) (λ e. k.retrying w o.id i))))

  fork_outcome-Kept :
      (o : Op) (source_ref : Text) (known : Option Text) (out : Outcome Receipt) (w : World)
      → I w
      → I (fork_outcome d o source_ref known out w)
  fork_outcome-Kept o source_ref known (Outcome.thrown a b) w i = fork_failed-Kept o a b w i
  fork_outcome-Kept o source_ref known (Outcome.returned r) w i =
      by_test I (accepts known r)
        (λ e. settle_seeded-Kept k o.id _ (
          k.moving _ o.id unfinished State.seeded (λ c. none) unfinished-is_active
            (k.patching w o.id (forked source_ref r) (λ m. refl) i)))
        (λ e. fork_failed-Kept o false false w i)

  pub run_native_fork-Kept :
      (h : Text) (p : Port)
      (f : (c : PortContext) (source_ref : Text) (op : Ident) (target_ref : Option Text)
        → Tables
        → Awaited Receipt)
      (o : Op) (source_ref : Text) (w : World)
      → d.ports h ≡ some p
      → p.native_fork_target ≡ some f
      → I w
      → I (run_native_fork d p f o source_ref w)
  unfolding run_native_fork
  run_native_fork-Kept h p f o source_ref w there forks i =
      let m = meta_now o w.tables in
      let c = target_context o.meta (or_empty o.meta.target_harness) in
      let a = fork_call p f c source_ref o.id m w.tables in
      fork_outcome-Kept o source_ref m.target_native_ref a.outcome
        (noted o.id (as_fork source_ref) a w)
        (noted-Kept o.id (as_fork source_ref) a w (λ m. refl) (meanwhile c m) i)
    where
      meanwhile :
          (c : PortContext) (m : Meta)
          → others w.tables (fork_call p f c source_ref o.id m w.tables).tables
      meanwhile c m =
          let keeps = k.ports h p there in
          elim (Option-cases p.confirm_native_fork) [
            | inl n ↦
                rw n
                  (keeps.native_fork_target f forks c source_ref o.id m.target_native_ref w.tables)
            | inr (g, n) ↦ elim (Bool-cases (filled m.target_native_ref)) [
              | inl e ↦
                  rw (n, e)
                    (keeps.confirm_native_fork g n c source_ref (or_empty m.target_native_ref) o.id
                      m.seed_sha256 w.tables)
              | inr e ↦
                  rw (n, e)
                    (keeps.native_fork_target f forks c source_ref o.id m.target_native_ref
                      w.tables)
            ]
          ]

  pub fail_settled-Kept : (o : Op) (code : Code) (w : World) → I w → I (fail_settled o code w)
  fail_settled-Kept o code w i = k.told _ o.role_id (k.failing w o.id code i)

  asked_source-Kept :
      (h : Text) (p : Port) (c : PortContext) (ref : Text) (target : Option ℕ) (w : World)
      → d.ports h ≡ some p
      → I w
      → I (asked_source p c ref target w).1
  asked_source-Kept h p c ref target w there i = elim (Option-cases p.source_capacity) [
    | inl n ↦ rw n i
    | inr (f, n) ↦ rw n (
        k.waiting w (f c ref w.tables).tables
          ((k.ports h p there).source_capacity f n c ref w.tables) i)
  ]

  asked_target-Kept :
      (h : Text) (p : Port) (c : PortContext) (ref : Text) (out : Outcome (Option ℕ)) (w : World)
      → d.ports h ≡ some p
      → I w
      → I (asked_target p c ref out w).1
  asked_target-Kept h p c ref (Outcome.returned window) w there i =
      asked_source-Kept h p c ref window w there i
  asked_target-Kept h p c ref (Outcome.thrown a b) w there i = i

  pub measure-Kept :
      (sh th : Text) (sp tp : Port) (o : Op) (sc tc : PortContext) (ref : Text) (w : World)
      → d.ports sh ≡ some sp
      → d.ports th ≡ some tp
      → I w
      → I (measure sp tp o sc tc ref w).1
  unfolding measure
  measure-Kept sh th sp tp o sc tc ref w there here i =
      elim (Option-cases tp.target_window_tokens) [
        | inl n ↦ rw n (asked_source-Kept sh sp sc ref none w there i)
        | inr (f, n) ↦
            let a = undispatched (f tc o.id (target_of o.id w.tables) w.tables) in
            rw n (
              asked_target-Kept sh sp sc ref a.outcome (noted o.id no_fork a w) there (
                noted-Kept o.id no_fork a w (λ m. refl)
                  ((k.ports th tp here).target_window_tokens f n tc o.id (target_of o.id w.tables)
                    w.tables)
                  i))
      ]

  initialized-Kept :
      (o : Op) (seed : Text) (out : Outcome Receipt) (w : World)
      → I w
      → I (initialized d o seed out w)
  unfolding initialized
  initialized-Kept o seed (Outcome.thrown a b) w i = k.told _ o.role_id (
      by_test I a (λ e. k.failing w o.id Code.target_init_failed i)
        (λ e.
          by_test I (is_some (target_of o.id w.tables))
            (λ e. settle_seeded-Kept k o.id _ (
              k.moving w o.id is_exported State.seeded (λ c. some Code.ambiguous)
                is_exported-is_active i))
            (λ e. k.retrying w o.id i)))
  initialized-Kept o seed (Outcome.returned r) w i =
      by_test I
        (filled (target_of o.id w.tables)
          && not (same_text (target_of o.id w.tables) (some r.native_session_ref)))
        (λ e. k.told _ o.role_id (
          k.moving _ o.id is_exported State.seeded (λ c. some Code.target_ref_mismatch)
            is_exported-is_active
            (k.patching w o.id (λ m. record m { target_returned_ref = some r.native_session_ref })
              (λ m. refl) i)))
        (λ e. settle_seeded-Kept k o.id _ (
          k.moving _ o.id is_exported State.seeded (λ c. none) is_exported-is_active
            (k.patching w o.id (given seed r) (λ m. refl) i)))

  send_seed-Kept :
      (h : Text) (tp : Port) (o : Op) (tc : PortContext) (text : Text) (w : World)
      → d.ports h ≡ some tp
      → I w
      → I (send_seed d tp o tc text w)
  unfolding send_seed
  send_seed-Kept h tp o tc text w there i =
      let seed = d.sha256 text in
      let w₁ = set_meta o.id (λ m. record m { seed_sha256 = some seed }) w in
      let a = tp.initialize_target tc text o.id seed (target_of o.id w₁.tables) w₁.tables in
      initialized-Kept o seed a.outcome (noted o.id no_fork a w₁) (
        noted-Kept o.id no_fork a w₁ (λ m. refl)
          ((k.ports h tp there).initialize_target tc text o.id seed (target_of o.id w₁.tables)
            w₁.tables)
          (k.patching w o.id (λ m. record m { seed_sha256 = some seed }) (λ m. refl) i))

  send_shorter-Kept :
      (h : Text) (tp : Port) (o : Op) (tc : PortContext) (out : Outcome Content) (w : World)
      → d.ports h ≡ some tp
      → I w
      → I (send_shorter d tp o tc out w)
  send_shorter-Kept h tp o tc (Outcome.thrown a b) w there i =
      fail_settled-Kept o Code.source_compression_unavailable w i
  send_shorter-Kept h tp o tc (Outcome.returned x) w there i =
      send_seed-Kept h tp o tc x.text _ there (
        k.patching w o.id (λ m. record m { compressed = true; compressed_truncated = x.truncated })
          (λ m. refl) i)

  pub decided-Kept :
      (sh th : Text) (sp tp : Port) (o : Op) (tc : PortContext) (text : Text) (c : Capacity)
      (v : Decision) (w : World)
      → d.ports sh ≡ some sp
      → d.ports th ≡ some tp
      → I w
      → I (decided d sp tp o tc text c v w)
  unfolding decided
  decided-Kept sh th sp tp o tc text c (Decision.direct r) w there here i =
      send_seed-Kept th tp o tc text w here i
  decided-Kept sh th sp tp o tc text c Decision.ask_user w there here i =
      fail_settled-Kept o Code.capacity_ask_user w i
  decided-Kept sh th sp tp o tc text c Decision.compress w there here i =
      by_option I sp.compress_source
        (λ n. fail_settled-Kept o Code.source_compression_unavailable w i)
        (λ f n. send_shorter-Kept th tp o tc _ _ here (
          k.waiting w _
            ((k.ports sh sp there).compress_source f n text c.target_window_tokens w.tables) i))
