-- ===== src/Transfer/Kept/Settled.antt =====
-- What settling keeps.
use agent_router.Prelude.{
  ℕ, suc, true, some, ◌==◌, ◌≡◌, inl, inr, refl, sym, subst, ap, ◌∙◌, ltb, Text, Option-cases,
  Bool-cases, eq_of_==,
}
use agent_router.Prelude.Laws.{one-holds}
use agent_router.Protocol.{Ident}
use agent_router.Transfer.Rows.{
  Op, Meta, Commit, Code, Tables, World, op_of, is_seeded, fail, set_meta, max_confirm_attempts,
}
use agent_router.Transfer.Ports.{Deps, Port, Receipt, Outcome, or_empty, target_context}
use agent_router.Transfer.Settle.{
  is_confirmed, current_session, race, commit_transfer, confirms, record_receipt, unconfirmed, ask,
  confirm_attempt, resolvable, settle_row, settle_seeded,
}
use agent_router.Transfer.Due.{Proven}
use agent_router.Transfer.Due.Shown.{is_confirmed-Recorded, asked-Proven}
use agent_router.Transfer.Kept.{Kept, by_test, by_option}

record_receipt-retries :
    (out : Outcome Receipt) (m : Meta) → (record_receipt out m).retries ≡ m.retries
record_receipt-retries (Outcome.returned r) m = refl
record_receipt-retries (Outcome.thrown a b) m = refl

-- The row that is found has the identifier that was asked for.
pub own_row :
    (id : Ident) (o : Op) (w : World) → op_of id w.tables ≡ some o → op_of o.id w.tables ≡ some o
own_row id o w h =
    subst (λ x. op_of x w.tables ≡ some o)
      (sym (eq_of_== o.id id (one-holds (λ (o : Op). o.id == id) w.tables.ops h))) h

module _ {d : Deps} {others : Tables → Tables → Type 0} {I : World → Type 0}
    (k : Kept d others I) where
  race-Kept : (id role_id : Ident) (w : World) → I w → I (race id role_id w)
  race-Kept id role_id w i = k.told (fail id Code.race w) role_id (k.failing w id Code.race i)

  commit_transfer-Kept :
      (o : Op) (ref : Text) (w : World)
      → ((c : Commit) → c.op_id ≡ o.id → c.native_session_ref ≡ ref → Proven d c w.tables)
      → I w
      → I (commit_transfer d o ref w)
  unfolding commit_transfer
  commit_transfer-Kept o ref w sure i =
      by_option I (current_session o.role_id w.tables) (λ n. race-Kept o.id o.role_id w i)
        (λ s there.
          by_test I (s.id == o.from_session_id)
            (λ own.
              by_option I (d.commit _ w.tables) (λ n. race-Kept o.id o.role_id w i)
                (λ t done. k.told _ o.role_id (
                  k.committing w _ t
                    (record {
                      current = (s, there, eq_of_== s.id o.from_session_id own);
                      proven = sure _ refl refl;
                    })
                    done i)))
            (λ other. race-Kept o.id o.role_id w i))

  unconfirmed-Kept : (id : Ident) (n : ℕ) (w : World) → I w → I (unconfirmed id n w)
  unconfirmed-Kept id n w i =
      by_test I (ltb n max_confirm_attempts)
        (λ e. k.retrying _ id (k.marking w id Code.ambiguous i))
        (λ e. k.marking w id Code.unresolved i)

  ask-others :
      (h : Text) (p : Port) (o : Op) (ref : Text) (t : Tables)
      → d.ports h ≡ some p
      → others t (ask p o ref t).tables
  unfolding target_context
  ask-others h p o ref t there =
      let keeps = k.ports h p there in
      let c = target_context o.meta (or_empty o.meta.target_harness) in
      let plain = keeps.confirm_target c ref o.id o.meta.seed_sha256 t in
      elim (Bool-cases o.meta.native_fork) [
        | inr e ↦ rw e plain
        | inl e ↦ elim (Option-cases p.confirm_native_fork) [
          | inl n ↦ rw (e, n) plain
          | inr (f, n) ↦
              rw (e, n)
                (keeps.confirm_native_fork f n c (or_empty o.meta.source_native_ref) ref o.id
                  o.meta.seed_sha256 t)
        ]
      ]

  confirm_attempt-Kept :
      (p : Port) (o : Op) (ref : Text) (w : World)
      → d.ports (or_empty o.meta.target_harness) ≡ some p
      → op_of o.id w.tables ≡ some o
      → resolvable o.meta ≡ true
      → or_empty o.meta.target_native_ref ≡ ref
      → I w
      → I (confirm_attempt d p o ref w)
  unfolding confirm_attempt
  confirm_attempt-Kept p o ref w there row known named i =
      let h = or_empty o.meta.target_harness in
      let n = suc o.meta.confirm_attempts in
      let w₁ = set_meta o.id (λ m. record m { confirm_attempts = n }) w in
      let a = ask p o ref w₁.tables in
      let w₂ : World = record w₁ { tables = a.tables } in
      let i₂ =
        k.waiting w₁ a.tables (ask-others h p o ref w₁.tables there)
          (k.patching w o.id (λ m. record m { confirm_attempts = n }) (λ m. refl) i) in
      by_test I (confirms o.meta.seed_sha256 a.outcome)
        (λ fine.
          commit_transfer-Kept o ref (set_meta o.id (record_receipt a.outcome) w₂)
            (λ c mine to. asked-Proven p o ref w c there row known named mine to fine)
            (k.patching w₂ o.id (record_receipt a.outcome) (record_receipt-retries a.outcome) i₂))
        (λ wrong. unconfirmed-Kept o.id n w₂ i₂)

  settle_row-Kept : (o : Op) (w : World) → op_of o.id w.tables ≡ some o → I w → I (settle_row d o w)
  unfolding settle_row
  settle_row-Kept o w row i =
      by_option I (d.ports (or_empty o.meta.target_harness))
        (λ n. k.marking w o.id Code.unresolved i)
        (λ p there.
          by_test I (resolvable o.meta)
            (λ known.
              by_test I (is_confirmed o.meta)
                (λ sure.
                  commit_transfer-Kept o (or_empty o.meta.target_native_ref) w
                    (λ c mine to.
                      Proven.recorded o (ap (λ i. op_of i w.tables) mine ∙ row) (sym to)
                        (is_confirmed-Recorded o sure))
                    i)
                (λ unsure.
                  confirm_attempt-Kept p o (or_empty o.meta.target_native_ref) w there row known
                    refl i))
            (λ unknown. k.marking w o.id Code.unresolved i))

  -- Settling keeps what the single writes keep.
  pub settle_seeded-Kept : (id : Ident) (w : World) → I w → I (settle_seeded d id w)
  unfolding settle_seeded
  settle_seeded-Kept id w i =
      by_option I (op_of id w.tables) (λ n. i)
        (λ o row.
          by_test I (is_seeded o.state) (λ s. settle_row-Kept o w (own_row id o w row) i) (λ s. i))
