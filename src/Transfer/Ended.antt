-- ===== src/Transfer/Ended.antt =====
-- An operation that has ended.
use agent_router.Prelude.{
  Bool, true, false, some, Text, ◌==◌, ◌&&◌, ◌≡◌, inl, inr, refl, arith, sym, subst, suc, leb,
  update_where, Bool-cases,
}
use agent_router.Protocol.{Ident}
use agent_router.Transfer.Rows.{
  Op, Code, Tables, World, Commit, op_of, is_active, fail, mark_uncertain, set_meta, move,
  with_meta, moved, failing, with_code, max_retries,
}
use agent_router.Transfer.Ports.{Deps, Port}
use agent_router.Transfer.Settle.{schedule_retry}
use agent_router.Transfer.Kept.{Kept, PortKeeps, by_test, by_option}
use agent_router.Transfer.Kept.Whole.{Reaches, Reaches-Kept}
use agent_router.Transfer.Bounds.{updated_row}

-- The row of an operation is in no state for which dispatch is paused.
abbrev pub Ended : Ident → Tables → Type 0
Ended id t = (o : Op) → op_of id t ≡ some o → is_active o.state ≡ false

-- What others may do: not take up an operation that has ended.
abbrev pub NotRevived : Ident → Tables → Tables → Type 0
NotRevived id t t' = Ended id t → Ended id t'

update-Ended :
    (id : Ident) (test : Op → Bool) (f : Op → Op) (w : World)
    → ((x : Op) → (f x).id ≡ x.id)
    → ((x : Op) → is_active x.state ≡ false → test x ≡ true → is_active (f x).state ≡ false)
    → Ended id w.tables
    → Ended id (record w.tables { ops = update_where test f w.tables.ops })
update-Ended id test f w same kept ended p h =
    let (q, e, k) = updated_row id test f w.tables.ops same h in
    let c = ended q e in
    elim (Bool-cases (test q)) [
      | inl hit ↦
          let to : p ≡ f q = ground arith in
          subst (λ (x : Op). is_active x.state ≡ false) (sym to) (kept q c hit)
      | inr miss ↦
          let to : p ≡ q = ground arith in subst (λ (x : Op). is_active x.state ≡ false) (sym to) c
    ]

abbrev EndedIn : Ident → World → Type 0
EndedIn id w = Ended id w.tables

schedule_retry-Ended :
    (id : Ident) (w : World) (x : Ident) → EndedIn id w → EndedIn id (schedule_retry x w)
unfolding schedule_retry mark_uncertain set_meta
schedule_retry-Ended id w x i =
    by_option (EndedIn id) (op_of x w.tables) (λ n. i)
      (λ o n.
        by_test (EndedIn id) (leb max_retries o.meta.retries)
          (λ e.
            update-Ended id (λ o. o.id == x) (with_code Code.unresolved) w (λ y. refl) (λ y a b. a)
              i)
          (λ e.
            update-Ended id (λ o. o.id == x)
              (with_meta (λ m. record m { retries = suc o.meta.retries })) w (λ y. refl)
              (λ y a b. a) i))

pub record Steady (d : Deps) (id : Ident) : Type 0 where
  pub ports : (h : Text) (p : Port) → d.ports h ≡ some p → PortKeeps (NotRevived id) p
  pub commit : (c : Commit) (t t' : Tables) → d.commit c t ≡ some t' → NotRevived id t t'

Ended-Kept : (d : Deps) (id : Ident) → Steady d id → Kept d (NotRevived id) (EndedIn id)
unfolding fail mark_uncertain set_meta move
Ended-Kept d id steady = record {
  ports = steady.ports;
  told = λ w r i. i;
  failing = λ w x code i.
      update-Ended id (λ o. o.id == x && is_active o.state) (failing code) w (λ y. refl)
        (λ y a b. refl) i;
  marking =
      λ w x code i. update-Ended id (λ o. o.id == x) (with_code code) w (λ y. refl) (λ y a b. a) i;
  patching = λ w x patch same i.
      update-Ended id (λ o. o.id == x) (with_meta patch) w (λ y. refl) (λ y a b. a) i;
  moving = λ w x from to code live i.
      update-Ended id (λ o. o.id == x && from o.state) (moved to code) w (λ y. refl)
        (λ y a b. absurd (ground (arith, live y.state))) i;
  retrying = λ w x i. schedule_retry-Ended id w x i;
  waiting = λ w t m i. m i;
  committing = λ w c t due e i. steady.commit c w.tables t e i;
}

-- An operation that is committed, failed or cancelled is in none of the states that pause dispatch
-- ever after, however often it is run, settled or resumed; where the drivers, `commit` and all
-- others do not take it up again.
pub Reaches-Ended :
    (d : Deps) (id : Ident) (start w : World)
    → Steady d id
    → Ended id start.tables
    → Reaches d (NotRevived id) start w
    → Ended id w.tables
Reaches-Ended d id start w steady ended r = Reaches-Kept (Ended-Kept d id steady) ended r
