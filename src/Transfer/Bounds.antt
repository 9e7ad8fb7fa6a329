-- ===== src/Transfer/Bounds.antt =====
-- The retries of an operation.
use agent_router.Prelude.{
  suc, ◌+◌, ◌≤◌, Bool, false, some, Text, List, [], ◌∷◌, ◌++◌, ◌==◌, ◌≡◌, inl, inr, refl, arith,
  subst, ap, ◌∙◌, one, leb, count_where, update_where, if◌then◌else◌, Option-cases, Bool-cases,
  eq_of_==,
}
use agent_router.Prelude.Laws.{one-holds, one-update_where, count_where-append}
use agent_router.Protocol.{Ident}
use agent_router.Transfer.Rows.{
  Op, Code, Tables, World, Event, Commit, say, op_of, fail, mark_uncertain, set_meta, move,
  with_meta, moved, failing, with_code, max_retries,
}
use agent_router.Transfer.Ports.{Deps, Port}
use agent_router.Transfer.Settle.{schedule_retry}
use agent_router.Transfer.Kept.{Kept, PortKeeps, by_test, by_option}
use agent_router.Transfer.Kept.Whole.{Reaches, Reaches-Kept}

-- What others may do to an operation: not insert its row, and not lower its count of retries.
abbrev pub NotLowered : Ident → Tables → Tables → Type 0
NotLowered id t t' =
    (p : Op)
    → op_of id t' ≡ some p
    → (q : Op) × (op_of id t ≡ some q) × (q.meta.retries ≤ p.meta.retries)

abbrev pub is_retry : Ident → Event → Bool
is_retry id (Event.retry_later x) = x == id
is_retry id (Event.settled r) = false
is_retry id (Event.committing c t) = false

-- The timers are counted in the row.
abbrev Counted : Ident → World → Type 0
Counted id w =
    (count_where (is_retry id) w.events ≤ max_retries)
    × ((o : Op) → op_of id w.tables ≡ some o → count_where (is_retry id) w.events ≤ o.meta.retries)

-- The row after an update that keeps identifiers.
pub updated_row :
    (id : Ident) (test : Op → Bool) (f : Op → Op) (ops : List Op) {p : Op}
    → ((x : Op) → (f x).id ≡ x.id)
    → one (λ o. o.id == id) (update_where test f ops) ≡ some p
    → (q : Op) × (one (λ o. o.id == id) ops ≡ some q) × (p ≡ (if test q then f q else q))
updated_row id test f ops {p} same h =
    let u =
      one-update_where (λ (o : Op). o.id == id) test f ops (λ x. ap (λ i. i == id) (same x)) in
    elim (Option-cases (one (λ (o : Op). o.id == id) ops)) [
      | inl n ↦ absurd (ground arith)
      | inr (q, e) ↦ (q, e, ground arith)
    ]

-- An update that keeps the counts of retries.
update-Counted :
    (id : Ident) (test : Op → Bool) (f : Op → Op) (w : World)
    → ((x : Op) → (f x).id ≡ x.id)
    → ((x : Op) → (f x).meta.retries ≡ x.meta.retries)
    → Counted id w
    → Counted id (record w { tables = record w.tables { ops = update_where test f w.tables.ops } })
update-Counted id test f w same kept (few, counted) = (
  few,
  λ p h.
      let (q, e, k) = updated_row id test f w.tables.ops same h in
      let c = counted q e in
      let r = kept q in
      elim (Bool-cases (test q)) [ inl hit ↦ ground arith | inr miss ↦ ground arith ],
)

count_last :
    (id x : Ident) (es : List Event)
    → count_where (is_retry id) (es ++ Event.retry_later x ∷ [])
      ≡ count_where (is_retry id) es + (if x == id then 1 else 0)
count_last id x es =
    count_where-append (is_retry id) es (Event.retry_later x ∷ [])
    ∙ ap (λ n. count_where (is_retry id) es + n) (single id x)
  where
    single :
        (id x : Ident)
        → count_where (is_retry id) (Event.retry_later x ∷ []) ≡ (if x == id then 1 else 0)
    single id x = unfold count_where in omega arith

-- One more timer, and one more retry in its row.
retry-Counted :
    (id : Ident) (w : World) (x : Ident) (o : Op)
    → op_of x w.tables ≡ some o
    → leb max_retries o.meta.retries ≡ false
    → Counted id w
    → Counted id
        (say (Event.retry_later x) (set_meta x (λ m. record m { retries = suc o.meta.retries }) w))
unfolding set_meta
retry-Counted id w x o found early (few, counted) =
    let n = count_last id x w.events in
    elim (Bool-cases (x == id)) [
      | inr differ ↦ (
        ground (arith, n, few),
        λ p h.
            let (q, e, k) = row h in
            let mine = one-holds (λ (o : Op). o.id == id) w.tables.ops e in
            let c = counted q e in
            let m : q.meta.retries ≡ p.meta.retries = ground arith in ground (arith, n),
      )
      | inl same ↦
          let at_id = subst (λ i. op_of i w.tables ≡ some o) (eq_of_== x id same) found in
          let c = counted o at_id in
          (
            ground (arith, n, few),
            λ p h.
                let (q, e, k) = row h in
                let mine = one-holds (λ (o : Op). o.id == id) w.tables.ops e in
                let one_row : q ≡ o = ground arith in
                let m : p.meta.retries ≡ suc o.meta.retries = ground arith in ground (arith, n),
          )
    ]
  where
    row :
        {p : Op}
        → op_of id (set_meta x (λ m. record m { retries = suc o.meta.retries }) w).tables ≡ some p
        → (q : Op) × (op_of id w.tables ≡ some q)
          × (p ≡ (
              if q.id == x
              then with_meta (λ m. record m { retries = suc o.meta.retries }) q
              else q))
    row h = updated_row id _ _ w.tables.ops (λ y. refl) h

schedule_retry-Counted :
    (id : Ident) (w : World) (x : Ident) → Counted id w → Counted id (schedule_retry x w)
unfolding schedule_retry mark_uncertain
schedule_retry-Counted id w x i =
    by_option (Counted id) (op_of x w.tables) (λ n. i)
      (λ o n.
        by_test (Counted id) (leb max_retries o.meta.retries)
          (λ e. update-Counted id _ (with_code Code.unresolved) w (λ x. refl) (λ x. refl) i)
          (λ e. retry-Counted id w x o n e i))

-- The drivers and `commit` leave the row and its count of retries alone.
pub record Careful (d : Deps) (id : Ident) : Type 0 where
  pub ports : (h : Text) (p : Port) → d.ports h ≡ some p → PortKeeps (NotLowered id) p
  pub commit : (c : Commit) (t t' : Tables) → d.commit c t ≡ some t' → NotLowered id t t'

other-Counted :
    (id : Ident) (w : World) (e : Event)
    → is_retry id e ≡ false
    → Counted id w
    → Counted id (say e w)
other-Counted id w e no_timer (few, counted) =
    let n : count_where (is_retry id) (w.events ++ e ∷ []) ≡ count_where (is_retry id) w.events =
      count_where-append (is_retry id) w.events (e ∷ []) ∙ none_more w.events in
    (ground (arith, n, few), λ p h. ground (arith, n, counted p h))
  where
    none_more :
        (es : List Event)
        → count_where (is_retry id) es + count_where (is_retry id) (e ∷ [])
          ≡ count_where (is_retry id) es
    none_more es = unfold count_where in ground arith

tables-Counted :
    (id : Ident) (w : World) (t : Tables)
    → NotLowered id w.tables t
    → Counted id w
    → Counted id (record w { tables = t })
tables-Counted id w t others (few, counted) =
    (few, λ p h. let (q, e, le) = others p h in omega (arith, counted q e, le))

Counted-Kept : (d : Deps) (id : Ident) → Careful d id → Kept d (NotLowered id) (Counted id)
unfolding fail mark_uncertain set_meta move
Counted-Kept d id careful = record {
  ports = careful.ports;
  told = λ w r i. other-Counted id w (Event.settled r) refl i;
  failing = λ w x code i. update-Counted id _ (failing code) w (λ y. refl) (λ y. refl) i;
  marking = λ w x code i. update-Counted id _ (with_code code) w (λ y. refl) (λ y. refl) i;
  patching =
      λ w x patch same i. update-Counted id _ (with_meta patch) w (λ y. refl) (λ y. same y.meta) i;
  moving =
      λ w x from to code live i. update-Counted id _ (moved to code) w (λ y. refl) (λ y. refl) i;
  retrying = λ w x i. schedule_retry-Counted id w x i;
  waiting = λ w t m i. tables-Counted id w t m i;
  committing = λ w c t due e i.
      tables-Counted id (say (Event.committing c w.tables) w) t (careful.commit c w.tables t e)
        (other-Counted id w (Event.committing c w.tables) refl i);
}

at_start-Counted : (id : Ident) (w : World) → w.events ≡ [] → Counted id w
unfolding count_where
at_start-Counted id w e =
    let n = ap (count_where (is_retry id)) e in (ground (arith, n), λ p h. ground (arith, n))

-- However often an operation is run, settled or resumed: the engine sets at most two timers for it,
-- where the drivers, `commit` and all others neither insert its row nor lower its count of retries.
pub Reaches-retries :
    (d : Deps) (id : Ident) (start w : World)
    → Careful d id
    → start.events ≡ []
    → Reaches d (NotLowered id) start w
    → count_where (is_retry id) w.events ≤ max_retries
Reaches-retries d id start w careful none_yet r =
    let (few, _) =
      Reaches-Kept (Counted-Kept d id careful) (at_start-Counted id start none_yet) r in
    few
