-- ===== src/Transfer/Due/Shown.antt =====
-- The checks before a commit show that it is due.
use agent_router.Prelude.{
  suc, true, Option, none, some, ◌==◌, ◌≡◌, ◌⊎◌, inl, inr, refl, arith, sym, subst, ap, ◌∙◌, Text,
  eq_of_text_eq, Option-cases, Bool-cases,
}
use agent_router.Prelude.Laws.{one-holds, one-update_where}
use agent_router.Protocol.{Ident}
use agent_router.Transfer.Rows.{Op, Meta, Commit, Tables, World, op_of, set_meta, with_meta}
use agent_router.Transfer.Ports.{
  Deps, Port, Receipt, Outcome, is_sha256, same_text, or_empty, target_context,
}
use agent_router.Transfer.Settle.{is_confirmed, confirms, record_receipt, ask, resolvable}
use agent_router.Transfer.Due.{Recorded, Asks, Asked, Proven}

eq_of_same_text : (a b : Option Text) → same_text a b ≡ true → a ≡ b
eq_of_same_text none none h = refl
eq_of_same_text none (some b) h = absurd (ground arith)
eq_of_same_text (some a) none h = absurd (ground arith)
eq_of_same_text (some a) (some b) h = ap some (eq_of_text_eq a b h)

-- A row that is taken as confirmed.
pub is_confirmed-Recorded : (o : Op) → is_confirmed o.meta ≡ true → Recorded o
is_confirmed-Recorded o h = elim (Option-cases o.meta.seed_sha256) [
  | inl e ↦ absurd (ground arith)
  | inr (t, e) ↦ record {
    hash = t;
    sent = e;
    confirmed = ground arith;
    accepted = eq_of_same_text o.meta.accepted_payload_sha256 o.meta.seed_sha256 (ground arith) ∙ e;
  }
]

-- An answer that is taken as a confirmation is a receipt for the hash that was sent, if one was.
confirms-eq-true :
    (expected : Option Text) (out : Outcome Receipt)
    → confirms expected out ≡ true
    → (r : Receipt) × (out ≡ Outcome.returned r)
      × (r.confirmed ≡ true)
      × (is_sha256 r.accepted_payload_hash ≡ true)
      × ((r.accepted_payload_hash ≡ expected) ⊎ (expected ≡ none))
confirms-eq-true expected (Outcome.thrown a b) h = absurd (ground arith)
confirms-eq-true expected (Outcome.returned r) h = (
  r,
  refl,
  ground arith,
  ground arith,
  elim (Bool-cases (same_text expected none)) [
    | inl e ↦ inr (eq_of_same_text expected none e)
    | inr e ↦ inl (eq_of_same_text r.accepted_payload_hash expected (ground arith))
  ],
)

-- Without a hash that was sent, only a fork is settled.
resolvable-fork : (m : Meta) → resolvable m ≡ true → m.seed_sha256 ≡ none → m.native_fork ≡ true
resolvable-fork m h e = ground arith

-- The row after a patch.
pub op_of-set_meta :
    (id : Ident) (patch : Meta → Meta) (w : World) {p : Op}
    → op_of id (set_meta id patch w).tables ≡ some p
    → (q : Op) × (op_of id w.tables ≡ some q) × (p ≡ with_meta patch q)
unfolding set_meta
op_of-set_meta id patch w {p} h =
    let u =
      one-update_where (λ (o : Op). o.id == id) (λ o. o.id == id) (with_meta patch) w.tables.ops
        (λ x. refl) in
    elim (Option-cases (op_of id w.tables)) [
      | inl n ↦ absurd (ground arith)
      | inr (q, e) ↦
          let mine = one-holds (λ (o : Op). o.id == id) w.tables.ops e in (q, e, ground arith)
    ]

-- The row of an operation after a write on it.
pub op_of-set_meta-some :
    (id : Ident) (patch : Meta → Meta) (w : World) {r : Op}
    → op_of id w.tables ≡ some r
    → op_of id (set_meta id patch w).tables ≡ some (with_meta patch r)
unfolding set_meta
op_of-set_meta-some id patch w {r} h =
    one-update_where (λ (o : Op). o.id == id) (λ o. o.id == id) (with_meta patch) w.tables.ops
      (λ x. refl)
    ∙ rw (h, one-holds (λ (o : Op). o.id == id) w.tables.ops h) refl

abbrev pub attempted : Op → Meta → Meta
attempted o m = record m { confirm_attempts = suc o.meta.confirm_attempts }

ask-Asks : (p : Port) (o : Op) (ref : Text) (t : Tables) → Asks p ref o t (ask p o ref t)
unfolding target_context
ask-Asks p o ref t = elim (Bool-cases o.meta.native_fork) [
  | inr e ↦ Asks.as_target (inl e) (rw e refl)
  | inl e ↦ elim (Option-cases p.confirm_native_fork) [
    | inl n ↦ Asks.as_target (inr n) (rw (e, n) refl)
    | inr (f, n) ↦ Asks.as_fork f e n (rw (e, n) refl)
  ]
]

-- What is known once a driver has confirmed, and its receipt is in the row.
pub asked-Proven :
    {d : Deps} (p : Port) (o : Op) (ref : Text) (w : World) (c : Commit)
    → d.ports (or_empty o.meta.target_harness) ≡ some p
    → op_of o.id w.tables ≡ some o
    → resolvable o.meta ≡ true
    → or_empty o.meta.target_native_ref ≡ ref
    → c.op_id ≡ o.id
    → c.native_session_ref ≡ ref
    → let w₁ = set_meta o.id (attempted o) w in
      let a = ask p o ref w₁.tables in
      confirms o.meta.seed_sha256 a.outcome ≡ true
      → Proven d c
          (set_meta o.id (record_receipt a.outcome) (record w₁ { tables = a.tables })).tables
unfolding target_context
asked-Proven {d} p o ref w c there row known named mine to fine =
    let w₁ = set_meta o.id (attempted o) w in
    let a = ask p o ref w₁.tables in
    let (r, e, sure, well, same) = confirms-eq-true o.meta.seed_sha256 a.outcome fine in
    Proven.asked (with_meta (attempted o) o) w₁.tables
      (ap (λ i. op_of i w₁.tables) mine ∙ op_of-set_meta-some o.id (attempted o) w row)
      (named ∙ sym to)
      (subst
        (λ n.
          Asked d n (with_meta (attempted o) o) w₁.tables
            (set_meta o.id (record_receipt a.outcome) (record w₁ { tables = a.tables })).tables)
        (sym to)
        (record {
          port = p;
          driver = there;
          receipt = r;
          answer = a;
          asks = ask-Asks p (with_meta (attempted o) o) ref w₁.tables;
          returned = e;
          confirmed = sure;
          hash = well;
          same = elim same [ inl k ↦ inl k | inr n ↦ inr (n, resolvable-fork o.meta known n) ];
          sessions = unfold set_meta in refl;
          row = λ q found.
              let (q₀, _, written) =
                op_of-set_meta o.id (record_receipt a.outcome) (record w₁ { tables = a.tables })
                  found in
              written_receipt r a.outcome q₀ q e written;
        }))
  where
    written_receipt :
        (r : Receipt) (out : Outcome Receipt) (q₀ q : Op)
        → out ≡ Outcome.returned r
        → q ≡ with_meta (record_receipt out) q₀
        → (q.meta.target_confirmed ≡ true)
          × (q.meta.seed_sha256 ≡ r.accepted_payload_hash)
          × (q.meta.accepted_payload_sha256 ≡ r.accepted_payload_hash)
    written_receipt r out q₀ q e k = ground arith
