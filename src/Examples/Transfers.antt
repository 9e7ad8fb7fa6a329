-- ===== src/Examples/Transfers.antt =====
-- A transfer from one harness to another, with drivers that answer at once and leave the tables alone.
use agent_router.Prelude.{
  ℕ, zero, suc, all, ◌≤◌, true, false, Bool-cases, inl, inr, subst, sym, none, some, [], ◌∷◌, ◌++◌,
  ◌≡◌, refl, arith, one, count_where, update_where, Text, text_eq,
}
use mathlib.Core.List.{Memᴰ}
use agent_router.Transfer.Decide.{Capacity, Right, decide_transfer, decide_transfer-Right}
use agent_router.Transfer.Rows.{
  Op, Meta, Side, State, Tables, World, Event, Commit, op_of, is_active, max_retries, set_meta,
}
use agent_router.Transfer.Ports.{
  Deps, Port, Awaited, Outcome, Receipt, PortContext, target_context, is_sha256,
}
use agent_router.Transfer.Settle.{
  settle_seeded, settle_row, confirm_attempt, commit_transfer, current_session,
}
use agent_router.Transfer.Due.{Due}
use agent_router.Transfer.Kept.{PortKeeps}
use agent_router.Transfer.Kept.Whole.{Act, act, Reaches}
use agent_router.Transfer.Laws.{Reaches-Due}
use agent_router.Transfer.Bounds.{updated_row, NotLowered, Careful, is_retry, Reaches-retries}
use agent_router.Transfer.Completes.{commit_of, send_seed-commits}
use agent_router.Transfer.Run.{send_seed}
use agent_router.Transfer.Ended.{Ended, NotRevived, Steady, Reaches-Ended}

abbrev answer {ℓ} : {A : Type ℓ} → A → Tables → Awaited A
answer a t = record { tables = t; created = none; dispatched = false; outcome = Outcome.returned a }

abbrev hash : Text
hash = 97 ∷ []

abbrev receipt : Receipt
receipt = record {
  native_session_ref = 116 ∷ [];
  confirmed = true;
  accepted_payload_hash = some hash;
  native_receipt = none;
}

abbrev driver : Port
driver = record {
  native_fork_target = none;
  confirm_native_fork = none;
  export_context = λ c ref t. answer (record { text = 104 ∷ 105 ∷ []; truncated = false }) t;
  initialize_target = λ c seed op h ref t. answer receipt t;
  confirm_target = λ c ref op h t. answer receipt t;
  target_window_tokens = none;
  source_capacity = none;
  compress_source = none;
}

abbrev committed_rows : Tables → Tables
committed_rows t = record t {
  ops = update_where (λ o. is_active o.state) (λ o. record o { state = State.committed }) t.ops;
}

abbrev deps : Deps
deps = record {
  ports = λ h. some driver;
  sha256 = λ t. hash;
  commit = λ c t. some (committed_rows t);
}

abbrev nowhere : Side
nowhere = record {
  session_home = none;
  workspace_path = none;
  profile_ref = none;
  binding_id = none;
  role_session_id = none;
}

abbrev sent : Meta
sent = record {
  target_harness = some (112 ∷ []);
  source_harness = some (99 ∷ []);
  source = nowhere;
  target = nowhere;
  source_session_home = none;
  target_session_home = none;
  name = none;
  exported_sha256 = some hash;
  truncated = false;
  decision = none;
  compressed = false;
  compressed_truncated = false;
  seed_sha256 = some hash;
  seed_send_started = true;
  native_fork = false;
  source_native_ref = none;
  target_native_ref = some (116 ∷ []);
  target_returned_ref = none;
  target_created = true;
  target_confirmed = true;
  accepted_payload_sha256 = some hash;
  native_receipt = none;
  confirm_attempts = 0;
  retries = 0;
}

abbrev seeded_op : Op
seeded_op = record {
  id = 1;
  role_id = 2;
  from_session_id = 3;
  to_session_id = none;
  state = State.seeded;
  meta = sent;
  error_code = none;
}

abbrev before : World
before = record {
  tables = record {
    ops = seeded_op ∷ [];
    sessions =
        record { id = 3; role_id = 2; active = true; native_session_ref = some (115 ∷ []) } ∷ [];
  };
  events = [];
}

abbrev commit_one : Commit
commit_one = record {
  op_id = 1;
  role_id = 2;
  from_session_id = 3;
  name = none;
  target_harness = 112 ∷ [];
  native_session_ref = 116 ∷ [];
}

-- A driver that confirms a hash of the length of a SHA-256, and a row that waits for it.
abbrev letters : ℕ → Text
letters zero = []
letters (suc n) = 97 ∷ letters n

abbrev strict_driver : Port
strict_driver = record driver {
  confirm_target =
      λ c ref op h t. answer (record receipt { accepted_payload_hash = some (letters 64) }) t;
}

abbrev strict : Deps
strict = record deps { ports = λ h. some strict_driver }

abbrev waiting : Meta
waiting = record sent {
  seed_sha256 = some (letters 64);
  target_confirmed = false;
  accepted_payload_sha256 = none;
}

abbrev waiting_before : World
waiting_before = record before {
  tables = record before.tables { ops = record seeded_op { meta = waiting } ∷ [] };
}

abbrev at_commit : Tables
at_commit = record before.tables {
  ops =
      record seeded_op {
        meta = record waiting {
          target_confirmed = true;
          accepted_payload_sha256 = some (letters 64);
          confirm_attempts = 1;
        };
      }
      ∷ [];
}

abbrev settled_after : World
settled_after = act strict (Act.settles 1) waiting_before

events_after : settled_after.events ≡ Event.committing commit_one at_commit ∷ Event.settled 2 ∷ []
unfolding act settle_seeded settle_row confirm_attempt commit_transfer set_meta is_sha256 one
    update_where all text_eq
events_after = refl

Reaches-Due_example : Due strict commit_one at_commit
Reaches-Due_example =
    Reaches-Due strict waiting_before settled_after commit_one at_commit refl
      (Reaches.then_acts (Act.settles 1) Reaches.at_start)
      (subst (Memᴰ (Event.committing commit_one at_commit)) (sym events_after) (Memᴰ.head refl))

-- The driver leaves the tables alone.
quiet-PortKeeps :
    (others : Tables → Tables → Type 0)
    → ((t : Tables) → others t t)
    → (p : Port) → some driver ≡ some p
    → PortKeeps others p
quiet-PortKeeps others same p e = subst (PortKeeps others) (some_injective e) (record {
  native_fork_target = λ f e c a op b t. absurd (ground arith);
  confirm_native_fork = λ f e c a b op h t. absurd (ground arith);
  export_context = λ c a t. same t;
  initialize_target = λ c a op h b t. same t;
  confirm_target = λ c a op h t. same t;
  target_window_tokens = λ f e c op b t. absurd (ground arith);
  source_capacity = λ f e c a t. absurd (ground arith);
  compress_source = λ f e a n t. absurd (ground arith);
})
  where
    some_injective : {p : Port} → some driver ≡ some p → driver ≡ p
    some_injective e = ground arith

NotLowered-refl : (t : Tables) → NotLowered 1 t t
NotLowered-refl t = λ p h. (p, h, omega arith)

committed_rows-NotLowered : (t : Tables) → NotLowered 1 t (committed_rows t)
committed_rows-NotLowered t = λ p h.
    let (q, e, k) =
      updated_row 1 (λ o. is_active o.state) (λ o. record o { state = State.committed }) t.ops
        (λ y. refl) h in
    (q, e, elim (Bool-cases (is_active q.state)) [ inl a ↦ ground arith | inr a ↦ ground arith ])

deps-Careful : Careful deps 1
deps-Careful = record {
  ports = λ h p e. quiet-PortKeeps (NotLowered 1) NotLowered-refl p e;
  commit = λ c t t' e. subst (NotLowered 1 t) (some_tables e) (committed_rows-NotLowered t);
}
  where
    some_tables : {t t' : Tables} → some t ≡ some t' → t ≡ t'
    some_tables e = ground arith

Reaches-retries_example :
    count_where (is_retry 1) (act deps (Act.runs_or_settles 1) (act deps Act.resumes before)).events
    ≤ max_retries
Reaches-retries_example =
    Reaches-retries deps 1 before (act deps (Act.runs_or_settles 1) (act deps Act.resumes before))
      deps-Careful refl
      (Reaches.then_acts (Act.runs_or_settles 1) (Reaches.then_acts Act.resumes Reaches.at_start))

committed_rows-NotRevived : (t : Tables) → NotRevived 1 t (committed_rows t)
committed_rows-NotRevived t = λ ended p h.
    let (q, e, k) =
      updated_row 1 (λ o. is_active o.state) (λ o. record o { state = State.committed }) t.ops
        (λ y. refl) h in
    let c = ended q e in
    elim (Bool-cases (is_active q.state)) [ inl a ↦ absurd (ground arith) | inr a ↦ ground arith ]

deps-Steady : Steady deps 1
deps-Steady = record {
  ports = λ h p e. quiet-PortKeeps (NotRevived 1) (λ t ended. ended) p e;
  commit = λ c t t' e. subst (NotRevived 1 t) (some_tables e) (committed_rows-NotRevived t);
}
  where
    some_tables : {t t' : Tables} → some t ≡ some t' → t ≡ t'
    some_tables e = ground arith

abbrev failed_before : World
failed_before = record before {
  tables = record before.tables { ops = record seeded_op { state = State.failed } ∷ [] };
}

failed_before-Ended : Ended 1 failed_before.tables
unfolding one
failed_before-Ended = λ o h. ground arith

Reaches-Ended_example :
    Ended 1 (act deps Act.resumes (act deps (Act.settles 1) failed_before)).tables
Reaches-Ended_example =
    Reaches-Ended deps 1 failed_before
      (act deps Act.resumes (act deps (Act.settles 1) failed_before)) deps-Steady
      failed_before-Ended
      (Reaches.then_acts Act.resumes (Reaches.then_acts (Act.settles 1) Reaches.at_start))

abbrev smaller : Capacity
smaller = record {
  target_window_tokens = some 100;
  source_window_tokens = some 200;
  source_usage_tokens = some 150;
}

decide_transfer-Right_example : Right (some 100) (some 200) (some 150) (decide_transfer smaller)
decide_transfer-Right_example = decide_transfer-Right smaller

abbrev exported_op : Op
exported_op = record seeded_op {
  state = State.exported;
  meta = record sent {
    seed_sha256 = none;
    seed_send_started = false;
    target_native_ref = none;
    target_created = false;
    target_confirmed = false;
    accepted_payload_sha256 = none;
  };
}

abbrev exported_before : World
exported_before = record before { tables = record before.tables { ops = exported_op ∷ [] } }

abbrev elsewhere : PortContext
elsewhere = target_context exported_op.meta (112 ∷ [])

row_there : op_of 1 exported_before.tables ≡ some exported_op
unfolding one
row_there = refl

source_there :
    current_session 2 exported_before.tables
    ≡ some (record { id = 3; role_id = 2; active = true; native_session_ref = some (115 ∷ []) })
unfolding one
source_there = refl

send_seed-commits_example :
    (between : Tables) × ((send_seed deps driver exported_op elsewhere
        (104 ∷ [])
        exported_before).tables
      ≡ committed_rows between)
    × ((send_seed deps driver exported_op elsewhere (104 ∷ []) exported_before).events
        ≡ []
          ++ Event.committing (commit_of exported_op (116 ∷ [])) between ∷ []
          ++ Event.settled 2 ∷ [])
send_seed-commits_example =
    send_seed-commits deps driver driver exported_op exported_op elsewhere (104 ∷ [])
      exported_before receipt
      (record { id = 3; role_id = 2; active = true; native_session_ref = some (115 ∷ []) })
      committed_rows row_there refl refl (λ h ref t. refl) refl refl refl refl refl source_there
      refl (λ t. refl)
