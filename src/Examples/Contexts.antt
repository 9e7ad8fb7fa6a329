-- ===== src/Examples/Contexts.antt =====
-- A role's context: two sessions of a role, and their entries.
use agent_router.Prelude.{
  true, false, none, some, List, [], ◌∷◌, ◌++◌, ◌≡◌, refl, arith, Text, text_eq, length, any, one,
  select, update_where,
}
use agent_router.Json.{Json, Items, Fields, Writer, canonical, joined, lines, insert_entry}
use agent_router.Json.Canonical.{Same, SameFields, canonical-Same}
use agent_router.RoleContext.Portable.{Limits, Verdict, assert_portable}
use agent_router.RoleContext.Store.{
  Context, done, Tools, NewEntry, PortableKind, Mode, Plan, Fidelity, Session, LogEntry, append,
  plan, prepare, confirm, entries_of, receipt_of, marker_object, native_marker, plan_from, entry_at,
  fresh_state, marker_field, ensure_role, ensure_session, head_of, Receipt,
}
use agent_router.RoleContext.Store.Runs.{Call, run, fresh, run-Numbered}
use agent_router.RoleContext.Store.Numbered.{Numbered}
use agent_router.RoleContext.Store.Split.{entries_of-split}
use agent_router.RoleContext.Store.Growth.{Grows}
use agent_router.RoleContext.Store.Lasting.{run-Grows, append_again}
use agent_router.RoleContext.Store.Delta.{plan-prepare-confirm}
use agent_router.RoleContext.Store.Refinement.{log_of, see_all}
use agent_router.RoleContext.Store.Seen.{run-see_all}

-- A writer that quotes with the code of a quotation mark, and writes a number as one code.
abbrev writer : Writer
writer = record { quote = λ t. 34 ∷ (t ++ 34 ∷ []); digits = λ n. 48 ∷ n ∷ [] }

abbrev secret : Text
secret = 115 ∷ 101 ∷ 99 ∷ 114 ∷ 101 ∷ 116 ∷ []

abbrev limits : Limits
limits = record { writer = writer; forbidden = λ k. text_eq k secret; bytes = length }

abbrev tools : Tools
tools = record { limits = record limits { bytes = λ t. 1 }; sha256 = λ t. t; name_of = λ i. i ∷ [] }

abbrev said : Text → NewEntry
said t = record {
  role_id = 1;
  source_work_session_id = some 10;
  source_kind = 99 ∷ [];
  source_id = t;
  portable_kind = PortableKind.user_message;
  content = Json.object (Fields.field (98 ∷ []) (Json.string t) Fields.no_field);
  metadata = Json.object Fields.no_field;
  created_at_ms = 5;
}

abbrev sessions : List Session
sessions = record { id = 10; role_id = 1 } ∷ record { id = 11; role_id = 1 } ∷ []

abbrev for_second : NewEntry
for_second = record (said (122 ∷ [])) { source_work_session_id = some 11 }

abbrev calls : List Call
calls =
    Call.append_entry (said (97 ∷ []))
    ∷ Call.append_entry (said (98 ∷ []))
    ∷ Call.append_entry (said (97 ∷ []))
    ∷ Call.append_entry for_second
    ∷ []

abbrev tables : Context
tables = run tools calls (fresh (1 ∷ []) sessions)

abbrev first_entry : LogEntry
first_entry = entry_at tools (said (97 ∷ [])) 1

-- The role and its second session, and an entry of the first one.
abbrev start : Context
start = record (fresh (1 ∷ []) sessions) {
  heads = record { role_id = 1; head_seq = 1 } ∷ [];
  entries = first_entry ∷ [];
  states = fresh_state 1 10 ∷ fresh_state 1 11 ∷ [];
}

abbrev empty : Context
empty = fresh (1 ∷ []) sessions

abbrev appended : Context
appended = record empty {
  heads = record { role_id = 1; head_seq = 1 } ∷ [];
  entries = first_entry ∷ [];
  states = fresh_state 1 10 ∷ [];
}

append_first :
    append tools (said (97 ∷ [])) empty
    ≡ done (record { inserted = true; context_seq = 1 }, appended)
unfolding append ensure_role ensure_session head_of any one update_where canonical assert_portable
    text_eq joined lines insert_entry
append_first = refl

append_again_example :
    append tools (said (97 ∷ [])) (run tools calls appended)
    ≡ done (record { inserted = false; context_seq = 1 }, run tools calls appended)
append_again_example = append_again tools (said (97 ∷ [])) empty calls append_first

run-Numbered_example : Numbered tables
run-Numbered_example = run-Numbered tools (1 ∷ []) sessions calls

entries_of-split_example :
    (xs ys : List LogEntry) × (entries_of 1 0 1 11 tables ≡ done xs)
    × (entries_of 1 1 3 11 tables ≡ done ys)
    × (entries_of 1 0 3 11 tables ≡ done (xs ++ ys))
entries_of-split_example =
    entries_of-split tables 1 11 0 1 3 (run-Numbered tools (1 ∷ []) sessions calls) (omega arith)
      (omega arith)

run-Grows_example : Grows start (run tools calls start)
run-Grows_example = run-Grows tools calls start

run-see_all_example : log_of tables ≡ see_all tools (1 ∷ []) sessions calls (log_of empty)
run-see_all_example = run-see_all tools calls empty

abbrev planned : Plan
planned = plan_from tools Mode.delta 1 11 (111 ∷ []) 0 1 (first_entry ∷ [])

plan_first : plan tools Mode.delta 1 11 (111 ∷ []) start ≡ done (planned, start)
unfolding plan ensure_role head_of any one entries_of select
plan_first = refl

no_receipt : receipt_of (111 ∷ []) start ≡ none
unfolding one
no_receipt = refl

abbrev marked : Json
marked = marker_object planned.stable_marker

marked-fine : assert_portable tools.limits marked ≡ Verdict.fine
unfolding assert_portable canonical text_eq joined lines insert_entry
marked-fine = refl

native_marker-marked : native_marker marked ≡ some planned.stable_marker
unfolding marker_field text_eq
native_marker-marked = refl

plan-prepare-confirm_example :
    (r r' : Receipt × Fidelity) × (s₂ s₃ : Context) × (prepare planned start ≡ done (r, s₂))
    × (confirm tools (111 ∷ []) marked Fidelity.exact none s₂ ≡ done (r', s₃))
    × (plan tools Mode.delta 1 11 (112 ∷ []) s₃
        ≡ done (plan_from tools Mode.delta 1 11 (112 ∷ []) 1 1 [], s₃))
plan-prepare-confirm_example =
    plan-prepare-confirm tools 1 11 (111 ∷ []) (112 ∷ []) marked Fidelity.exact none start
      plan_first no_receipt marked-fine native_marker-marked

abbrev one_way : Json
one_way =
    Json.object
      (Fields.field (97 ∷ []) Json.null (Fields.field (98 ∷ []) (Json.bool true) Fields.no_field))

abbrev other_way : Json
other_way =
    Json.object
      (Fields.field (98 ∷ []) (Json.bool true) (Fields.field (97 ∷ []) Json.null Fields.no_field))

one_way-Same : Same one_way other_way
unfolding text_eq
one_way-Same = Same.objects (SameFields.swap refl)

canonical-Same_example : canonical writer one_way ≡ canonical writer other_way
canonical-Same_example = canonical-Same writer one_way other_way one_way-Same

abbrev nested : Json
nested = Json.array (
    Items.item (Json.object (Fields.field (110 ∷ []) (Json.string (97 ∷ [])) Fields.no_field))
      Items.no_item)
