-- ===== src/RoleContext/Store/Log.antt =====
-- The log itself: `ensureRole`, `ensureSession`, `append`, `head` and `entries`.
use agent_router.Prelude.{
  ℕ, suc, Bool, true, false, Option, none, some, List, [], ◌∷◌, ◌++◌, ◌&&◌, not, ◌==◌, ltb, leb,
  holds, one, any, select, update_where, Text, text_eq, if◌then◌else◌,
}
use agent_router.Protocol.{Ident}
use agent_router.Json.{canonical}
use agent_router.RoleContext.Portable.{Verdict, assert_portable}
use agent_router.RoleContext.Store.Rows.{
  rank, Fidelity, StoreError, Reply, ◌>>=◌, ◌>>◌, check, Head, Origin, LogEntry, SessionState,
  Context, Tools, NewEntry, Appended, done, throws,
}

-- `insert ... on conflict(role_id) do nothing`
abbrev pub with_head : Ident → List Head → List Head
with_head role_id hs =
    if any (λ h. h.role_id == role_id) hs
    then hs
    else hs ++ record { role_id = role_id; head_seq = 0 } ∷ []

unfoldable pub ensure_role : Ident → Context → Reply Context
ensure_role role_id s = do
  check (any (λ r. r == role_id) s.roles) StoreError.role_not_found
  done (record s { heads = with_head role_id s.heads })

abbrev pub fresh_state : Ident → Ident → SessionState
fresh_state role_id session = record {
  role_session_id = session;
  role_id = role_id;
  synced_through_seq = 0;
  native_history_cursor = none;
  fidelity = Fidelity.unknown;
}

abbrev pub with_state : Ident → Ident → List SessionState → List SessionState
with_state role_id session ts =
    if any (λ t. t.role_session_id == session) ts
    then ts
    else ts ++ fresh_state role_id session ∷ []

unfoldable pub ensure_session : Ident → Option Ident → Context → Reply Context
ensure_session role_id none s = done s
ensure_session role_id (some session) s = do
  check (any (λ e. e.id == session && e.role_id == role_id) s.sessions) StoreError.session_not_found
  done (record s { states = with_state role_id session s.states })

abbrev pub assert_fine : Verdict → Reply (Unit {0})
assert_fine Verdict.fine = done tt
assert_fine (Verdict.bad e) = throws (StoreError.not_portable e)

abbrev pub is_blank : Text → Bool
is_blank [] = true
is_blank (c ∷ t) = false

abbrev pub origin_of : Tools → NewEntry → Origin
origin_of w e = record {
  source_kind = e.source_kind;
  source_id = e.source_id;
  portable_kind = e.portable_kind;
  content_hash = w.sha256 (canonical w.limits.writer e.content);
}

abbrev pub origin_eq : Origin → Origin → Bool
origin_eq a b =
    text_eq a.source_kind b.source_kind
    && text_eq a.source_id b.source_id
    && rank a.portable_kind == rank b.portable_kind
    && text_eq a.content_hash b.content_hash

-- `head?.head_seq ?? 0`
abbrev pub seq_of : Option Head → ℕ
seq_of none = 0
seq_of (some h) = h.head_seq

unfoldable pub head_of : Ident → Context → ℕ
head_of role_id s = seq_of (one (λ h. h.role_id == role_id) s.heads)

abbrev pub raise : ℕ → Head → Head
raise n h = record h { head_seq = n }

abbrev pub entry_at : Tools → NewEntry → ℕ → LogEntry
entry_at w e seq = record {
  role_id = e.role_id;
  context_seq = seq;
  source_work_session_id = e.source_work_session_id;
  origin = origin_of w e;
  content = e.content;
  metadata = e.metadata;
  created_at_ms = e.created_at_ms;
}

abbrev pub same_entry : Tools → NewEntry → LogEntry → Bool
same_entry w e x = x.role_id == e.role_id && origin_eq x.origin (origin_of w e)

-- The writes of an entry that is new.
abbrev pub insert_entry : Tools → NewEntry → ℕ → Context → Context
insert_entry w e seq s = record s {
  entries = s.entries ++ entry_at w e seq ∷ [];
  heads = update_where (λ h. h.role_id == e.role_id && ltb h.head_seq seq) (raise seq) s.heads;
}

abbrev pub write : Tools → NewEntry → Context → Appended × Context
write w e s = elim (one (same_entry w e) s.entries) [
  | some x ↦ (record { inserted = false; context_seq = x.context_seq }, s)
  | none ↦ (
    record { inserted = true; context_seq = suc (head_of e.role_id s) },
    insert_entry w e (suc (head_of e.role_id s)) s,
  )
]

-- A role's identifier and a kind are never empty here, as they are no text.
unfoldable pub append : Tools → NewEntry → Context → Reply (Appended × Context)
append w e s = do
  assert_fine (assert_portable w.limits e.content)
  assert_fine (assert_portable w.limits e.metadata)
  check (not (is_blank e.source_kind) && not (is_blank e.source_id)) StoreError.invalid
  s₁ ← ensure_role e.role_id s
  s₂ ← ensure_session e.role_id e.source_work_session_id s₁
  done (write w e s₂)

-- `select ... where role_id=? and context_seq>? and context_seq<=? and (source_work_session_id is null
-- or source_work_session_id is not ?)`, in the order of the numbers
abbrev pub in_range : Ident → ℕ → ℕ → Ident → LogEntry → Bool
in_range role_id from through target x =
    x.role_id == role_id
    && ltb from x.context_seq
    && leb x.context_seq through
    && not (holds x.source_work_session_id target)

unfoldable pub entries_of : Ident → ℕ → ℕ → Ident → Context → Reply (List LogEntry)
entries_of role_id from through target s = do
  check (leb from through) StoreError.cursor_invalid
  done (select (in_range role_id from through target) s.entries)
