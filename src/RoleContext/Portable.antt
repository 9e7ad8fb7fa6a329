-- ===== src/RoleContext/Portable.antt =====
-- What content may enter the log: `assertPortableContext`.
pub mod Laws
use agent_router.Prelude.{ℕ, Bool, true, false, ltb, Text, if◌then◌else◌}
use agent_router.Json.{Json, Items, Fields, Writer, canonical}

pub data Refused : Type 0 where
  forbidden_field too_large : Refused

pub data Verdict : Type 0 where
  fine : Verdict
  bad : Refused → Verdict

-- The regular expression of the forbidden keys, and the length of a text in UTF-8.
pub record Limits : Type 0 where
  pub writer : Writer
  pub forbidden : Text → Bool
  pub bytes : Text → ℕ

abbrev pub max_portable_json_bytes : ℕ
max_portable_json_bytes = 1048576

-- The first check that throws ends the walk.
abbrev pub and_then : Verdict → Verdict → Verdict
and_then Verdict.fine v = v
and_then (Verdict.bad e) v = Verdict.bad e

abbrev pub within : Limits → Text → Verdict
within l t =
    if ltb max_portable_json_bytes (l.bytes t) then Verdict.bad Refused.too_large else Verdict.fine

abbrev pub key_allowed : Limits → Text → Verdict
key_allowed l k = if l.forbidden k then Verdict.bad Refused.forbidden_field else Verdict.fine

-- The size of an object is checked after its fields; an array is only walked through.
unfoldable mutual
  pub assert_portable : Limits → Json → Verdict
  assert_portable l Json.null = Verdict.fine
  assert_portable l (Json.bool b) = Verdict.fine
  assert_portable l (Json.number n) = Verdict.fine
  assert_portable l (Json.string t) = within l t
  assert_portable l (Json.array is) = assert_items l is
  assert_portable l (Json.object fs) =
      and_then (assert_fields l fs) (within l (canonical l.writer (Json.object fs)))

  pub assert_items : Limits → Items → Verdict
  assert_items l Items.no_item = Verdict.fine
  assert_items l (Items.item j is) = and_then (assert_portable l j) (assert_items l is)

  pub assert_fields : Limits → Fields → Verdict
  assert_fields l Fields.no_field = Verdict.fine
  assert_fields l (Fields.field k j fs) =
      and_then (key_allowed l k) (and_then (assert_portable l j) (assert_fields l fs))
