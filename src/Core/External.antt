-- ===== src/Core/External.antt =====
-- What packages/runtime/core.ts calls and this library does not define: the schema validator with
-- its byte limits, the SHA-256 of a canonical object and of a file's bytes, and the object files
-- under `artifacts/`.
use agent_router.Prelude.{Bool, Text, ◌&&◌, ◌==◌, length, if◌then◌else◌}
use agent_router.Protocol.{
  Ident, Input, ToolCall, Failure, Code, Category, Result, ok, err, require,
}
use agent_router.Store.{Artifact}

-- What reading the file of a storage key gives: the list of its bytes, or a refusal.
pub data Blob : Type 0 where
  bytes : Text → Blob
  invalid_key missing : Blob

pub record External : Type 0 where
  pub valid : Input → Bool
  pub digest : ToolCall → Ident
  pub sha256 : Text → Ident
  pub blob : Ident → Blob

-- `validatePayload`, whose three refusals are one code here.
abbrev pub validate_payload : External → Input → Result (Unit {0})
validate_payload x input =
    require (x.valid input) (Failure.route Code.invalid_payload Category.validation)

abbrev pub check_bytes : External → Artifact → Blob → Result Text
check_bytes x a Blob.invalid_key = err (Failure.route Code.invalid_storage_key Category.validation)
check_bytes x a Blob.missing = err (Failure.route Code.artifact_missing Category.unavailable)
check_bytes x a (Blob.bytes b) =
    if length b == a.byte_size && x.sha256 b == a.sha256
    then ok b
    else err (Failure.route Code.artifact_corrupted Category.ambiguous)

-- The method `readObject`.
unfoldable pub read_object : External → Artifact → Result Text
read_object x a = check_bytes x a (x.blob a.storage_key)
