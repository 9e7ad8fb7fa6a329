-- ===== src/Core/Inbox.antt =====
-- Reading: the methods `notices` and `readArtifact` of packages/runtime/core.ts. Cursors, offsets
-- and limits are natural numbers, so the source's tests for negative and broken numbers are not
-- here; the shape of the input of `readArtifact` is its type.
pub mod Paging
pub mod Chunks
use agent_router.Prelude.{
  ℕ, ◌+◌, Bool, true, Option, none, some, List, [], ◌∷◌, ◌&&◌, ◌==◌, ltb, leb, select, length, take,
  drop, Text,
}
use agent_router.Protocol.{
  Ident, Failure, Code, Category, Result, ok, ◌>>=◌, ◌>>◌, require, or_throw, Target, target_eq,
}
use agent_router.Store.{Db, Message}
use agent_router.Core.External.{External, read_object}
use agent_router.Core.Identity.{Identity, identity}
use agent_router.Core.Messages.{artifact_of, is_notice}

pub record Page : Type 0 where
  pub items : List Message
  pub next_cursor : ℕ
  pub has_more : Bool

-- A notice to the caller, with a number above the cursor.
abbrev pub notice_for : Identity → ℕ → Message → Bool
notice_for p after m =
    is_notice m.content
    && m.space_id == p.space_id
    && target_eq m.to (Target.role p.role_id)
    && ltb after m.seq

-- `page.at(-1)?.seq ?? after`
unfoldable pub last_seq : ℕ → List Message → ℕ
last_seq after [] = after
last_seq after (m ∷ ms) = last_seq m.seq ms

unfoldable pub page_of : List Message → ℕ → ℕ → Page
page_of rows after limit =
    let page = take limit rows in
    record { items = page; next_cursor = last_seq after page; has_more = ltb limit (length rows) }

-- The table is in the order of `seq`.
unfoldable pub notices : Identity → ℕ → ℕ → Db → Result Page
notices p after limit s = do
  identity p true s
  require (leb 1 limit && leb limit 100)
      (Failure.route Code.invalid_notice_page Category.validation)
  ok (page_of (take (limit + 1) (select (notice_for p after) s.messages)) after limit)

pub record Chunk : Type 0 where
  pub artifact_id : Ident
  pub offset_bytes : ℕ
  pub byte_size : ℕ
  pub content : Text
  pub has_more : Bool

abbrev pub or_default : Option ℕ → ℕ → ℕ
or_default none d = d
or_default (some n) d = n

unfoldable pub read_artifact :
    External → Identity → Ident → (offset limit : Option ℕ) → Db → Result Chunk
read_artifact x p artifact_id offset limit s = do
  identity p true s
  let from : ℕ = or_default offset 0
  let size : ℕ = or_default limit 65536
  require (leb 1 size && leb size 65536)
      (Failure.route Code.artifact_read_limit Category.validation)
  a ←
      or_throw (artifact_of artifact_id p.project_id s)
        (Failure.route Code.artifact_scope Category.authorization)
  bytes ← read_object x a
  ok (record {
    artifact_id = a.id;
    offset_bytes = from;
    byte_size = a.byte_size;
    content = take size (drop from bytes);
    has_more = ltb (from + size) (length bytes);
  })
