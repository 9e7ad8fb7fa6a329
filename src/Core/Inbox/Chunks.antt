-- ===== src/Core/Inbox/Chunks.antt =====
-- Reading an artifact chunk by chunk gives its bytes.
use agent_router.Prelude.{
  ℕ, suc, zero, ◌+◌, ◌≤◌, true, false, some, [], ◌∷◌, ◌++◌, ◌≡◌, refl, arith, take, drop, length,
  ltb, sym, ap, ◌∙◌, Text,
}
use agent_router.Prelude.Laws.{take-append-drop, length-take-le}
use agent_router.Protocol.{ok}
use agent_router.Store.{Db, Artifact}
use agent_router.Core.External.{External, read_object}
use agent_router.Core.Identity.{Identity, Bound, identity}
use agent_router.Core.Messages.{artifact_of}
use agent_router.Core.Inbox.{Chunk, read_artifact}

drop_nil : (b : ℕ) → drop {A = ℕ} b [] ≡ []
drop_nil zero = refl
drop_nil (suc b) = refl

drop-drop : (a b : ℕ) (xs : Text) → drop b (drop a xs) ≡ drop (a + b) xs
drop-drop zero b xs = ap (λ n. drop n xs) (let e : b ≡ 0 + b = omega arith in e)
drop-drop (suc a) b [] = drop_nil b ∙ (let e : suc a + b ≡ suc (a + b) = omega arith in rw e refl)
drop-drop (suc a) b (x ∷ xs) =
    drop-drop a b xs ∙ (let e : suc a + b ≡ suc (a + b) = omega arith in rw e refl)

nothing_left : (n : ℕ) (xs : Text) → ltb n (length xs) ≡ false → drop n xs ≡ []
nothing_left zero [] h = refl
nothing_left zero (x ∷ xs) h = absurd (ground arith)
nothing_left (suc n) [] h = refl
nothing_left (suc n) (x ∷ xs) h = nothing_left n xs (ground arith)

-- A known caller that reads an artifact of its project, whose object is sound, with a limit from 1
-- to 65536: the chunk has at most that many bytes, the bytes from its offset on are the chunk and
-- then the bytes from its end on, and when `has_more` is false there are none of those.
pub read_artifact_chunks :
    (x : External) (p : Identity) (id from size : ℕ) (s : Db) {b : Bound} {a : Artifact}
    {bytes : Text}
    → identity p true s ≡ ok b
    → artifact_of id p.project_id s ≡ some a
    → read_object x a ≡ ok bytes
    → 1 ≤ size
    → size ≤ 65536
    → (c : Chunk) × (read_artifact x p id (some from) (some size) s ≡ ok c)
      × (length c.content ≤ size)
      × (c.content ++ drop (from + size) bytes ≡ drop from bytes)
      × (c.has_more ≡ false → drop (from + size) bytes ≡ [])
unfolding read_artifact
read_artifact_chunks x p id from size s {b} {a} {bytes} known there sound low high = (
  record {
    artifact_id = a.id;
    offset_bytes = from;
    byte_size = a.byte_size;
    content = take size (drop from bytes);
    has_more = ltb (from + size) (length bytes);
  },
  ground arith,
  length-take-le size (drop from bytes),
  ap (λ ys. take size (drop from bytes) ++ ys) (sym (drop-drop from size bytes))
      ∙ take-append-drop size (drop from bytes),
  λ h. nothing_left (from + size) bytes h,
)
