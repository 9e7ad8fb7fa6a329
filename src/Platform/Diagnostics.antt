-- ===== src/Platform/Diagnostics.antt =====
-- packages/platform/stderr-ring.ts: the last lines of a process's error stream. The redaction of a
-- line, which is made of regular expressions, and its length in UTF-8 are parameters.
pub mod Laws
use agent_router.Prelude.{
  ℕ, ◌+◌, ◌-◌, Bool, true, false, List, [], ◌∷◌, ◌++◌, ◌==◌, ltb, length, Text, if◌then◌else◌,
}

-- A text is the list of its code units.
pub record Ring : Type 0 where
  pub pending : Text
  pub lines : List Text
  pub bytes : ℕ

module _ (sanitize : Text → Text) (size : Text → ℕ) (limit : ℕ) where
  -- The loop of `admit`: the oldest lines go until the rest fits or one is left.
  unfoldable pub evict : ℕ → Text → List Text → ℕ × List Text
  evict bytes l [] = (bytes, l ∷ [])
  evict bytes l (m ∷ ls) =
      let rest = evict (bytes - (size l + 1)) m ls in
      if ltb limit bytes then rest else (bytes, l ∷ m ∷ ls)

  abbrev pub evict_lines : ℕ → List Text → ℕ × List Text
  evict_lines bytes [] = (bytes, [])
  evict_lines bytes (l ∷ ls) = evict bytes l ls

  unfoldable pub admit_line : Text → Ring → Ring
  admit_line line r =
      let kept =
        evict_lines (r.bytes + (size (sanitize line) + 1)) (r.lines ++ sanitize line ∷ []) in
      record r { lines = kept.1; bytes = kept.0 }

  -- The loop of `push`, `line` being the code units since the last line feed; a half line that is too
  -- long is dropped.
  unfoldable pub feed : Text → Text → Ring → Ring
  feed line [] r = record r { pending = (if ltb limit (length line) then [] else line) }
  feed line (c ∷ rest) r =
      if c == 10 then feed [] rest (admit_line line r) else feed (line ++ c ∷ []) rest r

  unfoldable pub push_text : Text → Ring → Ring
  push_text chunk r = feed [] (r.pending ++ chunk) r
