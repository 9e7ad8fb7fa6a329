-- ===== src/Platform/Framing.antt =====
-- packages/platform/framing.ts: the decoder of frames that end in a line feed. What a line holds is
-- read by TextDecoder and JSON.parse, which are a parameter.
pub mod Laws
use agent_router.Prelude.{
  ℕ, Bool, true, false, List, [], ◌∷◌, ◌++◌, ◌==◌, ltb, length, Text, if◌then◌else◌,
}

pub data FrameError : Type 0 where
  frame_limit invalid_frame truncated_frame unreadable : FrameError

-- What the bytes of a line are: white space, an object, or nothing that the decoder accepts.
pub data Line {ℓ} (A : Type ℓ) : Type ℓ where
  blank : Line A
  object : A → Line A
  rejected : FrameError → Line A

-- What a call of `push` returns or throws, with the bytes that are pending after it.
pub data Pushed {ℓ} (A : Type ℓ) : Type ℓ where
  frames : List A → (pending : Text) → Pushed A
  threw : FrameError → (pending : Text) → Pushed A

module _ {A : Type 0} (read : Text → Line A) (limit : ℕ) where
  abbrev pub with_frame : A → Pushed A → Pushed A
  with_frame a (frames fs p) = frames (a ∷ fs) p
  with_frame a (threw e p) = threw e p

  -- A line that has ended, `rest` being what comes after it and `next` the result of going on.
  abbrev pub take_line : Text → Line A → Text → Pushed A → Pushed A
  take_line line Line.blank rest next = next
  take_line line (Line.object a) rest next = with_frame a next
  take_line line (Line.rejected e) rest next = threw e rest

  -- The loop of `push`, `line` being the bytes since the last line feed.
  unfoldable pub scan : Text → Text → Pushed A
  scan line [] =
      if ltb limit (length line) then threw FrameError.frame_limit line else frames [] line
  scan line (c ∷ rest) =
      let next = scan (if c == 10 then [] else line ++ c ∷ []) rest in
      if c == 10
      then (if ltb limit (length line)
          then threw FrameError.frame_limit (line ++ c ∷ rest)
          else take_line line (read line) rest next)
      else next

  unfoldable pub push : (pending chunk : Text) → Pushed A
  push pending chunk = scan [] (pending ++ chunk)
