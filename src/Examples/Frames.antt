-- ===== src/Examples/Frames.antt =====
-- The theorems on the decoder of frames, each applied to frames of one letter.
use agent_router.Prelude.{
  Bool, true, false, List, [], ◌∷◌, ◌++◌, ◌==◌, ◌≡◌, ◌≤◌, refl, arith, any, length, Text,
  if◌then◌else◌,
}
use agent_router.Platform.Framing.{Line, frames, scan, push}
use agent_router.Platform.Framing.Laws.{push_split, push-sent, Encodes, sent}

-- `t` and `f`, and white space.
abbrev reads_as : Text → Line Bool
reads_as [] = Line.blank
reads_as (c ∷ t) = if c == 116 then Line.object true else Line.object false

abbrev letter : Bool → Text
letter true = 116 ∷ []
letter false = 102 ∷ []

letter_clean : (b : Bool) → any (λ c. c == 10) (letter b) ≡ false
unfolding any
letter_clean true = refl
letter_clean false = refl

letter_short : (b : Bool) → length (letter b) ≤ 4
letter_short true = omega arith
letter_short false = omega arith

letter_read : (b : Bool) → reads_as (letter b) ≡ Line.object b
letter_read true = refl
letter_read false = refl

letter-Encodes : Encodes reads_as 4 letter
letter-Encodes = record { no_feed = letter_clean; short = letter_short; reads = letter_read }

push_split_example :
    (first second : List Bool) × (middle : Text) × (push reads_as 4 (116 ∷ []) (10 ∷ 10 ∷ [])
      ≡ frames first middle)
    × (push reads_as 4 middle (102 ∷ 10 ∷ 116 ∷ []) ≡ frames second (116 ∷ []))
    × (true ∷ false ∷ [] ≡ first ++ second)
unfolding push scan
push_split_example = push_split reads_as 4 (116 ∷ []) (10 ∷ 10 ∷ []) (102 ∷ 10 ∷ 116 ∷ []) refl

push-sent_example :
    push reads_as 4 [] (sent reads_as 4 letter (true ∷ false ∷ [])) ≡ frames (true ∷ false ∷ []) []
push-sent_example = push-sent reads_as 4 letter (true ∷ false ∷ []) letter-Encodes
