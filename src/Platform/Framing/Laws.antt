-- ===== src/Platform/Framing/Laws.antt =====
-- The frames do not depend on how the bytes are cut into chunks, and encoding is undone.
use agent_router.Prelude.{
  ℕ, ◌≤◌, true, false, List, [], ◌∷◌, ◌++◌, ◌==◌, ◌≡◌, refl, arith, ltb, length, any, Text,
  append_assoc, append-nil, Bool-cases, inl, inr, ap, ◌∙◌, sym, ◌⊎◌,
}
use agent_router.Platform.Framing.{
  Line, FrameError, Pushed, frames, threw, scan, push, take_line, with_frame,
}

module _ {A : Type 0} (read : Text → Line A) (limit : ℕ) where
  abbrev NoFeed : Text → Type 0
  NoFeed t = any (λ c. c == 10) t ≡ false

  -- Bytes without a line feed go to the line.
  scan-skip :
      (line t rest : Text)
      → NoFeed t
      → scan read limit line (t ++ rest) ≡ scan read limit (line ++ t) rest
  unfolding scan any
  scan-skip line [] rest h = ap (λ l. scan read limit l rest) (sym (append-nil line))
  scan-skip line (c ∷ t) rest h =
      let step : scan read limit line (c ∷ (t ++ rest))
          ≡ scan read limit (line ++ c ∷ []) (t ++ rest) =
        ground arith in
      step
      ∙ scan-skip (line ++ c ∷ []) t rest (ground arith)
      ∙ ap (λ l. scan read limit l rest) (append_assoc line (c ∷ []) t)

  length-append_le : (xs ys : Text) → length xs ≤ length (xs ++ ys)
  length-append_le [] ys = omega arith
  length-append_le (x ∷ xs) ys = omega (arith, length-append_le xs ys)

  -- A scan that succeeds has a line within the limit.
  scan-within :
      (line t : Text) {fs : List A} {p : Text}
      → scan read limit line t ≡ frames fs p
      → length line ≤ limit
  unfolding scan
  scan-within line [] h = ground arith
  scan-within line (c ∷ t) {fs} {p} h = elim (Bool-cases (c == 10)) [
    | inl e ↦ ground arith
    | inr e ↦
        let on : scan read limit (line ++ c ∷ []) t ≡ frames fs p = ground arith in
        omega (arith, scan-within (line ++ c ∷ []) t on, length-append_le line (c ∷ []))
  ]

  NoFeed-snoc : (line : Text) (c : ℕ) → NoFeed line → (c == 10) ≡ false → NoFeed (line ++ c ∷ [])
  unfolding any
  NoFeed-snoc [] c h k = ground arith
  NoFeed-snoc (x ∷ xs) c h k = ground (arith, NoFeed-snoc xs c)

  -- What the first part of a scan gives, and what the second gives from there.
  record Cut (line a b : Text) (fs : List A) (p : Text) : Type 0 where
    first : List A
    second : List A
    middle : Text
    before : scan read limit line a ≡ frames first middle
    later : scan read limit [] (middle ++ b) ≡ frames second p
    whole : fs ≡ first ++ second

  with_frame-eq-frames :
      (a : A) (r : Pushed A) {fs : List A} {p : Text}
      → with_frame read limit a r ≡ frames fs p
      → (gs : List A) × (r ≡ frames gs p) × (fs ≡ a ∷ gs)
  with_frame-eq-frames a (frames gs q) h = (gs, ground arith, ground arith)
  with_frame-eq-frames a (threw e q) h = absurd (ground arith)

  Line-cases :
      (l : Line A)
      → (l ≡ Line.blank)
        ⊎ ((a : A) × (l ≡ Line.object a))
        ⊎ ((e : FrameError) × (l ≡ Line.rejected e))
  Line-cases Line.blank = inl refl
  Line-cases (Line.object a) = inr (inl (a, refl))
  Line-cases (Line.rejected e) = inr (inr (e, refl))

  -- A scan of a line feed, and of another byte.
  scan-feed :
      (line rest : Text) (c : ℕ)
      → (c == 10) ≡ true
      → ltb limit (length line) ≡ false
      → scan read limit line (c ∷ rest)
        ≡ take_line read limit line (read line) rest (scan read limit [] rest)
  unfolding scan
  scan-feed line rest c e k = ground arith

  scan-byte :
      (line rest : Text) (c : ℕ)
      → (c == 10) ≡ false
      → scan read limit line (c ∷ rest) ≡ scan read limit (line ++ c ∷ []) rest
  unfolding scan
  scan-byte line rest c e = ground arith

  scan-Cut :
      (line a b : Text) {fs : List A} {p : Text}
      → NoFeed line
      → scan read limit line (a ++ b) ≡ frames fs p
      → Cut line a b fs p
  unfolding any
  scan-Cut line [] b {fs} {p} clean h =
      let within = scan-within line b h in
      record {
        first = [];
        second = fs;
        middle = line;
        before = (unfold scan in ground arith);
        later = scan-skip [] line b clean ∙ h;
        whole = refl;
      }
  scan-Cut line (c ∷ a) b {fs} {p} clean h = elim (Bool-cases (c == 10)) [
    | inr e ↦
        let r =
          scan-Cut (line ++ c ∷ []) a b (NoFeed-snoc line c clean e)
            (sym (scan-byte line (a ++ b) c e) ∙ h) in
        record {
          first = r.first;
          second = r.second;
          middle = r.middle;
          before = scan-byte line a c e ∙ r.before;
          later = r.later;
          whole = r.whole;
        }
    | inl e ↦
        let within = scan-within line (c ∷ (a ++ b)) h in
        let short : ltb limit (length line) ≡ false = ground arith in
        let at_feed = sym (scan-feed line (a ++ b) c e short) ∙ h in
        elim (Line-cases (read line)) [
          | inl l ↦
              let r = scan-Cut [] a b refl (ground arith) in
              record {
                first = r.first;
                second = r.second;
                middle = r.middle;
                before = scan-feed line a c e short ∙ (rw l r.before);
                later = r.later;
                whole = r.whole;
              }
          | inr (inl (o, l)) ↦
              let (gs, rest_ok, split) =
                with_frame-eq-frames o (scan read limit [] (a ++ b)) (ground arith) in
              let r = scan-Cut [] a b refl rest_ok in
              record {
                first = o ∷ r.first;
                second = r.second;
                middle = r.middle;
                before = scan-feed line a c e short ∙ (rw l (rw r.before refl));
                later = r.later;
                whole = split ∙ ap (λ xs. o ∷ xs) r.whole;
              }
          | inr (inr (x, l)) ↦ absurd (ground arith)
        ]
  ]

  -- Bytes that are decoded together may come in two chunks: where one call of `push` succeeds on them,
  -- so do two calls, their frames are the same in the same order, and the same bytes are pending
  -- after them.
  pub push_split :
      (pending a b : Text) {fs : List A} {p : Text}
      → push read limit pending (a ++ b) ≡ frames fs p
      → (first second : List A) × (middle : Text) × (push read limit pending a
          ≡ frames first middle)
        × (push read limit middle b ≡ frames second p)
        × (fs ≡ first ++ second)
  unfolding push any
  push_split pending a b {fs} {p} h =
      let r =
        scan-Cut [] (pending ++ a) b {fs = fs} {p = p} refl
          (ap (scan read limit []) (append_assoc pending a b) ∙ h) in
      (r.first, r.second, r.middle, r.before, r.later, r.whole)

  -- An encoder whose frames are lines that the decoder reads back.
  pub record Encodes (encode : A → Text) : Type 0 where
    pub no_feed : (a : A) → any (λ c. c == 10) (encode a) ≡ false
    pub short : (a : A) → length (encode a) ≤ limit
    pub reads : (a : A) → read (encode a) ≡ Line.object a

  abbrev pub sent : (A → Text) → List A → Text
  sent encode [] = []
  sent encode (a ∷ as_) = encode a ++ 10 ∷ sent encode as_

  -- What is encoded is decoded: the frames that were sent come out, in order, and nothing is pending.
  pub push-sent :
      (encode : A → Text) (as_ : List A)
      → Encodes encode
      → push read limit [] (sent encode as_) ≡ frames as_ []
  unfolding push
  push-sent encode [] law = unfold scan in ground arith
  push-sent encode (a ∷ as_) law =
      let short : ltb limit (length (encode a)) ≡ false = ground (arith, law.short a) in
      scan-skip [] (encode a) (10 ∷ sent encode as_) (law.no_feed a)
      ∙ scan-feed (encode a) (sent encode as_) 10 refl short
      ∙ (rw (law.reads a) (rw (push-sent encode as_ law) refl))
