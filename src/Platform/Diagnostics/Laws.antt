-- ===== src/Platform/Diagnostics/Laws.antt =====
-- The ring stays within its bytes and holds redacted lines only.
use agent_router.Prelude.{
  ℕ, ◌+◌, ◌-◌, ◌≤◌, Bool, true, List, [], ◌∷◌, ◌++◌, ◌==◌, ◌≡◌, ◌⊎◌, inl, inr, arith, ltb, length,
  Text, all, Bool-cases,
}
use agent_router.Platform.Diagnostics.{Ring, evict, evict_lines, admit_line, feed, push_text}

module _ (sanitize : Text → Text) (size : Text → ℕ) (limit : ℕ) (redacted : Text → Bool) where
  abbrev total : List Text → ℕ
  total [] = 0
  total (l ∷ ls) = size l + 1 + total ls

  -- The bytes are those of the lines, within the limit unless one line alone exceeds it; a half line
  -- is within the limit; and every line is redacted.
  pub record Sound (r : Ring) : Type 0 where
    pub counted : r.bytes ≡ total r.lines
    pub bounded : (r.bytes ≤ limit) ⊎ (length r.lines ≤ 1)
    pub half : length r.pending ≤ limit
    pub clean : all redacted r.lines ≡ true

  record Kept (k : ℕ × List Text) : Type 0 where
    counted : k.0 ≡ total k.1
    bounded : (k.0 ≤ limit) ⊎ (length k.1 ≤ 1)
    clean : all redacted k.1 ≡ true

  evict-Kept :
      (bytes : ℕ) (l : Text) (ls : List Text)
      → bytes ≡ total (l ∷ ls)
      → all redacted (l ∷ ls) ≡ true
      → Kept (evict sanitize size limit bytes l ls)
  unfolding evict all
  evict-Kept bytes l [] e c = record { counted = e; bounded = inr (omega arith); clean = c }
  evict-Kept bytes l (m ∷ ls) e c = elim (Bool-cases (ltb limit bytes)) [
    | inl over ↦
        let k = evict-Kept (bytes - (size l + 1)) m ls (omega (arith, e)) (ground arith) in
        rw over k
    | inr fits ↦ rw fits (record { counted = e; bounded = inl (ground arith); clean = c })
  ]

  total-append : (xs ys : List Text) → total (xs ++ ys) ≡ total xs + total ys
  total-append [] ys = omega arith
  total-append (x ∷ xs) ys = omega (arith, total-append xs ys)

  all-append :
      (xs ys : List Text)
      → all redacted xs ≡ true
      → all redacted ys ≡ true
      → all redacted (xs ++ ys) ≡ true
  unfolding all
  all-append [] ys h k = k
  all-append (x ∷ xs) ys h k = ground (arith, all-append xs ys)

  evict_lines-Kept :
      (bytes : ℕ) (ls : List Text)
      → bytes ≡ total ls
      → all redacted ls ≡ true
      → Kept (evict_lines sanitize size limit bytes ls)
  unfolding all
  evict_lines-Kept bytes [] e c = record { counted = e; bounded = inr (omega arith); clean = c }
  evict_lines-Kept bytes (l ∷ ls) e c = evict-Kept bytes l ls e c

  admit_line-Sound :
      (line : Text) (r : Ring)
      → ((t : Text) → redacted (sanitize t) ≡ true)
      → Sound r
      → Sound (admit_line sanitize size limit line r)
  unfolding admit_line all
  admit_line-Sound line r cleans s =
      let k =
        evict_lines-Kept (r.bytes + (size (sanitize line) + 1)) (r.lines ++ sanitize line ∷ [])
          (omega (arith, s.counted, total-append r.lines (sanitize line ∷ [])))
          (all-append r.lines (sanitize line ∷ []) s.clean (ground (arith, cleans line))) in
      record { counted = k.counted; bounded = k.bounded; half = s.half; clean = k.clean }

  feed-Sound :
      (line t : Text) (r : Ring)
      → ((t : Text) → redacted (sanitize t) ≡ true)
      → Sound r
      → Sound (feed sanitize size limit line t r)
  unfolding feed
  feed-Sound line [] r cleans s = elim (Bool-cases (ltb limit (length line))) [
    | inl over ↦
        rw over
          (record { counted = s.counted; bounded = s.bounded; half = omega arith; clean = s.clean })
    | inr fits ↦
        rw fits (record {
          counted = s.counted;
          bounded = s.bounded;
          half = ground arith;
          clean = s.clean;
        })
  ]
  feed-Sound line (c ∷ t) r cleans s = elim (Bool-cases (c == 10)) [
    | inl e ↦ rw e (
        feed-Sound [] t (admit_line sanitize size limit line r) cleans
          (admit_line-Sound line r cleans s))
    | inr e ↦ rw e (feed-Sound (line ++ c ∷ []) t r cleans s)
  ]

  -- Whatever a process writes: the bytes that the ring counts are those of its lines, they are within
  -- the limit unless one line is left, a half line is within the limit, and every line passes a test
  -- that redaction makes a line pass.
  pub push_text-Sound :
      (chunk : Text) (r : Ring)
      → ((t : Text) → redacted (sanitize t) ≡ true)
      → Sound r
      → Sound (push_text sanitize size limit chunk r)
  unfolding push_text
  push_text-Sound chunk r cleans s = feed-Sound [] (r.pending ++ chunk) r cleans s
