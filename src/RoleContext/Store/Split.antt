-- ===== src/RoleContext/Store/Split.antt =====
-- What the cursor of a session means for `entries`.
use agent_router.Prelude.{
  ℕ, zero, suc, ◌≤◌, true, false, List, [], ◌∷◌, ◌++◌, ◌==◌, leb, ◌≡◌, refl, arith, select, inl,
  inr, Bool-cases,
}
use agent_router.Protocol.{Ident}
use agent_router.RoleContext.Store.{Context, done, LogEntry, in_range, entries_of, head_of}
use agent_router.RoleContext.Store.Numbered.{Numbered, numbers_of, range}

-- The numbers of a role whose first entry is at the front, and of one whose first entry is not.
numbers_of-own :
    (r : Ident) (x : LogEntry) (xs : List LogEntry) (from n : ℕ)
    → (x.role_id == r) ≡ true
    → numbers_of r (x ∷ xs) ≡ range from (suc n)
    → (x.context_seq ≡ suc from) × (numbers_of r xs ≡ range (suc from) n)
unfolding numbers_of range select
numbers_of-own r x xs from n own m = (ground arith, ground arith)

numbers_of-other :
    (r : Ident) (x : LogEntry) (xs : List LogEntry) (from n : ℕ)
    → (x.role_id == r) ≡ false
    → numbers_of r (x ∷ xs) ≡ range from n
    → numbers_of r xs ≡ range from n
unfolding numbers_of select
numbers_of-other r x xs from n other m = ground arith

numbers_of-none :
    (r : Ident) (x : LogEntry) (xs : List LogEntry) (from : ℕ)
    → (x.role_id == r) ≡ true
    → numbers_of r (x ∷ xs) ≡ range from 0
    → ⊥
unfolding numbers_of range select
numbers_of-none r x xs from own m = ground arith

-- Entries with the numbers after a lower end: none is in a range that ends there.
range-empty :
    (r t : Ident) (a c from count : ℕ) (xs : List LogEntry)
    → numbers_of r xs ≡ range from count
    → c ≤ from
    → select (in_range r a c t) xs ≡ []
unfolding select
range-empty r t a c from count [] m h = refl
range-empty r t a c from zero (x ∷ xs) m h = elim (Bool-cases (x.role_id == r)) [
  | inr other ↦
      ground (arith, range-empty r t a c from zero xs (numbers_of-other r x xs from zero other m) h)
  | inl own ↦ absurd (numbers_of-none r x xs from own m)
]
range-empty r t a c from (suc n) (x ∷ xs) m h = elim (Bool-cases (x.role_id == r)) [
  | inr other ↦
      ground (
        arith,
        range-empty r t a c from (suc n) xs (numbers_of-other r x xs from (suc n) other m) h,
      )
  | inl own ↦
      let (e, rest) = numbers_of-own r x xs from n own m in
      ground (arith, range-empty r t a c (suc from) n xs rest (omega arith))
]

-- A range is cut in two.
range-split :
    (r t : Ident) (a b c from count : ℕ) (xs : List LogEntry)
    → numbers_of r xs ≡ range from count
    → a ≤ b
    → b ≤ c
    → select (in_range r a c t) xs ≡ select (in_range r a b t) xs ++ select (in_range r b c t) xs
unfolding select
range-split r t a b c from count [] m h k = refl
range-split r t a b c from zero (x ∷ xs) m h k = elim (Bool-cases (x.role_id == r)) [
  | inr other ↦
      ground
        (arith, range-split r t a b c from zero xs (numbers_of-other r x xs from zero other m) h k)
  | inl own ↦ absurd (numbers_of-none r x xs from own m)
]
range-split r t a b c from (suc n) (x ∷ xs) m h k = elim (Bool-cases (x.role_id == r)) [
  | inr other ↦ ground (
    arith,
    range-split r t a b c from (suc n) xs (numbers_of-other r x xs from (suc n) other m) h k,
  )
  | inl own ↦
      let (e, rest) = numbers_of-own r x xs from n own m in
      let i = range-split r t a b c (suc from) n xs rest h k in
      elim (Bool-cases (leb x.context_seq b)) [
        | inl early ↦ ground (arith, i)
        | inr late ↦ ground (arith, i, range-empty r t a b (suc from) n xs rest (ground arith))
      ]
]

-- In a numbered log, the entries up to `through` are those up to any number before it, and then
-- those after that number.
pub entries_of-split :
    (s : Context) (r t : Ident) (a b c : ℕ)
    → Numbered s
    → a ≤ b
    → b ≤ c
    → (xs ys : List LogEntry) × (entries_of r a b t s ≡ done xs)
      × (entries_of r b c t s ≡ done ys)
      × (entries_of r a c t s ≡ done (xs ++ ys))
unfolding entries_of Numbered
entries_of-split s r t a b c m h k = (
  select (in_range r a b t) s.entries,
  select (in_range r b c t) s.entries,
  ground arith,
  ground arith,
  ground (arith, range-split r t a b c 0 (head_of r s) s.entries (m r) h k),
)
