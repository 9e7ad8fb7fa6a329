-- ===== src/Prelude/Laws.antt =====
-- Laws of the statements on tables.
use Prim.Native.Nat.{ℕ, ◌+◌, ◌≤◌}
use mathlib.Core.Path.{◌≡◌, refl}
use mathlib.Core.Bool.{Bool, true, false}
use mathlib.Core.Option.{Option, none, some}
use mathlib.Core.List.{List, [], ◌∷◌, ◌++◌}
use native.Mathlib.Omega.{arith}
use mathlib.Core.Path.{subst}
use mathlib.Core.Logic.{inl, inr}
use agent_router.Prelude.Tests.{if◌then◌else◌, Bool-cases}
use agent_router.Prelude.Tables.{
  one, select, update_where, count_where, any, delete_where, length, take, drop,
}

module _ {ℓ} {A : Type ℓ} where
  -- A row that is found stays the first one when others are inserted.
  pub one-append :
      (p : A → Bool) (xs ys : List A) {a : A} → one p xs ≡ some a → one p (xs ++ ys) ≡ some a
  unfolding one
  one-append p [] ys h = cc
  one-append p (x ∷ xs) ys {a} h = ground (arith, one-append p xs ys {a = a})

  pub one-append_none :
      (p : A → Bool) (xs ys : List A) → one p xs ≡ none → one p (xs ++ ys) ≡ one p ys
  unfolding one
  one-append_none p [] ys h = refl
  one-append_none p (x ∷ xs) ys h = ground (arith, one-append_none p xs ys)

  -- The row that is found passes the test.
  pub one-holds : (p : A → Bool) (xs : List A) {a : A} → one p xs ≡ some a → p a ≡ true
  unfolding one
  one-holds p [] h = cc
  one-holds p (x ∷ xs) {a} h = ground (arith, one-holds p xs {a = a})

  abbrev pub update_one : (A → Bool) → (A → A) → Option A → Option A
  update_one q f none = none
  update_one q f (some x) = some (if q x then f x else x)

  -- An update that keeps what the test reads.
  pub one-update_where :
      (p q : A → Bool) (f : A → A) (xs : List A)
      → ((x : A) → p (f x) ≡ p x)
      → one p (update_where q f xs) ≡ update_one q f (one p xs)
  unfolding one update_where
  one-update_where p q f [] h = refl
  one-update_where p q f (x ∷ xs) h = ground (arith, h x, one-update_where p q f xs h)

  pub count_where-append :
      (p : A → Bool) (xs ys : List A)
      → count_where p (xs ++ ys) ≡ count_where p xs + count_where p ys
  unfolding count_where
  count_where-append p [] ys = omega arith
  count_where-append p (x ∷ xs) ys = omega (arith, count_where-append p xs ys)

  pub count_where_mono :
      (p q : A → Bool) (xs : List A)
      → ((x : A) → p x ≡ true → q x ≡ true)
      → count_where p xs ≤ count_where q xs
  unfolding count_where
  count_where_mono p q [] h = omega arith
  count_where_mono p q (x ∷ xs) h = ground (arith, h x, count_where_mono p q xs h)

  pub any-append_false :
      (p : A → Bool) (xs ys : List A)
      → any p xs ≡ false
      → any p ys ≡ false
      → any p (xs ++ ys) ≡ false
  unfolding any
  any-append_false p [] ys h k = k
  any-append_false p (x ∷ xs) ys h k = ground (arith, any-append_false p xs ys)

  -- An update that makes the test fail wherever it held.
  pub any-update_where-false :
      (p q : A → Bool) (f : A → A) (xs : List A)
      → ((x : A) → q x ≡ true → p (f x) ≡ false)
      → ((x : A) → q x ≡ false → p x ≡ false)
      → any p (update_where q f xs) ≡ false
  unfolding any update_where
  any-update_where-false p q f [] h k = refl
  any-update_where-false p q f (x ∷ xs) h k =
      ground (arith, h x, k x, any-update_where-false p q f xs h k)

  -- An update that keeps the test.
  pub any-update_where :
      (p q : A → Bool) (f : A → A) (xs : List A)
      → ((x : A) → p (f x) ≡ p x)
      → any p (update_where q f xs) ≡ any p xs
  unfolding any update_where
  any-update_where p q f [] h = refl
  any-update_where p q f (x ∷ xs) h = ground (arith, h x, any-update_where p q f xs h)

  pub any-delete_where : (p : A → Bool) (xs : List A) → any p (delete_where p xs) ≡ false
  unfolding any delete_where
  any-delete_where p [] = refl
  any-delete_where p (x ∷ xs) = ground (arith, any-delete_where p xs)

  pub select_of_any-false : (p : A → Bool) (xs : List A) → any p xs ≡ false → select p xs ≡ []
  unfolding any select
  select_of_any-false p [] h = refl
  select_of_any-false p (x ∷ xs) h = ground (arith, select_of_any-false p xs)

  pub take-append-drop : (n : ℕ) (xs : List A) → take n xs ++ drop n xs ≡ xs
  take-append-drop ℕ.zero xs = refl
  take-append-drop (ℕ.suc n) [] = refl
  take-append-drop (ℕ.suc n) (x ∷ xs) = ground (arith, take-append-drop n xs)

  pub length-take-le : (n : ℕ) (xs : List A) → length (take n xs) ≤ n
  length-take-le ℕ.zero xs = omega arith
  length-take-le (ℕ.suc n) [] = omega arith
  length-take-le (ℕ.suc n) (x ∷ xs) = omega (arith, length-take-le n xs)

  -- An update of rows that are not selected, before and after.
  pub select-update_where :
      (p q : A → Bool) (f : A → A) (xs : List A)
      → ((x : A) → q x ≡ true → p x ≡ false)
      → ((x : A) → q x ≡ true → p (f x) ≡ false)
      → select p (update_where q f xs) ≡ select p xs
  unfolding select update_where
  select-update_where p q f [] h k = refl
  select-update_where p q f (x ∷ xs) h k =
      ground (arith, h x, k x, select-update_where p q f xs h k)

  -- An update that makes no row pass the test.
  pub any-update_where_le :
      (p q : A → Bool) (f : A → A) (xs : List A)
      → ((x : A) → p (f x) ≡ true → p x ≡ true)
      → any p (update_where q f xs) ≡ true
      → any p xs ≡ true
  unfolding any update_where
  any-update_where_le p q f [] h e = e
  any-update_where_le p q f (x ∷ xs) h e = ground (arith, h x, any-update_where_le p q f xs h)

  -- A row that is found does not pass a test that no row passes.
  pub one-any :
      (p q : A → Bool) (xs : List A) {x : A} → one p xs ≡ some x → any q xs ≡ false → q x ≡ false
  unfolding one any
  one-any p q [] h k = absurd (ground arith)
  one-any p q (y ∷ ys) {x} h k = elim (Bool-cases (p y)) [
    | inl e ↦ (let same : y ≡ x = ground arith in subst (λ z. q z ≡ false) same (ground arith))
    | inr e ↦ one-any p q ys (ground arith) (ground arith)
  ]

  -- An update whose rows do not pass leaves none that passes, where none did.
  pub any-update_where_keeps :
      (p q : A → Bool) (f : A → A) (xs : List A)
      → ((x : A) → p (f x) ≡ false)
      → any p xs ≡ false
      → any p (update_where q f xs) ≡ false
  unfolding any update_where
  any-update_where_keeps p q f [] h k = refl
  any-update_where_keeps p q f (x ∷ xs) h k = ground (arith, h x, any-update_where_keeps p q f xs h)

  -- A test that some row passes finds a row.
  pub one-any-true : (p : A → Bool) (xs : List A) → any p xs ≡ true → (x : A) × (one p xs ≡ some x)
  unfolding one any
  one-any-true p [] h = absurd (ground arith)
  one-any-true p (x ∷ xs) h = elim (Bool-cases (p x)) [
    | inl e ↦ (x, ground arith)
    | inr e ↦ (let (y, k) = one-any-true p xs (ground arith) in (y, ground arith))
  ]

  pub select-append :
      (p : A → Bool) (xs ys : List A) → select p (xs ++ ys) ≡ select p xs ++ select p ys
  unfolding select
  select-append p [] ys = refl
  select-append p (x ∷ xs) ys = ground (arith, select-append p xs ys)

  -- A row that passes, inserted last.
  pub any-append_last :
      (p : A → Bool) (xs : List A) {x : A} → p x ≡ true → any p (xs ++ x ∷ []) ≡ true
  unfolding any
  any-append_last p [] h = ground arith
  any-append_last p (y ∷ xs) {x} h = ground (arith, any-append_last p xs {x = x} h)

  pub any-append_true : (p : A → Bool) (xs ys : List A) → any p xs ≡ true → any p (xs ++ ys) ≡ true
  unfolding any
  any-append_true p [] ys h = absurd (ground arith)
  any-append_true p (x ∷ xs) ys h = ground (arith, any-append_true p xs ys)
