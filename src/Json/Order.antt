-- ===== src/Json/Order.antt =====
-- Texts are in a strict linear order, and inserting two entries with different keys commutes.
use agent_router.Prelude.{
  true, false, List, [], ◌∷◌, ◌≡◌, refl, arith, not, Text, text_eq, Bool-cases, inl, inr,
}
use agent_router.Json.{text_lt, Entry, insert_entry}

pub text_lt_trans : (a b c : Text) → text_lt a b ≡ true → text_lt b c ≡ true → text_lt a c ≡ true
unfolding text_lt
text_lt_trans [] [] c h k = absurd (ground arith)
text_lt_trans [] (y ∷ b) [] h k = absurd (ground arith)
text_lt_trans [] (y ∷ b) (z ∷ c) h k = refl
text_lt_trans (x ∷ a) [] c h k = absurd (ground arith)
text_lt_trans (x ∷ a) (y ∷ b) [] h k = absurd (ground arith)
text_lt_trans (x ∷ a) (y ∷ b) (z ∷ c) h k = ground (arith, text_lt_trans a b c)

-- Of two different texts exactly one is the smaller.
pub text_lt_flip : (a b : Text) → text_eq a b ≡ false → text_lt a b ≡ not (text_lt b a)
unfolding text_lt text_eq
text_lt_flip [] [] h = absurd (ground arith)
text_lt_flip [] (y ∷ b) h = refl
text_lt_flip (x ∷ a) [] h = refl
text_lt_flip (x ∷ a) (y ∷ b) h = ground (arith, text_lt_flip a b)

-- A text above the smaller of two is above, or is not below; stated as what an insertion asks.
pub text_lt_mono : (a b c : Text) → text_lt a b ≡ true → text_lt a c ≡ false → text_lt b c ≡ false
unfolding text_lt
text_lt_mono a b c h k = elim (Bool-cases (text_lt b c)) [
  | inl e ↦ (let f = text_lt_trans a b c h e in cc)
  | inr e ↦ e
]

pub insert_entry_comm :
    (d e : Entry) (xs : List Entry)
    → text_eq d.key e.key ≡ false
    → insert_entry d (insert_entry e xs) ≡ insert_entry e (insert_entry d xs)
unfolding insert_entry
insert_entry_comm d e [] h = ground (arith, text_lt_flip d.key e.key h)
insert_entry_comm d e (x ∷ xs) h = ground (
  arith,
  text_lt_flip d.key e.key h,
  text_lt_trans d.key e.key x.key,
  text_lt_trans e.key d.key x.key,
  insert_entry_comm d e xs h,
)
