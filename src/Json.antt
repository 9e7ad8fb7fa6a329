-- ===== src/Json.antt =====
-- JSON values, and the text with sorted keys that packages/protocol/index.ts (`canonical`) and
-- packages/core-service/role-context-store.ts (`stablePortableJson`) make of one. How
-- `JSON.stringify` writes a string and a number is a parameter.
pub mod Order
pub mod Canonical
use agent_router.Prelude.{ℕ, Bool, true, false, List, [], ◌∷◌, ◌++◌, ◌==◌, ltb, Text, if◌then◌else◌}

mutual
  pub data Json : Type 0 where
    null : Json
    bool : Bool → Json
    number : ℕ → Json
    string : Text → Json
    array : Items → Json
    object : Fields → Json

  pub data Items : Type 0 where
    no_item : Items
    item : Json → Items → Items

  pub data Fields : Type 0 where
    no_field : Fields
    field : (key : Text) → Json → Fields → Fields

-- `<` on strings, by code units.
unfoldable pub text_lt : Text → Text → Bool
text_lt [] [] = false
text_lt [] (d ∷ t) = true
text_lt (c ∷ s) [] = false
text_lt (c ∷ s) (d ∷ t) = let rest = text_lt s t in if c == d then rest else ltb c d

-- A key with the text of its value.
pub record Entry : Type 0 where
  pub key : Text
  pub text : Text

unfoldable pub insert_entry : Entry → List Entry → List Entry
insert_entry e [] = e ∷ []
insert_entry e (x ∷ xs) =
    let rest = insert_entry e xs in if text_lt e.key x.key then e ∷ x ∷ xs else x ∷ rest

-- `join(',')`
unfoldable pub joined : List Text → Text
joined [] = []
joined (t ∷ []) = t
joined (t ∷ u ∷ ts) = t ++ 44 ∷ joined (u ∷ ts)

pub record Writer : Type 0 where
  pub quote : Text → Text
  pub digits : ℕ → Text

-- The entries in the order of their keys, with the colon between.
unfoldable pub lines : Writer → List Entry → List Text
lines w [] = []
lines w (e ∷ es) = (w.quote e.key ++ 58 ∷ e.text) ∷ lines w es

unfoldable mutual
  pub canonical : Writer → Json → Text
  canonical w Json.null = 110 ∷ 117 ∷ 108 ∷ 108 ∷ []
  canonical w (Json.bool true) = 116 ∷ 114 ∷ 117 ∷ 101 ∷ []
  canonical w (Json.bool false) = 102 ∷ 97 ∷ 108 ∷ 115 ∷ 101 ∷ []
  canonical w (Json.number n) = w.digits n
  canonical w (Json.string t) = w.quote t
  canonical w (Json.array is) = 91 ∷ (joined (items_of w is) ++ 93 ∷ [])
  canonical w (Json.object fs) = 123 ∷ (joined (lines w (sorted w fs)) ++ 125 ∷ [])

  pub items_of : Writer → Items → List Text
  items_of w Items.no_item = []
  items_of w (Items.item j is) = canonical w j ∷ items_of w is

  -- The fields, sorted by their keys.
  pub sorted : Writer → Fields → List Entry
  sorted w Fields.no_field = []
  sorted w (Fields.field k j fs) =
      insert_entry (record { key = k; text = canonical w j }) (sorted w fs)
