-- ===== src/Json/Canonical.antt =====
-- The canonical text does not depend on the order of the fields.
use agent_router.Prelude.{false, [], ◌∷◌, ◌++◌, ◌≡◌, refl, ap, ◌∙◌, Text, text_eq}
use agent_router.Json.{Json, Items, Fields, Writer, canonical, items_of, sorted, lines, joined}
use agent_router.Json.Order.{insert_entry_comm}

-- The same value, up to the order of the fields of its objects at every depth.
mutual
  pub data Same : Json → Json → Type 0 where
    itself : {a : Json} → Same a a
    arrays : {is js : Items} → SameItems is js → Same (Json.array is) (Json.array js)
    objects : {fs gs : Fields} → SameFields fs gs → Same (Json.object fs) (Json.object gs)

  pub data SameItems : Items → Items → Type 0 where
    ends : SameItems Items.no_item Items.no_item
    item :
        {a b : Json} {is js : Items}
        → Same a b
        → SameItems is js
        → SameItems (Items.item a is) (Items.item b js)

  pub data SameFields : Fields → Fields → Type 0 where
    unchanged : {fs : Fields} → SameFields fs fs
    keep :
        {k : Text} {a b : Json} {fs gs : Fields}
        → Same a b
        → SameFields fs gs
        → SameFields (Fields.field k a fs) (Fields.field k b gs)
    swap :
        {k l : Text} {a b : Json} {fs : Fields}
        → text_eq k l ≡ false
        → SameFields
            (Fields.field k a (Fields.field l b fs))
            (Fields.field l b (Fields.field k a fs))
    chain : {fs gs hs : Fields} → SameFields fs gs → SameFields gs hs → SameFields fs hs

mutual
  unfolding canonical

  written_alike : (w : Writer) {a b : Json} → Same a b → canonical w a ≡ canonical w b
  written_alike w Same.itself = refl
  written_alike w (Same.arrays s) = ap (λ ts. 91 ∷ (joined ts ++ 93 ∷ [])) (items_of_Same w s)
  written_alike w (Same.objects s) =
      ap (λ es. 123 ∷ (joined (lines w es) ++ 125 ∷ [])) (sorted_Same w s)

  items_of_Same : (w : Writer) {is js : Items} → SameItems is js → items_of w is ≡ items_of w js
  items_of_Same w SameItems.ends = refl
  items_of_Same w (SameItems.item s t) = rw (written_alike w s, items_of_Same w t) refl

  sorted_Same : (w : Writer) {fs gs : Fields} → SameFields fs gs → sorted w fs ≡ sorted w gs
  sorted_Same w SameFields.unchanged = refl
  sorted_Same w (SameFields.keep s t) = rw (written_alike w s, sorted_Same w t) refl
  sorted_Same w (SameFields.swap {k} {l} {a} {b} {fs} h) =
      insert_entry_comm (record { key = k; text = canonical w a })
        (record { key = l; text = canonical w b }) (sorted w fs) h
  sorted_Same w (SameFields.chain s t) = sorted_Same w s ∙ sorted_Same w t

-- Values that are equal up to the order of the fields of their objects, at any depth, have the same
-- canonical text, where the keys that change places differ.
pub canonical-Same : (w : Writer) (a b : Json) → Same a b → canonical w a ≡ canonical w b
canonical-Same w a b s = written_alike w s
