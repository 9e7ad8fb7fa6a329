-- ===== src/RoleContext/Portable/Laws.antt =====
-- What `assertPortableContext` rules out.
use agent_router.Prelude.{false, ◌≡◌, arith, Text}
use agent_router.Json.{Json, Items, Fields}
use agent_router.RoleContext.Portable.{
  Limits, Verdict, assert_portable, assert_items, assert_fields, and_then, key_allowed,
}

-- A key with its value, at any depth of a value.
mutual
  pub data Inside (k : Text) (v : Json) : Json → Type 0 where
    in_array : {is : Items} → InsideItems k v is → Inside k v (Json.array is)
    in_object : {fs : Fields} → InsideFields k v fs → Inside k v (Json.object fs)

  pub data InsideItems (k : Text) (v : Json) : Items → Type 0 where
    in_item : {j : Json} {is : Items} → Inside k v j → InsideItems k v (Items.item j is)
    in_later_item : {j : Json} {is : Items} → InsideItems k v is → InsideItems k v (Items.item j is)

  pub data InsideFields (k : Text) (v : Json) : Fields → Type 0 where
    here : {fs : Fields} → InsideFields k v (Fields.field k v fs)
    in_value :
        {l : Text} {j : Json} {fs : Fields} → Inside k v j → InsideFields k v (Fields.field l j fs)
    in_later_field :
        {l : Text} {j : Json} {fs : Fields}
        → InsideFields k v fs
        → InsideFields k v (Fields.field l j fs)

and_then-fine :
    (u v : Verdict) → and_then u v ≡ Verdict.fine → (u ≡ Verdict.fine) × (v ≡ Verdict.fine)
and_then-fine Verdict.fine v h = (ground arith, h)
and_then-fine (Verdict.bad e) v h = absurd (ground arith)

mutual
  unfolding assert_portable

  value_checked :
      (l : Limits) {k : Text} {v j : Json}
      → assert_portable l j ≡ Verdict.fine
      → Inside k v j
      → (l.forbidden k ≡ false) × (assert_portable l v ≡ Verdict.fine)
  value_checked l h (Inside.in_array i) = items_checked l h i
  value_checked l h (Inside.in_object {fs} i) =
      let (e, _) = and_then-fine (assert_fields l fs) _ h in fields_checked l e i

  items_checked :
      (l : Limits) {k : Text} {v : Json} {is : Items}
      → assert_items l is ≡ Verdict.fine
      → InsideItems k v is
      → (l.forbidden k ≡ false) × (assert_portable l v ≡ Verdict.fine)
  items_checked l h (InsideItems.in_item {j} {is} i) =
      let (e, _) = and_then-fine (assert_portable l j) (assert_items l is) h in value_checked l e i
  items_checked l h (InsideItems.in_later_item {j} {is} i) =
      let (_, e) = and_then-fine (assert_portable l j) (assert_items l is) h in items_checked l e i

  fields_checked :
      (l : Limits) {k : Text} {v : Json} {fs : Fields}
      → assert_fields l fs ≡ Verdict.fine
      → InsideFields k v fs
      → (l.forbidden k ≡ false) × (assert_portable l v ≡ Verdict.fine)
  fields_checked l {k} {v} h (InsideFields.here {fs}) =
      let (a, b) =
        and_then-fine (key_allowed l k) (and_then (assert_portable l v) (assert_fields l fs)) h in
      let (c, _) = and_then-fine (assert_portable l v) (assert_fields l fs) b in (ground arith, c)
  fields_checked l h (InsideFields.in_value {l = key} {j} {fs} i) =
      let (_, b) =
        and_then-fine (key_allowed l key) (and_then (assert_portable l j) (assert_fields l fs)) h in
      let (c, _) = and_then-fine (assert_portable l j) (assert_fields l fs) b in value_checked l c i
  fields_checked l h (InsideFields.in_later_field {l = key} {j} {fs} i) =
      let (_, b) =
        and_then-fine (key_allowed l key) (and_then (assert_portable l j) (assert_fields l fs)) h in
      let (_, c) = and_then-fine (assert_portable l j) (assert_fields l fs) b in
      fields_checked l c i
