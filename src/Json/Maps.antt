-- ===== src/Json/Maps.antt =====
-- `serde_json::Map`, a map in the order of its keys.
use rockbase.Prelude.{
  Bool, true, false, ◌≡◌, refl, Option, none, some, Text, text_lt, arith, same, same_iff,
  if◌then◌else◌, same_refl,
}
use rockbase.Json.Data.{Json, Fields, end, field}

unfoldable pub get : Text → Fields → Option Json
get k end = none
get k (field j v m) = if same j k then some v else get k m

unfoldable pub contains_key : Text → Fields → Bool
contains_key k end = false
contains_key k (field j v m) = if same j k then true else contains_key k m

unfoldable pub insert : Text → Json → Fields → Fields
unfolding text_lt
insert k v end = field k v end
insert k v (field j w m) =
    let later = field j w (insert k v m) in
    if same j k then field k v m else if text_lt k j then field k v (field j w m) else later

unfoldable pub remove : Text → Fields → Fields
remove k end = end
remove k (field j v m) = let rest = remove k m in if same j k then rest else field j v rest

pub get-insert :
    (k j : Text) (v : Json) (m : Fields)
    → get j (insert k v m) ≡ (if same k j then some v else get j m)
unfolding get insert
get-insert k j v end = refl
get-insert k j v (field i w m) =
    ground (arith, same_iff i k, same_iff i j, same_iff k j, get-insert k j v m)

pub get-remove :
    (k j : Text) (m : Fields) → get j (remove k m) ≡ (if same k j then none else get j m)
unfolding get remove
get-remove k j end = ground arith
get-remove k j (field i w m) =
    ground (arith, same_iff i k, same_iff i j, same_iff k j, get-remove k j m)

pub get-insert_self : (k : Text) (v : Json) (m : Fields) → get k (insert k v m) ≡ some v
get-insert_self k v m = cc (get-insert k k v m, same_refl k)

pub get-remove_self : (k : Text) (m : Fields) → get k (remove k m) ≡ none
get-remove_self k m = cc (get-remove k k m, same_refl k)
