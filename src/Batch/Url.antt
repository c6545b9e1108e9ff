-- ===== src/Batch/Url.antt =====
-- `parse_url` of src/batch.rs.
use rockbase.Prelude.{
  Bool, true, false, ◌||◌, Option, none, some, List, [], ◌∷◌, Text, bytes, same, contains,
  starts_with, split_on, length, if◌then◌else◌,
}
use rockbase.Filter.Scan.{drop}

abbrev is_blank : Text → Bool
is_blank [] = true
is_blank (_ ∷ _) = false

-- The parts behind the prefix: a collection, `records`, and perhaps an id.
unfoldable pub record_path : List Text → Option (Text × Option Text)
unfolding bytes
record_path (col ∷ recs ∷ []) =
    if is_blank col then none else if same recs (bytes "records") then some (col, none) else none
record_path (col ∷ recs ∷ id ∷ []) =
    if is_blank col || is_blank id
    then none
    else if same recs (bytes "records")
    then some (col, some id)
    else none
record_path _ = none

unfoldable pub collections_prefix : Text
unfolding bytes
collections_prefix = bytes "/api/collections/"

unfoldable pub parse_url : Text → Option (Text × Option Text)
unfolding bytes contains starts_with split_on drop record_path collections_prefix
parse_url url =
    if contains url (bytes "?") || contains url (bytes "#")
    then none
    else if starts_with url collections_prefix
    then record_path (split_on b'/' (drop (length collections_prefix) url))
    else none
