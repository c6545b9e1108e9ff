-- ===== src/Records/Validate.antt =====
-- src/records.rs: `validate` and the schema lookups.
use rockbase.Prelude.{
  Bool, true, false, ◌&&◌, ◌||◌, not, Option, none, some, List, [], ◌∷◌, ◌++◌, Text, bytes, same,
  if◌then◌else◌, Result, ok, ensure, ◌>>◌,
}
use rockbase.Json.{Json, Fields, get, as_bool, is_null}
use rockbase.Records.{key, str_of, str_or_empty}

-- a schema entry has the name
unfoldable pub is_named : Text → Json → Bool
unfolding bytes key str_of
is_named k f = elim (str_of (key (bytes "name") f)) [ none ↦ false | some n ↦ same n k ]

unfoldable pub field_def : List Json → Text → Option Json
unfolding is_named
field_def [] k = none
field_def (f ∷ fs) k = if is_named k f then some f else field_def fs k

-- the pseudo-fields of an auth record, consumed by the write and never stored but for the email
unfoldable pub is_pseudo : Text → Bool
unfolding bytes
is_pseudo k =
    same k (bytes "email")
    || same k (bytes "password")
    || same k (bytes "oldPassword")
    || same k (bytes "revokeTokens")

unfoldable pub is_str : Json → Bool
is_str (Json.str s) = true
is_str _ = false

unfoldable pub is_number : Json → Bool
is_number (Json.int n) = true
is_number (Json.float f) = true
is_number _ = false

unfoldable pub is_boolean : Json → Bool
is_boolean (Json.bool b) = true
is_boolean _ = false

-- a value of the type that a schema names
unfoldable pub has_type : Text → Json → Bool
unfolding bytes is_str is_number is_boolean
has_type ty v =
    is_null v
    || (if same ty (bytes "text")
        then is_str v
        else if same ty (bytes "number")
        then is_number v
        else if same ty (bytes "bool")
        then is_boolean v
        else if same ty (bytes "relation")
        then is_str v
        else if same ty (bytes "file")
        then is_str v
        else true)

unfoldable pub type_of : Json → Text
unfolding bytes
type_of def = elim (str_of (key (bytes "type") def)) [ none ↦ bytes "json" | some t ↦ t ]

-- a present key with no entry in the schema is a pseudo-field of an auth record
abbrev pub is_defined : Option Json → Bool
is_defined none = false
is_defined (some _) = true

unfoldable pub check_value : Option Json → Text → Json → Result Text (Unit {0})
unfolding bytes has_type type_of
check_value none k v = ok tt
check_value (some def) k v =
    ensure (has_type (type_of def) v)
      (bytes "field '" ++ (k ++ (bytes "' must be " ++ type_of def)))

-- the loop over the data
unfoldable pub check_known : List Json → Bool → Fields → Result Text (Unit {0})
unfolding bytes field_def is_pseudo check_value
check_known schema is_auth Fields.end = ok tt
check_known schema is_auth (Fields.field k v m) = do
  ensure (is_defined (field_def schema k) || (is_auth && is_pseudo k))
      (bytes "unknown field '" ++ (k ++ bytes "'"))
  check_value (field_def schema k) k v
  check_known schema is_auth m

unfoldable pub is_required : Json → Bool
unfolding bytes key
is_required f = elim (key (bytes "required") f) [
  | none ↦ false
  | some r ↦ elim (as_bool r) [ none ↦ false | some b ↦ b ]
]

-- an explicit null is refused even on PATCH, an absent field only on create
unfoldable pub is_supplied : Bool → Option Json → Bool
unfolding is_null
is_supplied partial none = partial
is_supplied partial (some v) = not (is_null v)

-- the loop over the schema
unfoldable pub check_required : List Json → Bool → Fields → Result Text (Unit {0})
unfolding bytes is_required is_supplied
check_required [] partial m = ok tt
check_required (f ∷ fs) partial m = do
  let name = str_or_empty (key (bytes "name") f)
  ensure (not (is_required f) || is_supplied partial (get name m))
      (bytes "field '" ++ (name ++ bytes "' is required"))
  check_required fs partial m

unfoldable pub validate : List Json → Fields → Bool → Bool → Result Text (Unit {0})
unfolding check_known check_required
validate schema m is_auth partial = do check_known schema is_auth m; check_required schema partial m
