-- ===== src/Records.antt =====
-- src/records.rs: the record API below its HTTP handlers. Validation, the rule gate and the three
-- cores are in child modules; this file has the pieces that they share.
pub mod Validate
pub mod Gate
pub mod Create
pub mod Update
pub mod Delete
pub mod Steps
pub mod Rows
pub mod Secrets
pub mod Samples
pub mod Expand
pub mod Listing
pub mod Page
pub mod Narrow
pub mod Allowed
pub mod Passwords
pub mod Hashed
pub mod View
pub mod Emails
pub mod Serve
mod Tests
mod AllowedTests
mod PasswordTests
mod PageTests
use rockbase.Prelude.{
  ℕ, ◌+◌, ◌≡◌, Bool, true, false, ◌&&◌, ◌||◌, not, Option, none, some, List, [], ◌∷◌, ◌++◌, Text,
  bytes, any, length, ltb, same, if◌then◌else◌, Result, ok, err, ok_or, ◌>>=◌,
}
use rockbase.Prelude.Int.{ℤ, pos}
use rockbase.Json.{Json, Fields, get, insert, remove, as_str, as_i64}
use rockbase.Env.{Serde, Bcrypt}
use rockbase.Http.{Failure, failure, Reply, bad_request, internal_server_error}
use rockbase.Db.{map_or_empty}

unfoldable pub epoch_field : Text
unfolding bytes
epoch_field = bytes "token_epoch"

unfoldable pub verified_field : Text
unfolding bytes
verified_field = bytes "verified"

unfoldable pub reserved_fields : List Text
unfolding bytes epoch_field verified_field
reserved_fields =
    bytes "id"
    ∷ bytes "created"
    ∷ bytes "updated"
    ∷ bytes "collectionName"
    ∷ bytes "password_hash"
    ∷ epoch_field
    ∷ verified_field
    ∷ []

-- `v.get(key)` on a value: only an object has keys
unfoldable pub key : Text → Json → Option Json
unfolding get
key k (Json.obj m) = get k m
key k _ = none

-- `.and_then(|v| v.as_str())`
unfoldable pub str_of : Option Json → Option Text
unfolding as_str
str_of none = none
str_of (some v) = as_str v

unfoldable pub str_or_empty : Option Json → Text
unfolding str_of
str_or_empty o = elim (str_of o) [ none ↦ [] | some s ↦ s ]

abbrev pub epoch_of : Option Json → Option ℤ
epoch_of none = some (pos 0)
epoch_of (some v) = as_i64 v

-- `token_epoch`: `none` for an unreadable row, and for an epoch that is no `i64`
unfoldable pub token_epoch : Serde → Text → Option ℤ
token_epoch serde data_text = elim (serde.from_str data_text) [
  | none ↦ none
  | some m ↦ epoch_of (get epoch_field m)
]

unfoldable pub record_json : Serde → Text → Text → Text → Text → Text → Json
unfolding bytes
record_json serde collection id data_text created updated =
    let stored = map_or_empty (serde.from_str data_text) in
    let scrubbed = remove epoch_field (remove (bytes "password_hash") stored) in
    Json.obj (
      insert (bytes "updated") (Json.str updated) (
        insert (bytes "created") (Json.str created) (
          insert (bytes "collectionName") (Json.str collection)
            (insert (bytes "id") (Json.str id) scrubbed))))

unfoldable pub hashed : Bcrypt → Fields → Text → Reply Fields
unfolding bytes
hashed bcrypt rest pw =
    if ltb (length pw) 8
    then err (failure bad_request (bytes "password must be at least 8 chars"))
    else elim (bcrypt.hash pw) [
      | err e ↦ err (failure internal_server_error e)
      | ok h ↦ ok (insert (bytes "password_hash") (Json.str h) rest)
    ]

-- `hash_password`: a plain password never stays in the data
unfoldable pub hash_password : Bcrypt → Fields → Reply Fields
unfolding bytes hashed
hash_password bcrypt m = elim (get (bytes "password") m) [
  | none ↦ ok m
  | some pw ↦ hashed bcrypt (remove (bytes "password") m) (str_or_empty (some pw))
]

abbrev pub accepted : Option Bool → Bool
accepted none = false
accepted (some b) = b

abbrev pub is_blank : Text → Bool
is_blank [] = true
is_blank (_ ∷ _) = false

unfoldable pub check_old_password : Serde → Bcrypt → Text → Option Json → Reply (Unit {0})
unfolding bytes
check_old_password serde bcrypt data_text supplied =
    let stored = map_or_empty (serde.from_str data_text) in
    let hash = str_or_empty (get (bytes "password_hash") stored) in
    let old = str_or_empty supplied in
    if not (is_blank old) && accepted (bcrypt.verify old hash)
    then ok tt
    else err (failure bad_request (bytes "oldPassword does not match"))

-- `.map_err(|m| err(BAD_REQUEST, m))`
abbrev pub or_bad_request : {A : Type 0} → Result Text A → Reply A
or_bad_request (ok a) = ok a
or_bad_request (err m) = err (failure bad_request m)

-- The response body of one write, and the event to publish.
pub record Effect : Type 0 where
  pub body : Json
  pub event : Json

unfoldable pub change : Text → Text → Json → Json
unfolding bytes insert
change action topic rec = Json.obj (
    insert (bytes "action") (Json.str action)
      (insert (bytes "topic") (Json.str topic) (insert (bytes "record") rec Fields.end)))
