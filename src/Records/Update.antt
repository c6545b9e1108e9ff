-- ===== src/Records/Update.antt =====
-- src/records.rs: `update_core`.
use rockbase.Prelude.{
  Bool, true, false, not, ◌&&◌, ◌||◌, Option, none, some, Text, bytes, contains, if◌then◌else◌, ok,
  ok_or, ensure, ◌>>=◌, ◌>>◌,
}
use rockbase.Prelude.Int.{ℤ, pos, int_succ}
use rockbase.Json.{Json, Fields, get, insert, remove, contains_key, as_object, as_bool, as_i64}
use rockbase.Http.{failure, Reply, bad_request, not_found}
use rockbase.Auth.{Who, admin}
use rockbase.Db.{Db, Host, get_collection, update_rows, map_or_empty}
use rockbase.Records.{
  epoch_field, str_of, hash_password, check_old_password, record_json, Effect, change,
  or_bad_request,
}
use rockbase.Records.Validate.{validate}
use rockbase.Records.Gate.{fetch_record, gate_record, check_relations, email_taken}
use rockbase.Records.Create.{is_auth}

abbrev pub is_admin : Who → Bool
is_admin admin = true
is_admin _ = false

-- an email in the patch is well-formed and free
unfoldable pub check_email : Host → Db → Text → Text → Option Text → Reply (Unit {0})
unfolding bytes contains
check_email host db name id none = ok tt
check_email host db name id (some email) = do
  ensure (contains email (bytes "@")) (failure bad_request (bytes "valid email required"))
  ensure (not (email_taken host.serde db name email id))
      (failure bad_request (bytes "email already in use"))

-- The checks of an auth collection. Only an admin changes a password without the old one.
unfoldable pub check_auth : Host → Db → Who → Text → Text → Text → Fields → Reply (Unit {0})
unfolding bytes check_email
check_auth host db w name id data_text patch = do
  check_email host db name id (str_of (get (bytes "email") patch))
  (if contains_key (bytes "password") patch && not (is_admin w)
      then check_old_password host.serde host.bcrypt data_text (get (bytes "oldPassword") patch)
      else ok tt)

-- the shallow merge of a patch
unfoldable pub merge : Fields → Fields → Fields
merge Fields.end m = m
merge (Fields.field k v patch) m = merge patch (insert k v m)

-- `revokeTokens: true`
unfoldable pub wants_revoke : Fields → Bool
unfolding bytes
wants_revoke patch = elim (get (bytes "revokeTokens") patch) [
  | none ↦ false
  | some v ↦ elim (as_bool v) [ none ↦ false | some b ↦ b ]
]

abbrev pub int_or_zero : Option Json → ℤ
int_or_zero none = pos 0
int_or_zero (some v) = elim (as_i64 v) [ none ↦ pos 0 | some n ↦ n ]

unfoldable pub bump_epoch : Fields → Fields
bump_epoch m = insert epoch_field (Json.int (int_succ (int_or_zero (get epoch_field m)))) m

-- the data that a patch leaves, before its password is hashed
unfoldable pub merged : Host → Text → Fields → Fields
unfolding bytes merge
merged host data_text patch =
    remove (bytes "revokeTokens")
      (remove (bytes "oldPassword") (merge patch (map_or_empty (host.serde.from_str data_text))))

-- the data that a patch leaves
unfoldable pub patched : Host → Text → Fields → Reply Fields
unfolding bytes merged wants_revoke bump_epoch hash_password
patched host data_text patch = do
  m ← hash_password host.bcrypt (merged host data_text patch)
  ok (if wants_revoke patch || contains_key (bytes "password") patch then bump_epoch m else m)

-- `ts` is what `now(db)` gives. An error leaves the database as it was.
unfoldable pub update_core : Host → Db → Who → Text → Text → Json → Text → Reply (Effect × Db)
unfolding bytes get_collection as_object is_auth check_auth patched
update_core host db w name id body ts = do
  col ← ok_or (get_collection host.serde db name) (failure not_found (bytes "no such collection"))
  row ← ok_or (fetch_record db name id) (failure not_found (bytes "record not found"))
  gate_record host db w col.rules.update name id
  patch ← ok_or (as_object body) (failure bad_request (bytes "body must be a JSON object"))
  or_bad_request (validate col.schema patch (is_auth col) true)
  or_bad_request (check_relations db col.schema patch)
  (if is_auth col then check_auth host db w name id row.data_text patch else ok tt)
  m ← patched host row.data_text patch
  let stored = host.serde.to_string (Json.obj m)
  let rec = record_json host.serde name id stored row.created ts
  ok (
    record { body = rec; event = change (bytes "update") name rec },
    record db { records = update_rows name id stored ts db.records },
  )
