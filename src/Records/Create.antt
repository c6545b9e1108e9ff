-- ===== src/Records/Create.antt =====
-- src/records.rs: `create_core`.
use rockbase.Prelude.{
  Bool, false, not, none, some, [], Text, bytes, same, contains, if◌then◌else◌, ok, err, ok_or,
  ensure, ◌>>=◌, ◌>>◌,
}
use rockbase.Json.{Json, Fields, get, insert, contains_key, as_object}
use rockbase.Http.{failure, Reply, bad_request, not_found, internal_server_error}
use rockbase.Auth.{Who}
use rockbase.Db.{Row, Db, Col, Host, get_collection, insert_row}
use rockbase.Records.{
  verified_field, str_or_empty, hash_password, record_json, Effect, change, or_bad_request,
}
use rockbase.Records.Validate.{validate}
use rockbase.Records.Gate.{gate_body, check_relations, email_taken}

unfoldable pub is_auth : Col → Bool
unfolding bytes same
is_auth col = same col.ty (bytes "auth")

-- The steps for an auth collection: the password policy before the uniqueness of the email.
unfoldable pub prepare_auth : Host → Db → Text → Fields → Reply Fields
unfolding bytes hash_password
prepare_auth host db name m = do
  let email = str_or_empty (get (bytes "email") m)
  ensure (contains email (bytes "@")) (failure bad_request (bytes "valid email required"))
  ensure (contains_key (bytes "password") m) (failure bad_request (bytes "password required"))
  hashed ← hash_password host.bcrypt m
  ensure (not (email_taken host.serde db name email []))
      (failure bad_request (bytes "email already in use"))
  ok (insert verified_field (Json.bool false) hashed)

-- the row of a new record
abbrev pub new_row : Host → Text → Text → Text → Fields → Row
new_row host name id ts m = record {
  collection = name;
  id = id;
  data_text = host.serde.to_string (Json.obj m);
  created = ts;
  updated = ts;
}

-- the statement that stores the row, the response and the event
unfoldable pub store : Host → Db → Text → Text → Text → Fields → Reply (Effect × Db)
unfolding bytes insert_row
store host db name id ts m =
    let rec = record_json host.serde name id (host.serde.to_string (Json.obj m)) ts ts in
    elim (insert_row (new_row host name id ts m) db.records) [
      | none ↦ err (failure internal_server_error host.sqlite.conflict)
      | some rows ↦ ok (
        record { body = rec; event = change (bytes "create") name rec },
        record db { records = rows },
      )
    ]

-- `id` and `ts` are what `new_id()` and `now(db)` give. An error leaves the database as it was: the
-- only write is the last statement.
unfoldable pub create_core : Host → Db → Who → Text → Json → Text → Text → Reply (Effect × Db)
unfolding bytes get_collection as_object is_auth prepare_auth store
create_core host db w name body id ts = do
  col ← ok_or (get_collection host.serde db name) (failure not_found (bytes "no such collection"))
  m ← ok_or (as_object body) (failure bad_request (bytes "body must be a JSON object"))
  gate_body host w col.rules.create m
  or_bad_request (validate col.schema m (is_auth col) false)
  or_bad_request (check_relations db col.schema m)
  prepared ← (if is_auth col then prepare_auth host db name m else ok m)
  store host db name id ts prepared
