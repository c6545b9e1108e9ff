-- ===== src/Records/PasswordTests.antt =====
-- A change of a password by the owner of an account, through src/records.rs.
use rockbase.Prelude.{◌≡◌, refl, true, none, some, [], ◌∷◌, bytes, ok, err}
use rockbase.Json.{Json, Fields, get, contains_key}
use rockbase.Http.{Reply}
use rockbase.Auth.{Who, user}
use rockbase.Rules.{own, compile_rule}
use rockbase.Db.{Row, Db, Col}
use rockbase.Records.{Effect, check_old_password}
use rockbase.Records.Samples.{host_sample, title_entry, posts, db_sample, writes}
use rockbase.Records.Gate.{fetch_record, gate_allows, enforce}
use rockbase.Records.Update.{check_auth, wants_revoke, update_core}
use rockbase.Records.Hashed.{Stripped, update_core-Stripped}
use rockbase.Records.Passwords.{stored_hash, Knows, update_core-Knows}

abbrev owner : Who
owner = user posts (bytes "a")

abbrev accounts : Col
accounts = record {
  ty = bytes "auth";
  schema = title_entry ∷ [];
  rules = record { list = none; view = none; create = none; update = some own; delete = none };
}

abbrev accounts_db : Db
accounts_db = record db_sample {
  collections =
      record { name = posts; ty = accounts.ty; schema = bytes "[]"; rules = accounts.rules } ∷ [];
}

abbrev both_passwords : Fields
both_passwords =
    Fields.field (bytes "oldPassword") (Json.str (bytes "old secret"))
      (Fields.field (bytes "password") (Json.str (bytes "new secret")) Fields.end)

abbrev out_of : Reply (Effect × Db) → Effect × Db
out_of (ok out) = out
out_of (err e) = (record { body = Json.null; event = Json.null }, accounts_db)

abbrev changed : Effect × Db
changed = out_of (
    update_core host_sample accounts_db owner posts (bytes "a") (Json.obj both_passwords)
      (bytes "t1"))

changes :
    update_core host_sample accounts_db owner posts
      (bytes "a")
      (Json.obj both_passwords)
      (bytes "t1")
    ≡ ok changed
unfolding writes own compile_rule enforce gate_allows wants_revoke contains_key check_auth
    check_old_password
changes = refl

changes_password : contains_key (bytes "password") both_passwords ≡ true
unfolding writes contains_key
changes_password = refl

update_core-Knows_example :
    (row : Row) × (fetch_record accounts_db posts (bytes "a") ≡ some row)
    × Knows host_sample.bcrypt
        (stored_hash host_sample.serde row.data_text)
        (get (bytes "oldPassword") both_passwords)
unfolding writes
update_core-Knows_example =
    update_core-Knows host_sample accounts_db owner posts (bytes "a") (Json.obj both_passwords)
      (bytes "t1") changed accounts both_passwords changes (λ z. cc (z)) refl refl refl
      changes_password

update_core-Stripped_example :
    (row : Row) × (m : Fields) × (fetch_record changed.1 posts (bytes "a") ≡ some row)
    × (row.data_text ≡ host_sample.serde.to_string (Json.obj m))
    × Stripped m
update_core-Stripped_example =
    update_core-Stripped host_sample accounts_db owner posts (bytes "a") (Json.obj both_passwords)
      (bytes "t1") changed changes
