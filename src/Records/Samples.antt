-- ===== src/Records/Samples.antt =====
-- A small database with one public collection, and what a run of src/records.rs on it goes through.
use rockbase.Prelude.{length, true, some, [], ◌∷◌, Text, bytes, ok}
use rockbase.Prelude.Int.{pos}
use rockbase.Json.{Json, Fields, get, insert, remove, as_object}
use rockbase.Env.Samples.{f64_sample}
use rockbase.Rules.{Rules, check_rule}
use rockbase.Filter.Runs.{runs}
use rockbase.Db.{
  Row, Db, Host, find_collection, get_collection, find_row, insert_row, update_rows, delete_rows,
}
use rockbase.Records.{record_json, change, hash_password, epoch_field}
use rockbase.Records.Validate.{validate}
use rockbase.Records.Gate.{fetch_record, gate_record, gate_body, check_relations}
use rockbase.Records.Create.{is_auth, store, create_core}
use rockbase.Records.Update.{patched, update_core}
use rockbase.Records.Delete.{delete_core}

abbrev pub title_entry : Json
title_entry = Json.obj (
    Fields.field (bytes "name") (Json.str (bytes "title"))
      (Fields.field (bytes "type") (Json.str (bytes "text")) Fields.end))

-- every stored record reads as a title and the two secrets
abbrev pub stored_sample : Fields
stored_sample = Fields.field (bytes "title") (Json.str (bytes "old")) (
    Fields.field (bytes "password_hash") (Json.str (bytes "h"))
      (Fields.field (bytes "token_epoch") (Json.int (pos 3)) Fields.end))

abbrev pub host_sample : Host
host_sample = record {
  f64 = f64_sample;
  serde = record {
    to_string = λ v. bytes "{}";
    from_str = λ s. some stored_sample;
    from_str_list = λ s. some (title_entry ∷ []);
  };
  bcrypt = record { hash = λ s. ok s; verify = λ s h. some true };
  sqlite = record {
    select_exists = λ sql binds rows. some true;
    select_rows = λ sql binds rows. some rows;
    count_rows = λ sql binds rows. some (length rows);
    failed = bytes "disk I/O error";
    conflict = bytes "UNIQUE";
    malformed = bytes "malformed JSON";
  };
}

abbrev open_rules : Rules
open_rules = record {
  list = some [];
  view = some [];
  create = some [];
  update = some [];
  delete = some [];
}

abbrev pub posts : Text
posts = bytes "posts"

abbrev old_row : Row
old_row = record {
  collection = posts;
  id = bytes "a";
  data_text = bytes "{}";
  created = bytes "t0";
  updated = bytes "t0";
}

abbrev pub db_sample : Db
db_sample = record {
  collections =
      record { name = posts; ty = bytes "base"; schema = bytes "[]"; rules = open_rules } ∷ [];
  records = old_row ∷ [];
  tokens = [];
  params = [];
}

abbrev pub body_sample : Json
body_sample = Json.obj (Fields.field (bytes "title") (Json.str (bytes "new")) Fields.end)

unfoldable pub writes : Unit {0}
unfolding runs find_collection get insert remove as_object check_rule get_collection find_row
    insert_row update_rows delete_rows record_json change hash_password epoch_field validate
    fetch_record gate_record gate_body check_relations is_auth store create_core patched update_core
    delete_core
writes = tt
