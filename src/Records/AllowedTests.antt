-- ===== src/Records/AllowedTests.antt =====
-- Runs of src/records.rs on a collection whose rules ask for a new title.
use rockbase.Prelude.{◌≡◌, refl, none, some, [], ◌∷◌, Text, bytes, ok, err}
use rockbase.Json.{Json, Fields, as_object}
use rockbase.Http.{Reply}
use rockbase.Auth.{Who, user}
use rockbase.Rules.{compile_rule, eval_rule_mem}
use rockbase.Db.{Db, Col, get_collection}
use rockbase.Records.{Effect}
use rockbase.Records.Samples.{host_sample, posts, db_sample, body_sample, writes}
use rockbase.Records.Gate.{gate_allows, enforce}
use rockbase.Records.Create.{create_core}
use rockbase.Records.Update.{update_core}
use rockbase.Records.Delete.{delete_core}
use rockbase.Records.View.{record_view, record_view-IsAllowed}
use rockbase.Records.Allowed.{
  IsAllowed, HoldsOf, FindsRecord, create_core-IsAllowed, update_core-IsAllowed,
  delete_core-IsAllowed,
}

abbrev alice : Who
alice = user (bytes "users") (bytes "alice")

abbrev new_title : Text
new_title = bytes "title='new'"

abbrev ruled_db : Db
ruled_db = record db_sample {
  collections =
      record {
        name = posts;
        ty = bytes "base";
        schema = bytes "[]";
        rules = record {
          list = some [];
          view = some new_title;
          create = some new_title;
          update = some new_title;
          delete = some new_title;
        };
      }
      ∷ [];
}

abbrev out_of : Reply (Effect × Db) → Effect × Db
out_of (ok out) = out
out_of (err e) = (record { body = Json.null; event = Json.null }, ruled_db)

abbrev created : Effect × Db
created = out_of (create_core host_sample ruled_db alice posts body_sample (bytes "b") (bytes "t1"))

creates :
    create_core host_sample ruled_db alice posts body_sample (bytes "b") (bytes "t1") ≡ ok created
unfolding writes eval_rule_mem
creates = refl

create_core-IsAllowed_example :
    (col : Col) × (m : Fields) × (get_collection host_sample.serde ruled_db posts ≡ some col)
    × (as_object body_sample ≡ some m)
    × IsAllowed alice col.rules.create (HoldsOf host_sample alice m)
create_core-IsAllowed_example =
    create_core-IsAllowed host_sample ruled_db alice posts body_sample (bytes "b") (bytes "t1")
      created creates

abbrev updated : Effect × Db
updated = out_of (update_core host_sample ruled_db alice posts (bytes "a") body_sample (bytes "t1"))

updates :
    update_core host_sample ruled_db alice posts (bytes "a") body_sample (bytes "t1") ≡ ok updated
unfolding writes compile_rule enforce gate_allows
updates = refl

update_core-IsAllowed_example :
    (col : Col) × (get_collection host_sample.serde ruled_db posts ≡ some col)
    × IsAllowed alice col.rules.update (FindsRecord host_sample ruled_db posts (bytes "a") alice)
update_core-IsAllowed_example =
    update_core-IsAllowed host_sample ruled_db alice posts (bytes "a") body_sample (bytes "t1")
      updated updates

abbrev deleted : Effect × Db
deleted = out_of (delete_core host_sample ruled_db alice posts (bytes "a"))

deletes : delete_core host_sample ruled_db alice posts (bytes "a") ≡ ok deleted
unfolding writes compile_rule enforce gate_allows
deletes = refl

delete_core-IsAllowed_example :
    (col : Col) × (get_collection host_sample.serde ruled_db posts ≡ some col)
    × IsAllowed alice col.rules.delete (FindsRecord host_sample ruled_db posts (bytes "a") alice)
delete_core-IsAllowed_example =
    delete_core-IsAllowed host_sample ruled_db alice posts (bytes "a") deleted deletes

abbrev shown : Reply Json → Json
shown (ok v) = v
shown (err e) = Json.null

views :
    record_view host_sample ruled_db alice posts (bytes "a") none
    ≡ ok (shown (record_view host_sample ruled_db alice posts (bytes "a") none))
unfolding writes compile_rule enforce gate_allows record_view
views = refl

record_view-IsAllowed_example :
    (col : Col) × (get_collection host_sample.serde ruled_db posts ≡ some col)
    × IsAllowed alice col.rules.view (FindsRecord host_sample ruled_db posts (bytes "a") alice)
record_view-IsAllowed_example =
    record_view-IsAllowed host_sample ruled_db alice posts (bytes "a") none
      (shown (record_view host_sample ruled_db alice posts (bytes "a") none)) views
