-- ===== src/Records/Tests.antt =====
-- Runs of the three cores of src/records.rs.
use rockbase.Prelude.{◌≡◌, refl, some, Text, bytes, ok, err}
use rockbase.Json.{Json}
use rockbase.Http.{Reply}
use rockbase.Auth.{guest}
use rockbase.Db.{Row, Db}
use rockbase.Records.{Effect}
use rockbase.Records.Samples.{host_sample, posts, db_sample, body_sample, writes}
use rockbase.Records.Gate.{fetch_record}
use rockbase.Records.Create.{create_core}
use rockbase.Records.Update.{update_core}
use rockbase.Records.Rows.{SameElsewhere, update_core-stores}

abbrev out_of : Reply (Effect × Db) → Effect × Db
out_of (ok out) = out
out_of (err e) = (record { body = Json.null; event = Json.null }, db_sample)

abbrev created : Effect × Db
created =
    out_of (create_core host_sample db_sample guest posts body_sample (bytes "b") (bytes "t1"))

abbrev updated : Effect × Db
updated =
    out_of (update_core host_sample db_sample guest posts (bytes "a") body_sample (bytes "t1"))

updates :
    update_core host_sample db_sample guest posts (bytes "a") body_sample (bytes "t1") ≡ ok updated
unfolding writes
updates = refl

update_core-stores_example :
    ((row : Row) × (text : Text) × (fetch_record db_sample posts (bytes "a") ≡ some row)
      × (fetch_record updated.1 posts (bytes "a")
          ≡ some (record row { data_text = text; updated = bytes "t1" })))
    × SameElsewhere posts (bytes "a") db_sample updated.1
update_core-stores_example =
    update_core-stores host_sample db_sample guest posts (bytes "a") body_sample (bytes "t1")
      updated updates
