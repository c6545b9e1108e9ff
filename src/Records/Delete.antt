-- ===== src/Records/Delete.antt =====
-- src/records.rs: `delete_core`.
use rockbase.Prelude.{Text, bytes, ok, ok_or, ◌>>=◌, ◌>>◌}
use rockbase.Json.{Json, Fields}
use rockbase.Http.{failure, Reply, not_found}
use rockbase.Auth.{Who}
use rockbase.Db.{Db, Host, get_collection, delete_rows}
use rockbase.Records.{record_json, Effect, change}
use rockbase.Records.Gate.{fetch_record, gate_record}

-- The event carries the whole record, the response is empty. An error leaves the database as it was.
unfoldable pub delete_core : Host → Db → Who → Text → Text → Reply (Effect × Db)
unfolding bytes get_collection
delete_core host db w name id = do
  col ← ok_or (get_collection host.serde db name) (failure not_found (bytes "no such collection"))
  row ← ok_or (fetch_record db name id) (failure not_found (bytes "record not found"))
  gate_record host db w col.rules.delete name id
  let rec = record_json host.serde name id row.data_text row.created row.updated
  ok (
    record { body = Json.obj Fields.end; event = change (bytes "delete") name rec },
    record db { records = delete_rows name id db.records },
  )
