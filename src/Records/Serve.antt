-- ===== src/Records/Serve.antt =====
-- src/records.rs: `record_create`, `record_update` and `record_delete`, round the three cores: the
-- files of a record and the events. The identity of the caller and the body are read before.
pub mod Owners
pub mod Drops
pub mod History
mod Tests
use rockbase.Prelude.{
  ℕ, Option, none, some, List, [], ◌∷◌, ◌++◌, Text, bytes, ok, err, ok_or, ◌>>=◌, ◌>>◌,
}
use rockbase.Json.{Json}
use rockbase.Http.{Failure, failure, Reply, not_found}
use rockbase.Auth.{Who}
use rockbase.Db.{Db, Host, get_collection}
use rockbase.Records.{key, str_or_empty, Effect}
use rockbase.Records.Create.{create_core}
use rockbase.Records.Update.{update_core}
use rockbase.Records.Delete.{delete_core}
use rockbase.Files.{FilePart, check_file_fields}
use rockbase.Collections.Handlers.{Catalog, collections_delete}
use rockbase.Files.Storage.{Disk, Faults, write_files, remove_record_files, remove_collection_files}
use rockbase.Files.Upload.{Upload}

-- the tables, the version of the collections, the files, and the events that were broadcast so far
pub record State : Type 0 where
  pub db : Db
  pub version : ℕ
  pub disk : Disk
  pub sent : List Json

unfoldable pub check_files : Host → Db → Text → List FilePart → Reply (Unit {0})
unfolding bytes get_collection check_file_fields
check_files host db name [] = ok tt
check_files host db name (f ∷ files) = do
  col ← ok_or (get_collection host.serde db name) (failure not_found (bytes "no such collection"))
  check_file_fields col.schema (f ∷ files)

-- the end of a write whose row is stored: a file that cannot be written is an error, and no event
abbrev pub published : Effect → Db → State → Reply (Unit {0}) × Disk → Reply Json × State
published effect db s (err e, disk) = (err e, record s { db = db; disk = disk })
published effect db s (ok _, disk) =
    (ok effect.body, record s { db = db; disk = disk; sent = s.sent ++ effect.event ∷ [] })

-- after the core of a create
abbrev pub created :
    Faults → Text → List FilePart → State → Reply (Effect × Db) → Reply Json × State
created faults name files s (err e) = (err e, s)
created faults name files s (ok (effect, db)) =
    published effect db s
      (write_files faults name (str_or_empty (key (bytes "id") effect.body)) files s.disk)

-- after the core of an update
abbrev pub updated :
    Faults → Text → Text → List FilePart → State → Reply (Effect × Db) → Reply Json × State
updated faults name id files s (err e) = (err e, s)
updated faults name id files s (ok (effect, db)) =
    published effect db s (write_files faults name id files s.disk)

-- after the core of a delete
abbrev pub deleted : Faults → Text → Text → State → Reply (Effect × Db) → Reply Json × State
deleted faults name id s (err e) = (err e, s)
deleted faults name id s (ok (effect, db)) =
    published effect db s (ok tt, remove_record_files faults name id s.disk)

-- the checks of the files, then the core
abbrev pub checked : Host → Db → Text → List FilePart → Reply (Effect × Db) → Reply (Effect × Db)
checked host db name files core = do check_files host db name files; core

unfoldable pub record_create :
    Faults → Host → Who → Text → Reply Upload → Text → Text → State → Reply Json × State
unfolding bytes check_files
record_create faults host w name (err e) id ts s = (err e, s)
record_create faults host w name (ok up) id ts s =
    created faults name up.files s
      (checked host s.db name up.files (create_core host s.db w name up.fields id ts))

unfoldable pub record_update :
    Faults → Host → Who → Text → Text → Reply Upload → Text → State → Reply Json × State
unfolding bytes check_files
record_update faults host w name id (err e) ts s = (err e, s)
record_update faults host w name id (ok up) ts s =
    updated faults name id up.files s
      (checked host s.db name up.files (update_core host s.db w name id up.fields ts))

unfoldable pub record_delete : Faults → Host → Who → Text → Text → State → Reply Json × State
unfolding bytes
record_delete faults host w name id s = deleted faults name id s (delete_core host s.db w name id)

-- the files of the collections that a request dropped
abbrev pub clear : Faults → List Text → Disk → Disk
clear faults [] disk = disk
clear faults (name ∷ names) disk = clear faults names (remove_collection_files faults name disk)

abbrev pub dropped : Faults → State → Reply Json × Catalog → Reply Json × State
dropped faults s (reply, c) =
    (reply, record s { db = c.db; version = c.version; disk = clear faults c.dropped s.disk })

-- `collections_delete` of src/collections.rs, with the files of the collection
unfoldable pub collection_delete : Faults → Who → Text → State → Reply Json × State
unfolding collections_delete
collection_delete faults w name s =
    dropped faults s
      (collections_delete w name (record { db = s.db; version = s.version; dropped = [] }))
