-- ===== src/Records/Serve/Tests.antt =====
-- Runs of the handlers of src/records.rs with a file, and of the drop of its collection.
use rockbase.Prelude.{◌≡◌, refl, false, none, some, [], ◌∷◌, bytes, ok}
use rockbase.Ident.{ident_ok, is_digit, is_ascii_alphanumeric, is_word}
use rockbase.Json.{Json, Fields}
use rockbase.Auth.{guest, admin}
use rockbase.Db.{Host}
use rockbase.Records.Samples.{host_sample, posts, db_sample, writes}
use rockbase.Files.{record_dir, collection_dir, check_file_fields}
use rockbase.Files.Storage.{
  Faults, same_path, is_below, put_file, write_all, write_files, remove_dir_all,
  remove_collection_files,
}
use rockbase.Files.Upload.{Upload}
use rockbase.Collections.Handlers.{bump, collections_delete}
use rockbase.Records.Serve.{State, check_files, record_create, collection_delete}
use rockbase.Records.Serve.Owners.{HasOwners}
use rockbase.Records.Serve.History.{Request, creates, drops, serve, serve_all, serve_all-HasOwners}

unfoldable handlers : Unit {0}
unfolding writes bytes is_ascii_alphanumeric is_digit ident_ok is_word record_dir collection_dir
    check_file_fields same_path is_below put_file write_all write_files remove_dir_all
    remove_collection_files bump collections_delete check_files record_create collection_delete
    serve serve_all
handlers = tt

abbrev no_faults : Faults
no_faults = record { create_dir = λ p. none; write = λ p. none; keeps = λ p. false }

abbrev cover_entry : Json
cover_entry = Json.obj (
    Fields.field (bytes "name") (Json.str (bytes "cover"))
      (Fields.field (bytes "type") (Json.str (bytes "file")) Fields.end))

-- every collection has one field, a file
abbrev host_files : Host
host_files = record host_sample {
  serde = record (host_sample.serde) { from_str_list = λ s. some (cover_entry ∷ []) };
}

abbrev with_cover : Upload
with_cover = record {
  fields = Json.obj (Fields.field (bytes "cover") (Json.str (bytes "a.png")) Fields.end);
  files = (bytes "cover", bytes "a.png", 1 ∷ 2 ∷ []) ∷ [];
}

abbrev at_start : State
at_start = record { db = db_sample; version = 0; disk = []; sent = [] }

abbrev create_b : Request
create_b = creates guest posts (ok with_cover) (bytes "b") (bytes "t1")

written :
    (serve_all no_faults host_files (create_b ∷ []) at_start).disk
    ≡ (bytes "storage" ∷ posts ∷ bytes "b" ∷ bytes "a.png" ∷ [], 1 ∷ 2 ∷ []) ∷ []
unfolding handlers
written = refl

dropped : (serve_all no_faults host_files (create_b ∷ drops admin posts ∷ []) at_start).disk ≡ []
unfolding handlers
dropped = refl

serve_all-HasOwners_example :
    HasOwners
      (serve_all no_faults host_files (create_b ∷ drops guest posts ∷ []) at_start).db
      (serve_all no_faults host_files (create_b ∷ drops guest posts ∷ []) at_start).disk
serve_all-HasOwners_example =
    serve_all-HasOwners no_faults host_files (λ p. refl) (create_b ∷ drops guest posts ∷ [])
      at_start tt
