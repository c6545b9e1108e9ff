-- ===== src/Files/UploadTests.antt =====
-- Runs of the uploads and downloads of src/files.rs.
use rockbase.Prelude.{
  ◌≡◌, refl, true, false, none, some, List, [], ◌∷◌, ◌++◌, Text, bytes, All, Result, ok, err,
}
use rockbase.Ident.{ident_ok, is_digit, is_ascii_alphanumeric, is_word}
use rockbase.Json.{Json, Fields, insert}
use rockbase.Auth.{guest}
use rockbase.Records.Samples.{host_sample, posts, db_sample, writes}
use rockbase.Files.{FilePart, sanitize_filename, record_dir, content_type, file_serve}
use rockbase.Files.Storage.{Disk, Faults, same_path, read_file, put_file, write_all, write_files}
use rockbase.Files.Storage.Laws.{last_part, write_files-file_serve}
use rockbase.Files.Viewers.{file_serve-record_view}
use rockbase.Records.View.{record_view}
use rockbase.Files.Upload.{
  Part, Incoming, Upload, is_utf8, has_control, is_reserved, is_multipart, read_body,
}
use rockbase.Files.Upload.Clean.{IsClean, NoReserved, read_body-IsClean}

unfoldable uploads : Unit {0}
unfolding writes bytes sanitize_filename is_ascii_alphanumeric is_digit ident_ok is_word record_dir
    content_type write_files write_all put_file same_path last_part is_utf8 has_control is_reserved
    read_body insert
uploads = tt

texts :
    (is_utf8 (0xe2 ∷ 0x82 ∷ 0xac ∷ []) ≡ true)
    × (is_utf8 (0xed ∷ 0xa0 ∷ 0x80 ∷ []) ≡ false)
    × (is_utf8 (0xc0 ∷ 0x80 ∷ []) ≡ false)
    × (has_control (0xc2 ∷ 0x85 ∷ []) ≡ true)
    × (has_control (0xc3 ∷ 0x85 ∷ []) ≡ false)
unfolding uploads
texts = (refl, refl, refl, refl, refl)

abbrev no_faults : Faults
no_faults = record { create_dir = λ p. none; write = λ p. none; keeps = λ p. false }

abbrev two_files : List FilePart
two_files =
    (bytes "cover", bytes "a.png", 1 ∷ 2 ∷ []) ∷ (bytes "notes", bytes "b.txt", bytes "hi") ∷ []

abbrev stored : Disk
stored =
    (bytes "storage" ∷ posts ∷ bytes "a" ∷ bytes "a.png" ∷ [], 1 ∷ 2 ∷ [])
    ∷ (bytes "storage" ∷ posts ∷ bytes "a" ∷ bytes "b.txt" ∷ [], bytes "hi")
    ∷ []

stores : write_files no_faults posts (bytes "a") two_files [] ≡ (ok tt, stored)
unfolding uploads
stores = refl

write_files-file_serve_example :
    file_serve (read_file stored) host_sample db_sample guest posts (bytes "a") (bytes "a.png")
    ≡ ok (content_type (bytes "a.png"), 1 ∷ 2 ∷ [])
unfolding uploads
write_files-file_serve_example =
    write_files-file_serve no_faults host_sample db_sample guest posts (bytes "a") two_files []
      stored (bytes "a.png") (1 ∷ 2 ∷ []) _ _ stores refl refl refl refl refl

serves :
    file_serve (read_file stored) host_sample db_sample guest posts (bytes "a") (bytes "a.png")
    ≡ ok (bytes "image/png", 1 ∷ 2 ∷ [])
unfolding uploads file_serve read_file
serves = refl

file_serve-record_view_example :
    ((rec : Json) × (record_view host_sample db_sample guest posts (bytes "a") none ≡ ok rec))
    × (sanitize_filename (bytes "a.png") ≡ some (bytes "a.png"))
    × ((dir : List Text) × (record_dir posts (bytes "a") ≡ some dir)
        × (read_file stored (dir ++ bytes "a.png" ∷ []) ≡ some (1 ∷ 2 ∷ [])))
    × (bytes "image/png" ≡ content_type (bytes "a.png"))
file_serve-record_view_example =
    file_serve-record_view (read_file stored) host_sample db_sample guest posts (bytes "a")
      (bytes "a.png") (bytes "image/png", 1 ∷ 2 ∷ []) serves

-- two fields whose files are cleaned to one name: both name the bytes of the second
abbrev twins : List FilePart
twins = (bytes "front", bytes "x.png", 1 ∷ []) ∷ (bytes "back", bytes "x.png", 2 ∷ []) ∷ []

twins_collide : last_part (bytes "x.png") twins ≡ some (2 ∷ [])
unfolding uploads
twins_collide = refl

abbrev cover_part : Part
cover_part = record {
  name = some (bytes "cover");
  file_name = some (bytes "my cover.png");
  content = ok (1 ∷ []);
}

abbrev sent_form : Incoming
sent_form = record {
  content_type = some (bytes "multipart/form-data; boundary=x");
  whole = none;
  parts = ok (ok cover_part ∷ []);
}

abbrev no_json : Text → Result Text Json
no_json s = err (bytes "expected value")

abbrev read_form : Upload
read_form = record {
  fields = Json.obj (Fields.field (bytes "cover") (Json.str (bytes "mycover.png")) Fields.end);
  files = (bytes "cover", bytes "mycover.png", 1 ∷ []) ∷ [];
}

reads_form : read_body no_json sent_form ≡ ok read_form
unfolding uploads
reads_form = refl

read_body-IsClean_example :
    All IsClean read_form.files
    × ((is_multipart sent_form.content_type ≡ true)
        → (m : Fields) × (read_form.fields ≡ Json.obj m) × NoReserved m)
read_body-IsClean_example = read_body-IsClean no_json sent_form read_form reads_form
