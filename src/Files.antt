-- ===== src/Files.antt =====
-- src/files.rs: the names of uploaded files, and the checks that need no file system.
pub mod Names
pub mod Storage
pub mod Upload
pub mod Viewers
mod Tests
mod UploadTests
use rockbase.Prelude.{
  ℕ, Bool, true, false, ◌&&◌, ◌||◌, not, ◌==◌, leb, Option, none, some, List, [], ◌∷◌, ◌++◌, Text,
  bytes, same, contains, all, any, take, split_on, length, if◌then◌else◌, Result, ok, err, ensure,
  ok_or, ◌>>=◌, ◌>>◌,
}
use rockbase.Ident.{ident_ok, is_ascii_alphanumeric}
use rockbase.Json.{Json}
use rockbase.Http.{Failure, failure, Reply, bad_request, not_found}
use rockbase.Filter.Eval.{to_lower}
use rockbase.Auth.{Who}
use rockbase.Db.{Db, Row, Col, Host, get_collection}
use rockbase.Records.{key, str_of}
use rockbase.Records.Gate.{fetch_record, gate_record}

-- `' '..='~'`
unfoldable pub is_printable : ℕ → Bool
is_printable c = leb b' ' c && leb c b'~'

unfoldable pub is_kept : ℕ → Bool
unfolding is_ascii_alphanumeric
is_kept c = is_ascii_alphanumeric c || (c == b'.' || c == b'_' || c == b'-')

unfoldable pub keep : Text → Text
unfolding is_kept
keep [] = []
keep (c ∷ s) = if is_kept c then c ∷ keep s else keep s

abbrev pub is_blank : Text → Bool
is_blank [] = true
is_blank (_ ∷ _) = false

unfoldable pub checked_name : Text → Option Text
unfolding bytes contains
checked_name s =
    if is_blank s || contains s (bytes "..") || all (λ c. c == b'.') s then none else some s

-- `sanitize_filename`; a character beyond ASCII has a byte that is not printable
unfoldable pub sanitize_filename : Text → Option Text
unfolding is_printable keep checked_name
sanitize_filename raw =
    if not (all is_printable raw) then none else checked_name (take 100 (keep raw))

abbrev last : Text → List Text → Text
last s [] = s
last s (t ∷ ts) = last t ts

-- `.rsplit('.').next()`
unfoldable pub extension : Text → Text
unfolding split_on to_lower
extension name = to_lower (last [] (split_on b'.' name))

unfoldable pub content_type : Text → Text
unfolding bytes extension same
content_type name =
    let e = extension name in
    if same e (bytes "jpg") || same e (bytes "jpeg")
    then bytes "image/jpeg"
    else if same e (bytes "png")
    then bytes "image/png"
    else if same e (bytes "gif")
    then bytes "image/gif"
    else if same e (bytes "webp")
    then bytes "image/webp"
    else if same e (bytes "pdf")
    then bytes "application/pdf"
    else if same e (bytes "txt")
    then bytes "text/plain"
    else if same e (bytes "json")
    then bytes "application/json"
    else bytes "application/octet-stream"

-- a path as its components below the data directory
unfoldable pub collection_dir : Text → Option (List Text)
unfolding bytes ident_ok
collection_dir col = if ident_ok col then some (bytes "storage" ∷ col ∷ []) else none

abbrev joined : Text → Option (List Text) → Option (List Text)
joined id none = none
joined id (some d) = some (d ++ id ∷ [])

unfoldable pub record_dir : Text → Text → Option (List Text)
unfolding ident_ok collection_dir
record_dir col id = if ident_ok id then joined id (collection_dir col) else none

-- a file part: the field, the name and the bytes
abbrev pub FilePart : Type 0
FilePart = Text × Text × Text

abbrev has_str : Text → Option Text → Bool
has_str s none = false
has_str s (some t) = same t s

unfoldable pub is_file_field : Text → Json → Bool
unfolding bytes key str_of same
is_file_field name f =
    has_str name (str_of (key (bytes "name") f))
    && has_str (bytes "file") (str_of (key (bytes "type") f))

unfoldable pub check_file_fields : List Json → List FilePart → Reply (Unit {0})
unfolding bytes is_file_field
check_file_fields schema [] = ok tt
check_file_fields schema ((name, _, _) ∷ files) = do
  ensure (any (λ f. is_file_field name f) schema)
      (failure bad_request (bytes "field '" ++ (name ++ bytes "' is not a file field")))
  check_file_fields schema files

abbrev is_unchanged : Text → Option Text → Bool
is_unchanged name none = false
is_unchanged name (some s) = same s name

abbrev found : Option Row → Bool
found none = false
found (some _) = true

-- `file_serve`: the path that is read and its content type; `read` is the file system
unfoldable pub file_serve :
    (List Text → Option Text) → Host → Db → Who → Text → Text → Text → Reply (Text × Text)
unfolding bytes sanitize_filename record_dir get_collection fetch_record gate_record content_type
file_serve read host db w col id filename = do
  ensure (is_unchanged filename (sanitize_filename filename))
      (failure bad_request (bytes "invalid filename"))
  dir ← ok_or (record_dir col id) (failure bad_request (bytes "invalid collection or record id"))
  c ← ok_or (get_collection host.serde db col) (failure not_found (bytes "no such collection"))
  ensure (found (fetch_record db col id)) (failure not_found (bytes "record not found"))
  gate_record host db w c.rules.view col id
  content ← ok_or (read (dir ++ filename ∷ [])) (failure not_found (bytes "file not found"))
  ok (content_type filename, content)
