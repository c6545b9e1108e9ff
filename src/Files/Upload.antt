-- ===== src/Files/Upload.antt =====
-- src/files.rs: `read_body` and `read_multipart`. The body limit, the parser of multipart bodies and
-- that of JSON are other code, so what they give for a request is part of the request.
pub mod Clean
use rockbase.Prelude.{
  ℕ, zero, suc, Bool, true, false, ◌&&◌, ◌||◌, ◌==◌, leb, ltb, not, Option, none, some, List, [],
  ◌∷◌, ◌++◌, Text, String, bytes, same, any, starts_with, if◌then◌else◌, Result, ok, err, ensure,
  ok_or, ◌>>=◌, ◌>>◌,
}
use rockbase.Ident.{ident_ok}
use rockbase.Json.{Json, Fields, insert}
use rockbase.Http.{Failure, failure, Reply, bad_request}
use rockbase.Records.{reserved_fields}
use rockbase.Files.{FilePart, sanitize_filename}

-- A part of a multipart body; its bytes may break off.
pub record Part : Type 0 where
  pub name : Option Text
  pub file_name : Option Text
  pub content : Reply Text

-- A request's body: its type, its bytes if they are no more than `MAX_BODY`, and its parts, each of
-- which may be malformed.
pub record Incoming : Type 0 where
  pub content_type : Option Text
  pub whole : Option Text
  pub parts : Reply (List (Reply Part))

pub record Upload : Type 0 where
  pub fields : Json
  pub files : List FilePart

-- the continuation bytes after a first byte, and the range of the first of them
unfoldable pub lead : ℕ → Option (ℕ × ℕ × ℕ)
lead c =
    if ltb c 0x80
    then some (0, 0x80, 0xbf)
    else if leb 0xc2 c && leb c 0xdf
    then some (1, 0x80, 0xbf)
    else if c == 0xe0
    then some (2, 0xa0, 0xbf)
    else if c == 0xed
    then some (2, 0x80, 0x9f)
    else if leb 0xe1 c && leb c 0xef
    then some (2, 0x80, 0xbf)
    else if c == 0xf0
    then some (3, 0x90, 0xbf)
    else if leb 0xf1 c && leb c 0xf3
    then some (3, 0x80, 0xbf)
    else if c == 0xf4
    then some (3, 0x80, 0x8f)
    else none

utf8_from : ℕ → ℕ → ℕ → Text → Bool
unfolding lead
utf8_from zero lo hi [] = true
utf8_from (suc n) lo hi [] = false
utf8_from zero lo hi (c ∷ s) = elim (lead c) [
  | none ↦ false
  | some (n, lo', hi') ↦ utf8_from n lo' hi' s
]
utf8_from (suc n) lo hi (c ∷ s) = leb lo c && leb c hi && utf8_from n 0x80 0xbf s

-- `str::from_utf8`
unfoldable pub is_utf8 : Text → Bool
unfolding utf8_from
is_utf8 s = utf8_from 0 0x80 0xbf s

abbrev is_c1 : ℕ → Text → Bool
is_c1 c [] = false
is_c1 c (d ∷ s) = c == 0xc2 && leb 0x80 d && leb d 0x9f

-- `chars().any(char::is_control)`, on UTF-8
unfoldable pub has_control : Text → Bool
has_control [] = false
has_control (c ∷ s) = ltb c 32 || c == 127 || is_c1 c s || has_control s

unfoldable pub is_reserved : Text → Bool
unfolding same reserved_fields
is_reserved name = any (λ r. same r name) reserved_fields

unfoldable pub field_error : String → Text → String → Failure
unfolding bytes
field_error before name after = failure bad_request (bytes before ++ (name ++ bytes after))

-- a part's name, as far as it is a field that a client may set
unfoldable pub part_name : Option Text → Reply Text
unfolding bytes ident_ok is_reserved field_error
part_name none = err (failure bad_request (bytes "multipart part needs a valid name"))
part_name (some name) = do
  ensure (ident_ok name) (failure bad_request (bytes "multipart part needs a valid name"))
  ensure (not (is_reserved name)) (field_error "'" name "' is a reserved field name")
  ok name

-- the value of a part without a file name
unfoldable pub part_value : (Text → Result Text Json) → Text → Text → Reply Json
unfolding is_utf8 has_control field_error
part_value parse name content = do
  ensure (is_utf8 content) (field_error "field '" name "' is not text")
  ensure (not (has_control content)) (field_error "field '" name "' contains control characters")
  ok (elim (parse content) [ ok v ↦ v | err _ ↦ Json.str content ])

-- what has been read of a body
pub record Parsed : Type 0 where
  pub fields : Fields
  pub files : List FilePart

-- one part with its name and bytes
unfoldable pub add_part :
    (Text → Result Text Json) → Text → Text → Option Text → Parsed → Reply Parsed
unfolding bytes insert sanitize_filename part_value
add_part parse name content none p = do
  v ← part_value parse name content
  ok (record p { fields = insert name v p.fields })
add_part parse name content (some raw) p = do
  clean ← ok_or (sanitize_filename raw) (failure bad_request (bytes "invalid filename"))
  ok (record {
    fields = insert name (Json.str clean) p.fields;
    files = p.files ++ (name, clean, content) ∷ [];
  })

-- one round of the loop
unfoldable pub read_part : (Text → Result Text Json) → Part → Parsed → Reply Parsed
unfolding part_name add_part
read_part parse part p = do
  name ← part_name part.name
  content ← part.content
  add_part parse name content part.file_name p

-- the loop of `read_multipart`
unfoldable pub read_parts : (Text → Result Text Json) → List (Reply Part) → Parsed → Reply Parsed
unfolding read_part
read_parts parse [] p = ok p
read_parts parse (next ∷ parts) p = do
  part ← next
  q ← read_part parse part p
  read_parts parse parts q

unfoldable pub read_multipart : (Text → Result Text Json) → List (Reply Part) → Reply Upload
unfolding read_parts
read_multipart parse parts = do
  p ← read_parts parse parts (record { fields = Fields.end; files = [] })
  ok (record { fields = Json.obj p.fields; files = p.files })

abbrev pub is_multipart : Option Text → Bool
is_multipart none = false
is_multipart (some t) = starts_with t (bytes "multipart/form-data")

abbrev invalid_json : {A : Type 0} → Result Text A → Reply A
invalid_json (ok a) = ok a
invalid_json (err e) = err (failure bad_request (bytes "invalid JSON body: " ++ e))

unfoldable pub read_json : (Text → Result Text Json) → Option Text → Reply Upload
unfolding bytes
read_json parse whole = do
  content ← ok_or whole (failure 413 (bytes "body too large"))
  v ← invalid_json (parse content)
  ok (record { fields = v; files = [] })

unfoldable pub read_body : (Text → Result Text Json) → Incoming → Reply Upload
unfolding bytes starts_with read_multipart read_json
read_body parse req =
    if is_multipart req.content_type
    then (do parts ← req.parts; read_multipart parse parts)
    else read_json parse req.whole
