-- ===== src/Files/Upload/Clean.antt =====
-- What an upload can hold, by `read_body` of src/files.rs.
use rockbase.Prelude.{
  ◌≡◌, refl, subst, true, false, Option, none, some, List, [], ◌∷◌, ◌++◌, Text, All, same, same_iff,
  Result, ok, err, Option-cases, Bool-cases, Result-cases, inl, inr,
}
use rockbase.Ident.{ident_ok}
use rockbase.Json.{Json, Fields, get, insert, get-insert}
use rockbase.Http.{Reply}
use rockbase.Files.{FilePart, sanitize_filename}
use rockbase.Files.Names.{IsName, sanitize_filename-IsName}
use rockbase.Files.Upload.{
  Part, Incoming, Upload, is_reserved, part_name, part_value, Parsed, add_part, read_part,
  read_parts, read_multipart, is_multipart, read_json, read_body,
}

-- A file for a field that a client may set, under a name that a download accepts.
abbrev pub IsClean : FilePart → Type 0
IsClean (field, name, content) =
    (ident_ok field ≡ true)
    × (is_reserved field ≡ false)
    × IsName name
    × (sanitize_filename name ≡ some name)

abbrev pub NoReserved : Fields → Type 0
NoReserved m = (k : Text) → is_reserved k ≡ true → get k m ≡ none

abbrev IsCleanSoFar : Parsed → Type 0
IsCleanSoFar p = All IsClean p.files × NoReserved p.fields

part_name-eq-ok :
    (o : Option Text) (name : Text)
    → part_name o ≡ ok name
    → (ident_ok name ≡ true) × (is_reserved name ≡ false)
unfolding part_name
part_name-eq-ok none name h = cc
part_name-eq-ok (some n) name h = elim (Bool-cases (ident_ok n)) [
  | inr e ↦ cc (h, e)
  | inl e ↦ elim (Bool-cases (is_reserved n)) [
    | inl f ↦ cc (h, e, f)
    | inr f ↦
        let here : n ≡ name = cc (h, e, f) in
        subst (λ t. (ident_ok t ≡ true) × (is_reserved t ≡ false)) here (e, f)
  ]
]

insert-NoReserved :
    (name : Text) (v : Json) (m : Fields)
    → is_reserved name ≡ false
    → NoReserved m
    → NoReserved (insert name v m)
insert-NoReserved name v m r c k h = elim (Bool-cases (same name k)) [
  | inl e ↦ cc (r, h, (same_iff name k).0 e)
  | inr e ↦ cc (get-insert name k v m, e, c k h)
]

All-snoc :
    (P : FilePart → Type 0) (files : List FilePart) (f : FilePart)
    → All P files
    → P f
    → All P (files ++ f ∷ [])
All-snoc P [] f a p = (p, tt)
All-snoc P (g ∷ files) f a p = (a.0, All-snoc P files f a.1 p)

add_part-IsClean :
    (parse : Text → Result Text Json) (name content : Text) (raw : Option Text) (p q : Parsed)
    → ident_ok name ≡ true
    → is_reserved name ≡ false
    → IsCleanSoFar p
    → add_part parse name content raw p ≡ ok q
    → IsCleanSoFar q
unfolding add_part
add_part-IsClean parse name content none p q i r c h =
    elim (Result-cases (part_value parse name content)) [
      | inr (x, e) ↦ cc (h, e)
      | inl (v, e) ↦
          let made : record p { fields = insert name v p.fields } ≡ q = cc (h, e) in
          subst IsCleanSoFar made (c.0, insert-NoReserved name v p.fields r c.1)
    ]
add_part-IsClean parse name content (some raw) p q i r c h =
    elim (Option-cases (sanitize_filename raw)) [
      | inl e ↦ cc (h, e)
      | inr (clean, e) ↦
          let (named, again) = sanitize_filename-IsName raw clean e in
          let v = Json.str clean in
          let next : Parsed = record {
            fields = insert name v p.fields;
            files = p.files ++ (name, clean, content) ∷ [];
          } in
          let made : next ≡ q = cc (h, e) in
          subst IsCleanSoFar made (
            All-snoc IsClean p.files (name, clean, content) c.0 (i, r, named, again),
            insert-NoReserved name v p.fields r c.1,
          )
    ]

read_part-IsClean :
    (parse : Text → Result Text Json) (part : Part) (p q : Parsed)
    → IsCleanSoFar p
    → read_part parse part p ≡ ok q
    → IsCleanSoFar q
unfolding read_part
read_part-IsClean parse part p q c h = elim (Result-cases (part_name part.name)) [
  | inr (x, e) ↦ cc (h, e)
  | inl (name, e) ↦ elim (Result-cases part.content) [
    | inr (x, f) ↦ cc (h, e, f)
    | inl (content, f) ↦
        let (i, r) = part_name-eq-ok part.name name e in
        add_part-IsClean parse name content part.file_name p q i r c (cc (h, e, f))
  ]
]

read_parts-IsClean :
    (parse : Text → Result Text Json) (parts : List (Reply Part)) (p q : Parsed)
    → IsCleanSoFar p
    → read_parts parse parts p ≡ ok q
    → IsCleanSoFar q
unfolding read_parts
read_parts-IsClean parse [] p q c h = let same_p : p ≡ q = cc (h) in subst IsCleanSoFar same_p c
read_parts-IsClean parse (err x ∷ parts) p q c h = cc
read_parts-IsClean parse (ok part ∷ parts) p q c h = elim (Result-cases (read_part parse part p)) [
  | inr (x, e) ↦ cc (h, e)
  | inl (r, e) ↦
      read_parts-IsClean parse parts r q (read_part-IsClean parse part p r c e) (cc (h, e))
]

read_multipart-IsClean :
    (parse : Text → Result Text Json) (parts : List (Reply Part)) (up : Upload)
    → read_multipart parse parts ≡ ok up
    → All IsClean up.files × ((m : Fields) × (up.fields ≡ Json.obj m) × NoReserved m)
unfolding read_multipart
read_multipart-IsClean parse parts up h =
    let start : Parsed = record { fields = Fields.end; files = [] } in
    elim (Result-cases (read_parts parse parts start)) [
      | inr (x, e) ↦ cc (h, e)
      | inl (p, e) ↦
          let none_yet : IsCleanSoFar start = (tt, λ k r. unfold get in refl) in
          let clean = read_parts-IsClean parse parts start p none_yet e in
          let made : record { fields = Json.obj p.fields; files = p.files } ≡ up = cc (h, e) in
          subst
            (λ (u : Upload).
              All IsClean u.files × ((m : Fields) × (u.fields ≡ Json.obj m) × NoReserved m))
            made (clean.0, (p.fields, refl, clean.1))
    ]

read_json-files :
    (parse : Text → Result Text Json) (whole : Option Text) (up : Upload)
    → read_json parse whole ≡ ok up
    → up.files ≡ []
unfolding read_json
read_json-files parse none up h = cc
read_json-files parse (some content) up h = elim (Result-cases (parse content)) [
  | inr (x, e) ↦ cc (h, e)
  | inl (v, e) ↦ cc (h, e)
]

-- Every file that a request body brings goes to a field with an identifier for its name that the
-- server does not reserve, and has a name that is one plain component of a path and that a download
-- accepts as it is. The record of a multipart body gives no value to a reserved field.
pub read_body-IsClean :
    (parse : Text → Result Text Json) (req : Incoming) (up : Upload)
    → read_body parse req ≡ ok up
    → All IsClean up.files
      × ((is_multipart req.content_type ≡ true)
          → (m : Fields) × (up.fields ≡ Json.obj m) × NoReserved m)
unfolding read_body
read_body-IsClean parse req up h = elim (Bool-cases (is_multipart req.content_type)) [
  | inr e ↦ (rw (read_json-files parse req.whole up (cc (h, e))) tt, λ m. cc (e, m))
  | inl e ↦ elim (Result-cases req.parts) [
    | inr (x, f) ↦ cc (h, e, f)
    | inl (parts, f) ↦
        let (clean, free) = read_multipart-IsClean parse parts up (cc (h, e, f)) in
        (clean, λ m. free)
  ]
]
