-- ===== src/Files/Viewers.antt =====
-- Who is sent a file by `file_serve` of src/files.rs.
use rockbase.Prelude.{
  ◌≡◌, inl, inr, true, Option, none, some, List, [], ◌∷◌, ◌++◌, Text, ok, same, same_iff,
  Bool-cases, Option-cases, Result-cases,
}
use rockbase.Json.{Json}
use rockbase.Auth.{Who}
use rockbase.Db.{Db, Host, get_collection}
use rockbase.Records.Gate.{fetch_record, gate_record}
use rockbase.Records.View.{record_view, record_view-found}
use rockbase.Files.{sanitize_filename, record_dir, content_type, is_unchanged, file_serve}

unchanged : (name : Text) (o : Option Text) → is_unchanged name o ≡ true → o ≡ some name
unfolding same
unchanged name none h = cc
unchanged name (some s) h = let e = (same_iff s name).0 h in cc (e)

-- A file is sent only to a caller whose GET of its record would be answered; its name is one that an
-- upload could have left, what is sent was read at that name in the directory of the record, and
-- its type is that of the name's extension.
pub file_serve-record_view :
    (read : List Text → Option Text) (host : Host) (db : Db) (w : Who) (col id filename : Text)
    (out : Text × Text)
    → file_serve read host db w col id filename ≡ ok out
    → ((rec : Json) × (record_view host db w col id none ≡ ok rec))
      × (sanitize_filename filename ≡ some filename)
      × ((dir : List Text) × (record_dir col id ≡ some dir)
          × (read (dir ++ filename ∷ []) ≡ some out.1))
      × (out.0 ≡ content_type filename)
unfolding file_serve
file_serve-record_view read host db w col id filename out h =
    elim (Bool-cases (is_unchanged filename (sanitize_filename filename))) [
      | inr e ↦ cc (h, e)
      | inl e ↦ elim (Option-cases (record_dir col id)) [
        | inl f ↦ cc (h, e, f)
        | inr (dir, f) ↦ elim (Option-cases (get_collection host.serde db col)) [
          | inl g ↦ cc (h, e, f, g)
          | inr (c, g) ↦ elim (Option-cases (fetch_record db col id)) [
            | inl r ↦ cc (h, e, f, g, r)
            | inr (row, r) ↦ elim (Result-cases (gate_record host db w c.rules.view col id)) [
              | inr (x, a) ↦ cc (h, e, f, g, r, a)
              | inl (_, a) ↦ elim (Option-cases (read (dir ++ filename ∷ []))) [
                | inl n ↦ cc (h, e, f, g, r, a, n)
                | inr (content, n) ↦ (
                  (_, record_view-found host db w col id c row g r a),
                  unchanged filename (sanitize_filename filename) e,
                  (dir, f, cc (h, e, f, g, r, a, n)),
                  cc (h, e, f, g, r, a, n),
                )
              ]
            ]
          ]
        ]
      ]
    ]
