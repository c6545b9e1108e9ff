-- ===== src/Records/Expand/Shown.antt =====
-- What `expand_records` of src/records.rs puts into a response.
use rockbase.Prelude.{
  ◌≡◌, refl, subst, inl, inr, Option, none, some, List, [], ◌∷◌, Text, All, ok, Bool-cases, same,
  split_on,
}
use rockbase.Trim.{trim}
use rockbase.Json.{Json}
use rockbase.Filter.Sql.{Fragment}
use rockbase.Filter.Where.{Truth}
use rockbase.Auth.{Who}
use rockbase.Db.{Db, Row, Col, Host, get_collection}
use rockbase.Records.{key, str_of}
use rockbase.Records.Gate.{target_of}
use rockbase.Records.Expand.{
  target_gate, related_query, relation_def, related_ids, row_with_id, attach, attach_row, row_for,
  attach_rows, or_items, selected, has_ids, expand_gated, expand_target, expand_def, expand_field,
  expand_fields, expand_records,
}
use rockbase.Records.Expand.Selected.{Runs, row_json, IsSeen, record_view-selected}
use rockbase.Records.View.{record_view}

-- A record of a response, and what expansions made of it: each puts in what a GET of a record
-- answers to the same caller.
pub data Shown (host : Host) (db : Db) (w : Who) (v : Json) : Json → Type 0 where
  alone : Shown host db w v v
  along :
      (u rec : Json) (field target id : Text)
      → Shown host db w v u
      → record_view host db w target id none ≡ ok rec
      → Shown host db w v (attach field rec u)

-- the outputs for the items of a page, one for each
pub data AllShown (host : Host) (db : Db) (w : Who) : List Json → List Json → Type 0 where
  end : AllShown host db w [] []
  both :
      {v u : Json} {vs us : List Json}
      → Shown host db w v u
      → AllShown host db w vs us
      → AllShown host db w (v ∷ vs) (u ∷ us)

module _ (P : Row → Type 0) where
  row_with_id-All :
      (rows : List Row) (id : Text) → All P rows → (r : Row) → row_with_id id rows ≡ some r → P r
  unfolding row_with_id
  row_with_id-All [] id h r e = cc
  row_with_id-All (q ∷ rows) id (h, hs) r e = elim (Bool-cases (same q.id id)) [
    | inl t ↦ let eq : q ≡ r = cc (e, t) in subst P eq h
    | inr f ↦ row_with_id-All rows id hs r (cc (e, f))
  ]

  row_for-All :
      (rows : List Row) (o : Option Text) → All P rows → (r : Row) → row_for rows o ≡ some r → P r
  row_for-All rows none h r e = cc
  row_for-All rows (some id) h r e = row_with_id-All rows id h r e

module _ (host : Host) (db : Db) (w : Who) where
  attach_row-Shown :
      (target field : Text) (v u : Json) (o : Option Row)
      → ((r : Row) → o ≡ some r → IsSeen host db w target r)
      → Shown host db w v u
      → Shown host db w v (attach_row host.serde target field u o)
  attach_row-Shown target field v u none seen h = h
  attach_row-Shown target field v u (some r) seen h =
      along u (row_json host target r) field target r.id h (seen r refl)

  attach_rows-AllShown :
      (target field : Text) (rows : List Row)
      → All (IsSeen host db w target) rows
      → {vs us : List Json} → AllShown host db w vs us
      → AllShown host db w vs (attach_rows host.serde target field rows us)
  unfolding attach_rows
  attach_rows-AllShown target field rows seen end = end
  attach_rows-AllShown target field rows seen (both {v} {u} s rest) =
      both
        (attach_row-Shown target field v u (row_for rows (str_of (key field u)))
          (row_for-All (IsSeen host db w target) rows (str_of (key field u)) seen) s)
        (attach_rows-AllShown target field rows seen rest)

  module _ (v : Row → Fragment → Truth) (runs : Runs host db v) {vs us : List Json} where
    or_items-AllShown :
        (col : Col) (target field : Text) (gate : Option Fragment)
        → get_collection host.serde db target ≡ some col
        → target_gate host.f64 w col.rules.view ≡ some gate
        → AllShown host db w vs us
        → (o : Option (List Row))
        → selected host db (related_query target (related_ids field us) gate) ≡ o
        → AllShown host db w vs (or_items host.serde target field us o)
    or_items-AllShown col target field gate c g h none e = h
    or_items-AllShown col target field gate c g h (some rows) e =
        attach_rows-AllShown target field rows
          (record_view-selected host db v runs w col target (related_ids field us) gate rows c g e)
          h

    expand_gated-AllShown :
        (col : Col) (target field : Text)
        → get_collection host.serde db target ≡ some col
        → AllShown host db w vs us
        → (gate : Option (Option Fragment)) → target_gate host.f64 w col.rules.view ≡ gate
        → AllShown host db w vs (expand_gated host db target field us gate)
    expand_gated-AllShown col target field c h none e = h
    expand_gated-AllShown col target field c h (some gate) e =
        or_items-AllShown col target field gate c e h _ refl

    expand_target-AllShown :
        (target field : Text)
        → AllShown host db w vs us
        → (o : Option Col) → get_collection host.serde db target ≡ o
        → AllShown host db w vs (expand_target host db w target field us o)
    expand_target-AllShown target field h none c = h
    expand_target-AllShown target field h (some col) c =
        elim (Bool-cases (has_ids (related_ids field us))) [
          | inl t ↦ rw t (expand_gated-AllShown col target field c h _ refl)
          | inr f ↦ rw f h
        ]

    expand_def-AllShown :
        (field : Text)
        → AllShown host db w vs us
        → (def : Option Json) → AllShown host db w vs (expand_def host db w field us def)
    expand_def-AllShown field h none = h
    expand_def-AllShown field h (some def) = expand_target-AllShown (target_of def) field h _ refl

  module _ (v : Row → Fragment → Truth) (runs : Runs host db v) (schema : List Json) where
    expand_fields-AllShown :
        (fields : List Text) {vs us : List Json}
        → AllShown host db w vs us
        → AllShown host db w vs (expand_fields host db w schema fields us)
    unfolding expand_fields expand_field
    expand_fields-AllShown [] h = h
    expand_fields-AllShown (f ∷ fs) h =
        expand_fields-AllShown fs
          (expand_def-AllShown v runs (trim f) h (relation_def schema (trim f)))

itself : (host : Host) (db : Db) (w : Who) (items : List Json) → AllShown host db w items items
itself host db w [] = end
itself host db w (v ∷ vs) = both alone (itself host db w vs)

-- Expansion gives one record for each, and puts into it only records that their own GET, asked by the
-- same caller, answers with: whatever the fields asked for and the ids stored, nothing is read past
-- the view rule of the target. It holds wherever the two statements on records, the one of an
-- expansion and the one of the gate, are run by one meaning of their conditions.
pub expand_records-Shown :
    (host : Host) (db : Db) (v : Row → Fragment → Truth)
    → Runs host db v
    → (w : Who) (schema : List Json) (expand : Text) (items : List Json)
    → AllShown host db w items (expand_records host db w schema expand items)
unfolding expand_records
expand_records-Shown host db v runs w schema expand items =
    expand_fields-AllShown host db w v runs schema (split_on b',' expand) (itself host db w items)
