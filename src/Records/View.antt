-- ===== src/Records/View.antt =====
-- src/records.rs: `record_view`, behind the identity of its caller, and who may read a record.
use rockbase.Prelude.{
  ◌≡◌, refl, Option, none, some, List, [], ◌∷◌, Text, bytes, ok, ok_or, ◌>>=◌, ◌>>◌, Option-cases,
  Result-cases, inl, inr,
}
use rockbase.Json.{Json}
use rockbase.Http.{failure, Reply, not_found}
use rockbase.Auth.{Who}
use rockbase.Db.{Db, Row, Col, Host, get_collection}
use rockbase.Records.{record_json}
use rockbase.Records.Gate.{fetch_record, gate_record}
use rockbase.Records.Expand.{expand_records}
use rockbase.Records.Allowed.{IsAllowed, FindsRecord, gate_record-IsAllowed}

abbrev head_or : Json → List Json → Json
head_or rec [] = rec
head_or rec (v ∷ _) = v

-- `expand_records` on the slice of one record
unfoldable pub expanded_one : Host → Db → Who → List Json → Option Text → Json → Json
expanded_one host db w schema none rec = rec
expanded_one host db w schema (some e) rec =
    head_or rec (expand_records host db w schema e (rec ∷ []))

unfoldable pub record_view : Host → Db → Who → Text → Text → Option Text → Reply Json
unfolding bytes get_collection expanded_one
record_view host db w name id expand = do
  col ← ok_or (get_collection host.serde db name) (failure not_found (bytes "no such collection"))
  row ← ok_or (fetch_record db name id) (failure not_found (bytes "record not found"))
  gate_record host db w col.rules.view name id
  ok (
      expanded_one host db w col.schema expand
        (record_json host.serde name id row.data_text row.created row.updated))

-- what lets a record be shown
pub record_view-found :
    (host : Host) (db : Db) (w : Who) (name id : Text) (col : Col) (r : Row)
    → get_collection host.serde db name ≡ some col
    → fetch_record db name id ≡ some r
    → gate_record host db w col.rules.view name id ≡ ok tt
    → record_view host db w name id none
      ≡ ok (record_json host.serde name id r.data_text r.created r.updated)
unfolding record_view expanded_one
record_view-found host db w name id col r c f g = rw (c, f, g) refl

-- A record is shown only to an admin, under a public view rule, or where the rule compiles and its
-- statement finds the record.
pub record_view-IsAllowed :
    (host : Host) (db : Db) (w : Who) (name id : Text) (expand : Option Text) (out : Json)
    → record_view host db w name id expand ≡ ok out
    → (col : Col) × (get_collection host.serde db name ≡ some col)
      × IsAllowed w col.rules.view (FindsRecord host db name id w)
unfolding record_view
record_view-IsAllowed host db w name id expand out h =
    elim (Option-cases (get_collection host.serde db name)) [
      | inl e ↦ cc (h, e)
      | inr (col, e) ↦ elim (Option-cases (fetch_record db name id)) [
        | inl f ↦ cc (h, e, f)
        | inr (row, f) ↦ elim (Result-cases (gate_record host db w col.rules.view name id)) [
          | inl (u, g) ↦ (col, e, gate_record-IsAllowed host db w col.rules.view name id g)
          | inr (x, g) ↦ cc (h, e, f, g)
        ]
      ]
    ]
