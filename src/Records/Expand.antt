-- ===== src/Records/Expand.antt =====
-- src/records.rs: `expand_records`, the related records of a page.
pub mod Statements
pub mod Selected
pub mod Shown
mod Tests
use rockbase.Prelude.{
  Bool, true, false, ◌&&◌, Option, none, some, List, [], ◌∷◌, ◌++◌, Text, bytes, same, text_lt,
  split_on, if◌then◌else◌, ok, err,
}
use rockbase.Trim.{trim}
use rockbase.Json.{Json, Fields, get, insert}
use rockbase.Env.{F64, Serde}
use rockbase.Filter.{SqlValue, text}
use rockbase.Filter.Sql.{Fragment}
use rockbase.Rules.{auth_id, check_rule, compile_rule}
use rockbase.Http.{Reply}
use rockbase.Auth.{Who}
use rockbase.Db.{Db, Row, Col, Host, get_collection}
use rockbase.Records.{key, str_of, record_json}
use rockbase.Records.Validate.{is_named}
use rockbase.Records.Gate.{is_relation, target_of}

-- the schema entry of a relation with a name
unfoldable pub relation_def : List Json → Text → Option Json
unfolding is_named is_relation
relation_def [] field = none
relation_def (f ∷ fs) field =
    if is_named field f && is_relation f then some f else relation_def fs field

-- `sort` and `dedup` in one: an ordered list without repetitions
unfoldable pub insert_id : Text → List Text → List Text
unfolding text_lt
insert_id s [] = s ∷ []
insert_id s (t ∷ ts) =
    let later = t ∷ insert_id s ts in
    if same s t then t ∷ ts else if text_lt s t then s ∷ t ∷ ts else later

abbrev with_id : Option Text → List Text → List Text
with_id none ts = ts
with_id (some s) ts = insert_id s ts

-- the distinct ids that a field points at
unfoldable pub related_ids : Text → List Json → List Text
unfolding key str_of insert_id
related_ids field [] = []
related_ids field (r ∷ rs) = with_id (str_of (key field r)) (related_ids field rs)

-- the gate on the target: `none` refuses all, and `some none` none
abbrev compiled_gate : Option Fragment → Option (Option Fragment)
compiled_gate none = none
compiled_gate (some p) = some (some p)

abbrev gate_of : F64 → Who → Reply (Option Text) → Option (Option Fragment)
gate_of f64 w (ok none) = some none
gate_of f64 w (ok (some expr)) = compiled_gate (compile_rule f64 expr (auth_id w))
gate_of f64 w (err e) = none

unfoldable pub target_gate : F64 → Who → Option Text → Option (Option Fragment)
unfolding check_rule
target_gate f64 w r = gate_of f64 w (check_rule w r)

-- one `?` for each id
unfoldable pub marks_for : List Text → Text
unfolding bytes
marks_for [] = []
marks_for (s ∷ []) = bytes "?"
marks_for (s ∷ ss) = bytes "?," ++ marks_for ss

unfoldable pub text_binds : List Text → List SqlValue
text_binds [] = []
text_binds (s ∷ ss) = text s ∷ text_binds ss

abbrev and_gate : Fragment → Option Fragment → Fragment
and_gate (sql, binds) none = (sql, binds)
and_gate (sql, binds) (some (frag, more)) = (sql ++ (bytes " AND " ++ frag), binds ++ more)

-- the one query of a field, the gate within it
unfoldable pub related_query : Text → List Text → Option Fragment → Fragment
unfolding bytes marks_for text_binds
related_query target ids gate =
    and_gate
      (
        bytes "SELECT id, data, created, updated FROM records WHERE collection = ? AND id IN ("
            ++ (marks_for ids ++ bytes ")"),
        text target ∷ text_binds ids,
      )
      gate

unfoldable pub row_with_id : Text → List Row → Option Row
row_with_id id [] = none
row_with_id id (r ∷ rs) = if same r.id id then some r else row_with_id id rs

abbrev object_or_empty : Option Json → Option Fields
object_or_empty none = some Fields.end
object_or_empty (some (Json.obj m)) = some m
object_or_empty (some _) = none

abbrev with_expand : Text → Json → Fields → Option Fields → Json
with_expand field rec m none = Json.obj m
with_expand field rec m (some e) =
    Json.obj (insert (bytes "expand") (Json.obj (insert field rec e)) m)

-- a record below the `expand` key of another
unfoldable pub attach : Text → Json → Json → Json
unfolding bytes get insert
attach field rec (Json.obj m) = with_expand field rec m (object_or_empty (get (bytes "expand") m))
attach field rec v = v

abbrev attach_row : Serde → Text → Text → Json → Option Row → Json
attach_row serde target field v none = v
attach_row serde target field v (some r) =
    attach field (record_json serde target r.id r.data_text r.created r.updated) v

abbrev row_for : List Row → Option Text → Option Row
row_for rows none = none
row_for rows (some id) = row_with_id id rows

unfoldable pub attach_rows : Serde → Text → Text → List Row → List Json → List Json
unfolding key str_of attach row_with_id
attach_rows serde target field rows [] = []
attach_rows serde target field rows (v ∷ vs) =
    attach_row serde target field v (row_for rows (str_of (key field v)))
    ∷ attach_rows serde target field rows vs

abbrev or_items : Serde → Text → Text → List Json → Option (List Row) → List Json
or_items serde target field items none = items
or_items serde target field items (some rows) = attach_rows serde target field rows items

abbrev selected : Host → Db → Fragment → Option (List Row)
selected host db (sql, binds) = host.sqlite.select_rows sql binds db.records

abbrev has_ids : List Text → Bool
has_ids [] = false
has_ids (_ ∷ _) = true

abbrev expand_gated : Host → Db → Text → Text → List Json → Option (Option Fragment) → List Json
expand_gated host db target field items none = items
expand_gated host db target field items (some gate) =
    or_items host.serde target field items
      (selected host db (related_query target (related_ids field items) gate))

abbrev expand_target : Host → Db → Who → Text → Text → List Json → Option Col → List Json
expand_target host db w target field items none = items
expand_target host db w target field items (some c) =
    if has_ids (related_ids field items)
    then expand_gated host db target field items (target_gate host.f64 w c.rules.view)
    else items

abbrev expand_def : Host → Db → Who → Text → List Json → Option Json → List Json
expand_def host db w field items none = items
expand_def host db w field items (some def) =
    expand_target host db w (target_of def) field items
      (get_collection host.serde db (target_of def))

unfoldable pub expand_field : Host → Db → Who → List Json → Text → List Json → List Json
unfolding relation_def target_of get_collection related_ids target_gate related_query attach_rows
    bytes
expand_field host db w schema field items =
    expand_def host db w field items (relation_def schema field)

unfoldable pub expand_fields : Host → Db → Who → List Json → List Text → List Json → List Json
unfolding expand_field trim
expand_fields host db w schema [] items = items
expand_fields host db w schema (f ∷ fs) items =
    expand_fields host db w schema fs (expand_field host db w schema (trim f) items)

unfoldable pub expand_records : Host → Db → Who → List Json → Text → List Json → List Json
unfolding split_on expand_fields
expand_records host db w schema expand items =
    expand_fields host db w schema (split_on b',' expand) items
