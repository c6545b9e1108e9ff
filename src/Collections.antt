-- ===== src/Collections.antt =====
-- src/collections.rs: the checks on a schema and on the rules of a request.
pub mod Handlers
pub mod Sound
pub mod Requests
pub mod Schemas
mod Tests
use rockbase.Prelude.{
  ℕ, Bool, true, false, ◌&&◌, ◌||◌, not, Option, none, some, List, [], ◌∷◌, ◌++◌, Text, bytes, same,
  any, if◌then◌else◌, Result, ok, err, ok_or, ensure, ◌>>=◌, ◌>>◌,
}
use rockbase.Ident.{ident_ok}
use rockbase.Json.{Json, Fields, insert, as_str, as_array, is_null, list_items}
use rockbase.Env.{F64}
use rockbase.Http.{Failure, failure, Reply, bad_request}
use rockbase.Rules.{Rules, compile_rule}
use rockbase.Filter.Sql.{Fragment}
use rockbase.Db.{Col}
use rockbase.Records.{key, str_or_empty, reserved_fields}
use rockbase.Records.Gate.{target_of}

abbrev rule_json : Option Text → Json
rule_json none = Json.null
rule_json (some r) = Json.str r

unfoldable pub col_json : Text → Col → Json
unfolding bytes insert list_items
col_json name c = Json.obj (
    insert (bytes "deleteRule") (rule_json c.rules.delete) (
      insert (bytes "updateRule") (rule_json c.rules.update) (
        insert (bytes "createRule") (rule_json c.rules.create) (
          insert (bytes "viewRule") (rule_json c.rules.view) (
            insert (bytes "listRule") (rule_json c.rules.list) (
              insert (bytes "schema") (Json.arr (list_items c.schema)) (
                insert (bytes "type") (Json.str c.ty)
                  (insert (bytes "name") (Json.str name) Fields.end))))))))

-- `[…].contains(&s)`
unfoldable pub is_one_of : List Text → Text → Bool
is_one_of ts s = any (λ t. same t s) ts

unfoldable pub field_types : List Text
unfolding bytes
field_types =
    bytes "text"
    ∷ bytes "number"
    ∷ bytes "bool"
    ∷ bytes "json"
    ∷ bytes "relation"
    ∷ bytes "file"
    ∷ []

unfoldable pub name_of : Json → Text
unfolding bytes key str_or_empty
name_of f = str_or_empty (key (bytes "name") f)

unfoldable pub type_text : Json → Text
unfolding bytes key str_or_empty
type_text f = str_or_empty (key (bytes "type") f)

-- one field of a schema
unfoldable pub check_field : Json → Reply (Unit {0})
unfolding bytes is_one_of field_types name_of type_text target_of reserved_fields
check_field f = do
  ensure (ident_ok (name_of f) && is_one_of field_types (type_text f)) (
      failure bad_request
        (bytes "schema fields need valid name and type in text|number|bool|json|relation|file"))
  ensure (not (same (type_text f) (bytes "relation")) || ident_ok (target_of f)) (
      failure bad_request
        (bytes "relation fields need options.collection naming a target collection"))
  ensure (not (is_one_of reserved_fields (name_of f)))
      (failure bad_request (bytes "'" ++ (name_of f ++ bytes "' is a reserved field name")))

unfoldable pub check_fields : List Json → Reply (Unit {0})
unfolding check_field
check_fields [] = ok tt
check_fields (f ∷ fs) = do check_field f; check_fields fs

unfoldable pub schema_ok : Json → Reply (List Json)
unfolding bytes as_array check_fields
schema_ok schema = do
  fields ← ok_or (as_array schema) (failure bad_request (bytes "schema must be an array"))
  check_fields fields
  ok fields

abbrev pub compiles : Option Fragment → Bool
compiles none = false
compiles (some p) = true

abbrev pub is_blank : Text → Bool
is_blank [] = true
is_blank (_ ∷ _) = false

-- a rule that may be stored: empty, or an expression
unfoldable pub rule_ok : F64 → Text → Bool
unfolding compile_rule
rule_ok f64 s = is_blank s || compiles (compile_rule f64 s [])

abbrev invalid_rule : Text → Failure
invalid_rule k = failure bad_request (bytes "invalid " ++ k)

unfoldable pub read_text : F64 → Text → Json → Reply (Option (Option Text))
unfolding bytes as_str rule_ok
read_text f64 k v = do
  s ← ok_or (as_str v) (invalid_rule k)
  ensure (rule_ok f64 s) (invalid_rule k)
  ok (some (some s))

unfoldable pub read_value : F64 → Text → Json → Reply (Option (Option Text))
unfolding read_text
read_value f64 k v = if is_null v then ok (some none) else read_text f64 k v

-- `read_rule`: `ok none` for a key that is absent
unfoldable pub read_rule : F64 → Json → Text → Reply (Option (Option Text))
unfolding key read_value
read_rule f64 body k = elim (key k body) [ none ↦ ok none | some v ↦ read_value f64 k v ]

-- the rules that a body names
pub record RulePatch : Type 0 where
  pub list : Option (Option Text)
  pub view : Option (Option Text)
  pub create : Option (Option Text)
  pub update : Option (Option Text)
  pub delete : Option (Option Text)

-- the loop over `RULE_KEYS`
unfoldable pub read_rules : F64 → Json → Reply RulePatch
unfolding bytes read_rule
read_rules f64 body = do
  l ← read_rule f64 body (bytes "listRule")
  v ← read_rule f64 body (bytes "viewRule")
  c ← read_rule f64 body (bytes "createRule")
  u ← read_rule f64 body (bytes "updateRule")
  d ← read_rule f64 body (bytes "deleteRule")
  ok (record { list = l; view = v; create = c; update = u; delete = d })

abbrev pub chosen : Option (Option Text) → Option Text → Option Text
chosen none r = r
chosen (some r) _ = r

-- named rules override, absent ones stay
unfoldable pub apply_rules : RulePatch → Rules → Rules
apply_rules p r = record {
  list = chosen p.list r.list;
  view = chosen p.view r.view;
  create = chosen p.create r.create;
  update = chosen p.update r.update;
  delete = chosen p.delete r.delete;
}
