-- ===== src/Collections/Handlers.antt =====
-- src/collections.rs: the handlers, behind the identity of their caller.
use rockbase.Prelude.{
  ℕ, ◌+◌, ◌%◌, ◌^◌, Bool, true, false, ◌||◌, not, Option, none, some, List, [], ◌∷◌, ◌++◌, Text,
  bytes, same, text_lt, if◌then◌else◌, ok, err, ok_or, ensure, ◌>>=◌, ◌>>◌,
}
use rockbase.Ident.{ident_ok}
use rockbase.Json.{Json, Fields, Items, insert, as_array}
use rockbase.Env.{Serde}
use rockbase.Http.{failure, Reply, bad_request, not_found}
use rockbase.Rules.{defaults}
use rockbase.Db.{CollectionRow, Row, Db, Col, Host, list_or_empty, find_collection, get_collection}
use rockbase.Records.{key, str_of, str_or_empty}
use rockbase.Auth.{Who}
use rockbase.Auth.Tokens.{only_admin}
use rockbase.Collections.{col_json, schema_ok, RulePatch, read_rules, apply_rules}

-- The database, the counter of changes to the collections, and the collections whose files were
-- dropped.
pub record Catalog : Type 0 where
  pub db : Db
  pub version : ℕ
  pub dropped : List Text

-- `bump`, a `fetch_add` on 64 bits
unfoldable pub bump : ℕ → ℕ
bump v = (v + 1) % 2 ^ 64

abbrev pub with_collections : List CollectionRow → Catalog → Catalog
with_collections cs s = record s {
  db = record (s.db) { collections = cs };
  version = bump s.version;
}

abbrev col_of : Serde → CollectionRow → Col
col_of serde c = record {
  ty = c.ty;
  schema = list_or_empty (serde.from_str_list c.schema);
  rules = c.rules;
}

-- `ORDER BY name`
unfoldable pub insert_by_name : CollectionRow → List CollectionRow → List CollectionRow
insert_by_name c [] = c ∷ []
insert_by_name c (d ∷ cs) =
    let later = d ∷ insert_by_name c cs in if text_lt c.name d.name then c ∷ d ∷ cs else later

unfoldable pub by_name : List CollectionRow → List CollectionRow
unfolding insert_by_name
by_name [] = []
by_name (c ∷ cs) = insert_by_name c (by_name cs)

unfoldable pub cols_json : Serde → List CollectionRow → Items
unfolding col_json
cols_json serde [] = Items.nil
cols_json serde (c ∷ cs) = Items.cons (col_json c.name (col_of serde c)) (cols_json serde cs)

unfoldable pub collections_list : Serde → Db → Who → Reply Json
unfolding bytes insert by_name cols_json
collections_list serde db w = do
  only_admin w
  ok (
      Json.obj
        (insert (bytes "items") (Json.arr (cols_json serde (by_name db.collections))) Fields.end))

abbrev or_text : Text → Option Text → Text
or_text d none = d
or_text d (some s) = s

abbrev or_empty_array : Option Json → Json
or_empty_array none = Json.arr Items.nil
or_empty_array (some v) = v

abbrev list_of : Option (List Json) → List Json
list_of none = []
list_of (some l) = l

-- `INSERT OR IGNORE INTO _collections`, `none` where the name is taken
unfoldable pub insert_collection : CollectionRow → List CollectionRow → Option (List CollectionRow)
unfolding find_collection
insert_collection c cs = elim (find_collection c.name cs) [
  | none ↦ some (cs ++ c ∷ [])
  | some _ ↦ none
]

unfoldable pub type_or_base : Json → Text
unfolding bytes key str_of
type_or_base body = or_text (bytes "base") (str_of (key (bytes "type") body))

unfoldable pub schema_or_empty : Json → Json
unfolding bytes key
schema_or_empty body = or_empty_array (key (bytes "schema") body)

-- the checks on a request for a new collection
unfoldable pub check_collection : Json → Reply (Unit {0})
unfolding bytes key str_or_empty type_or_base schema_or_empty schema_ok
check_collection body = do
  ensure (ident_ok (str_or_empty (key (bytes "name") body)))
      (failure bad_request (bytes "invalid collection name"))
  ensure (same (type_or_base body) (bytes "base") || same (type_or_base body) (bytes "auth"))
      (failure bad_request (bytes "type must be 'base' or 'auth'"))
  schema_ok (schema_or_empty body)
  ok tt

-- the row that it asks for
unfoldable pub row_of : Host → Json → Reply CollectionRow
unfolding bytes key str_or_empty type_or_base schema_or_empty read_rules apply_rules defaults
row_of host body = do
  p ← read_rules host.f64 body
  ok (record {
    name = str_or_empty (key (bytes "name") body);
    ty = type_or_base body;
    schema = host.serde.to_string (schema_or_empty body);
    rules = apply_rules p (defaults (type_or_base body));
  })

unfoldable pub new_collection : Host → Who → Json → Reply CollectionRow
unfolding check_collection row_of
new_collection host w body = do only_admin w; check_collection body; row_of host body

-- The schema of the answer is the one of the request, not the stored text.
unfoldable pub created_json : CollectionRow → Json → Json
unfolding bytes schema_or_empty as_array col_json
created_json c body =
    col_json c.name
      (record { ty = c.ty; schema = list_of (as_array (schema_or_empty body)); rules = c.rules })

unfoldable pub collections_create : Host → Who → Json → Catalog → Reply Json × Catalog
unfolding bytes new_collection insert_collection created_json
collections_create host w body s = elim (new_collection host w body) [
  | err e ↦ (err e, s)
  | ok c ↦ elim (insert_collection c s.db.collections) [
    | none ↦ (err (failure bad_request (bytes "collection already exists")), s)
    | some cs ↦ (ok (created_json c body), with_collections cs s)
  ]
]

unfoldable pub collections_get : Serde → Db → Who → Text → Reply Json
unfolding bytes get_collection col_json
collections_get serde db w name = do
  only_admin w
  c ← ok_or (get_collection serde db name) (failure not_found (bytes "no such collection"))
  ok (col_json name c)

abbrev is_present : Option Json → Bool
is_present none = false
is_present (some v) = true

-- a new schema as text, `none` where the body names none
abbrev pub new_schema : Serde → Option Json → Reply (Option Text)
new_schema serde none = ok none
new_schema serde (some v) = schema_ok v >>= λ _. ok (some (serde.to_string v))

abbrev pub kept_schema : Text → Option Text → Text
kept_schema old none = old
kept_schema old (some s) = s

-- the changes that a request asks for
unfoldable pub changes_of : Host → Json → Reply (RulePatch × Option Text)
unfolding bytes key read_rules schema_ok
changes_of host body = do
  p ← read_rules host.f64 body
  s ← new_schema host.serde (key (bytes "schema") body)
  ok (p, s)

unfoldable pub check_fixed : Json → Reply (Unit {0})
unfolding bytes key
check_fixed body =
    ensure (not (is_present (key (bytes "name") body) || is_present (key (bytes "type") body)))
      (failure bad_request (bytes "name/type cannot be changed"))

unfoldable pub collection_patch : Host → Who → Json → Reply (RulePatch × Option Text)
unfolding check_fixed changes_of
collection_patch host w body = do only_admin w; check_fixed body; changes_of host body

-- the `UPDATE` statements on one row
unfoldable pub update_collection :
    Text → RulePatch → Option Text → List CollectionRow → List CollectionRow
unfolding apply_rules
update_collection name p schema [] = []
update_collection name p schema (c ∷ cs) =
    (if same c.name name
      then record c { rules = apply_rules p c.rules; schema = kept_schema c.schema schema }
      else c)
    ∷ update_collection name p schema cs

abbrev pub answer : Text → Option Col → Reply Json
answer name none = err (failure not_found (bytes "no such collection"))
answer name (some c) = ok (col_json name c)

unfoldable pub collections_update : Host → Who → Text → Json → Catalog → Reply Json × Catalog
unfolding bytes collection_patch get_collection find_collection update_collection col_json
collections_update host w name body s = elim (collection_patch host w body) [
  | err e ↦ (err e, s)
  | ok (p, schema) ↦ elim (find_collection name s.db.collections) [
    | none ↦ (err (failure not_found (bytes "no such collection")), s)
    | some _ ↦
        let cs = update_collection name p schema s.db.collections in
        let s₁ = with_collections cs s in (answer name (get_collection host.serde s₁.db name), s₁)
  ]
]

unfoldable pub remove_collection : Text → List CollectionRow → List CollectionRow
remove_collection name [] = []
remove_collection name (c ∷ cs) =
    let rest = remove_collection name cs in if same c.name name then rest else c ∷ rest

-- `DELETE FROM records WHERE collection = …`
unfoldable pub remove_records : Text → List Row → List Row
remove_records name [] = []
remove_records name (r ∷ rs) =
    let rest = remove_records name rs in if same r.collection name then rest else r ∷ rest

abbrev pub without_collection : Text → Catalog → Catalog
without_collection name s = record s {
  db = record (s.db) {
    collections = remove_collection name s.db.collections;
    records = remove_records name s.db.records;
  };
  version = bump s.version;
  dropped = s.dropped ++ name ∷ [];
}

unfoldable pub collections_delete : Who → Text → Catalog → Reply Json × Catalog
unfolding bytes find_collection remove_collection remove_records
collections_delete w name s = elim (only_admin w) [
  | err e ↦ (err e, s)
  | ok _ ↦ elim (find_collection name s.db.collections) [
    | none ↦ (err (failure not_found (bytes "no such collection")), s)
    | some _ ↦ (ok (Json.obj Fields.end), without_collection name s)
  ]
]
