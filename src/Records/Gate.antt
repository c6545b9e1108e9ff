-- ===== src/Records/Gate.antt =====
-- src/records.rs: the rule gate on an existing record, and the checks against other records.
use rockbase.Prelude.{
  Bool, true, false, ◌&&◌, ◌||◌, not, Option, none, some, List, [], ◌∷◌, ◌++◌, Text, bytes, same,
  any, Result, ok, err, ensure, ◌>>=◌, ◌>>◌,
}
use rockbase.Json.{Json, Fields, get}
use rockbase.Env.{Serde}
use rockbase.Http.{Reply}
use rockbase.Auth.{Who}
use rockbase.Rules.{deny, auth_id, check_rule, compile_rule, eval_rule_mem}
use rockbase.Filter.{text}
use rockbase.Filter.Sql.{Fragment}
use rockbase.Db.{Row, Db, Host, find_row}
use rockbase.Records.{key, str_of, str_or_empty, accepted}

-- `fetch_record`
unfoldable pub fetch_record : Db → Text → Text → Option Row
unfolding find_row
fetch_record db name id = find_row name id db.records

-- the statement of the gate, round a compiled rule
unfoldable pub gate_sql : Text → Text
unfolding bytes
gate_sql frag =
    bytes "SELECT EXISTS(SELECT 1 FROM records WHERE collection = ? AND id = ? AND "
    ++ (frag ++ bytes ")")

-- whether the gate's statement finds the record; an error is no
unfoldable pub gate_allows : Host → Db → Text → Text → Fragment → Bool
unfolding gate_sql
gate_allows host db name id (frag, binds) =
    accepted (host.sqlite.select_exists (gate_sql frag) (text name ∷ text id ∷ binds) db.records)

unfoldable pub enforce : Host → Db → Who → Text → Text → Option Fragment → Reply (Unit {0})
enforce host db w name id none = err (deny w)
enforce host db w name id (some p) = ensure (gate_allows host db name id p) (deny w)

unfoldable pub gate_record : Host → Db → Who → Option Text → Text → Text → Reply (Unit {0})
unfolding check_rule enforce
gate_record host db w r name id = check_rule w r >>= λ o. elim o [
  | none ↦ ok tt
  | some expr ↦ enforce host db w name id (compile_rule host.f64 expr (auth_id w))
]

-- The gate of a create, on the body that is to be stored.
unfoldable pub gate_body : Host → Who → Option Text → Fields → Reply (Unit {0})
unfolding check_rule
gate_body host w r body = check_rule w r >>= λ o. elim o [
  | none ↦ ok tt
  | some expr ↦ ensure (eval_rule_mem host.f64 host.serde expr (auth_id w) body) (deny w)
]

abbrev key_of : Text → Option Json → Option Json
key_of k none = none
key_of k (some v) = key k v

-- the target collection of a relation
unfoldable pub target_of : Json → Text
unfolding bytes key str_or_empty
target_of f = str_or_empty (key_of (bytes "collection") (key (bytes "options") f))

unfoldable pub is_relation : Json → Bool
unfolding bytes key str_of
is_relation f = elim (str_of (key (bytes "type") f)) [
  | none ↦ false
  | some t ↦ same t (bytes "relation")
]

abbrev found : Option Row → Bool
found none = false
found (some _) = true

-- one schema entry: a relation with a text for its value names a record of the target
unfoldable pub check_relation : Db → Json → Fields → Result Text (Unit {0})
unfolding bytes is_relation target_of str_or_empty fetch_record
check_relation db f m = elim (str_of (get (str_or_empty (key (bytes "name") f)) m)) [
  | none ↦ ok tt
  | some id ↦ ensure (not (is_relation f) || found (fetch_record db (target_of f) id)) (
      bytes "field '"
      ++ (str_or_empty (key (bytes "name") f)
          ++ (bytes "': no record '" ++ (id ++ (bytes "' in '" ++ (target_of f ++ bytes "'"))))))
]

unfoldable pub check_relations : Db → List Json → Fields → Result Text (Unit {0})
unfolding check_relation
check_relations db [] m = ok tt
check_relations db (f ∷ fs) m = do check_relation db f m; check_relations db fs m

-- the stored email of a row; a row that is no JSON makes `json_extract` fail
unfoldable pub email_of : Serde → Row → Option (Option Text)
unfolding bytes str_of
email_of serde r = elim (serde.from_str r.data_text) [
  | none ↦ none
  | some m ↦ some (str_of (get (bytes "email") m))
]

unfoldable pub has_email : Serde → Text → Row → Bool
unfolding email_of
has_email serde email r = elim (email_of serde r) [
  | none ↦ false
  | some o ↦ elim o [ none ↦ false | some e ↦ same e email ]
]

abbrev pub is_broken : Serde → Row → Bool
is_broken serde r = elim (serde.from_str r.data_text) [ none ↦ true | some _ ↦ false ]

-- `email_taken`: a query that fails counts nothing
unfoldable pub email_taken : Serde → Db → Text → Text → Text → Bool
unfolding has_email
email_taken serde db col email exclude_id =
    not (any (λ r. same r.collection col && is_broken serde r) db.records)
    && any (λ r. same r.collection col && (has_email serde email r && not (same r.id exclude_id)))
        db.records
