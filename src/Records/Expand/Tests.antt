-- ===== src/Records/Expand/Tests.antt =====
-- Runs of `expand_records` of src/records.rs.
use rockbase.Prelude.{
  ◌≡◌, refl, subst, Bool, true, false, none, some, List, [], ◌∷◌, Text, bytes, All, same, same_iff,
  Bool-cases, inl, inr, if◌then◌else◌, ◌==◌, Option, arith,
}
use rockbase.Json.{Json, Fields, contains_key}
use rockbase.Filter.{Op, Operand, Node, or, and, cmp, SqlValue, text}
use rockbase.Filter.Sql.{Fragment, cmp_sql}
use rockbase.Filter.Where.{Truth, holds, denied, spell, where_value, meaning}
use rockbase.Env.{F64}
use rockbase.Auth.{Who, user}
use rockbase.Db.{Db, Row, Host, find_row}
use rockbase.Rules.{compile_rule}
use rockbase.Records.Samples.{host_sample, posts, db_sample, writes}
use rockbase.Records.Expand.{expand_records}
use rockbase.Records.Expand.Selected.{Runs}
use rockbase.Records.Expand.Statements.{is_in, query_tokens, gate_tokens, query-value, worth}
use rockbase.Records.Expand.Shown.{AllShown, expand_records-Shown}

abbrev alice : Who
alice = user (bytes "users") (bytes "alice")

-- the rows of the collection that stands first among the binds
abbrev rows_of : List SqlValue → List Row → List Row
rows_of (text t ∷ binds) rows = if same posts t then rows else []
rows_of _ rows = []

abbrev host_rows : Host
host_rows = record host_sample {
  sqlite = record host_sample.sqlite { select_rows = λ sql binds rows. some (rows_of binds rows) };
}

-- Only the condition on the collection tells rows apart, the one that starts with a `c`.
abbrev names_row : Row → List SqlValue → Truth
names_row r (text t ∷ binds) = if same r.collection t then holds else denied
names_row r _ = denied

abbrev worth_on : Row → Fragment → Truth
worth_on r ([], binds) = holds
worth_on r (c ∷ s, binds) = if c == 99 then names_row r binds else holds

cmp_sql-holds :
    (f64 : F64) (id : Text) (r : Row) (l : Operand) (op : Op) (x : Operand)
    → worth_on r (cmp_sql f64 id l op x) ≡ holds
unfolding cmp_sql
cmp_sql-holds f64 id r l op x = ground arith

meaning-holds : (f64 : F64) (id : Text) (r : Row) (n : Node) → meaning (worth_on r) f64 id n ≡ holds
unfolding meaning
meaning-holds f64 id r (or a b) = rw (meaning-holds f64 id r a) refl
meaning-holds f64 id r (and a b) = rw (meaning-holds f64 id r a, meaning-holds f64 id r b) refl
meaning-holds f64 id r (cmp l op x) = cmp_sql-holds f64 id r l op x

worth-holds :
    (f64 : F64) (id : Text) (r : Row) (n : Option Node) → worth (worth_on r) f64 id n ≡ holds
worth-holds f64 id r none = refl
worth-holds f64 id r (some n) = meaning-holds f64 id r n

abbrev old : Row
old = record {
  collection = posts;
  id = bytes "a";
  data_text = bytes "{}";
  created = bytes "t0";
  updated = bytes "t0";
}

-- a view rule that asks for a title
abbrev gated_db : Db
gated_db = record db_sample {
  collections =
      record {
        name = posts;
        ty = bytes "base";
        schema = bytes "[]";
        rules = record {
          list = some [];
          view = some (bytes "title='new'");
          create = none;
          update = none;
          delete = none;
        };
      }
      ∷ [];
  records = old ∷ [];
}

query-holds :
    (f64 : F64) (id target : Text) (ids : List Text) (n : Option Node)
    → same posts target ≡ true
    → where_value (worth_on old) (query_tokens f64 id target ids n) ≡ holds
unfolding bytes
query-holds f64 id target ids n t =
    rw (query-value (worth_on old) f64 id target ids n, worth-holds f64 id old n, t) refl

yields :
    (f64 : F64) (id target : Text) (ids : List Text) (n : Option Node) (rows : List Row)
    → some (if same posts target then old ∷ [] else []) ≡ some rows
    → All
        (λ r.
          (find_row r.collection r.id gated_db.records ≡ some r)
          × (where_value (worth_on r) (query_tokens f64 id target ids n) ≡ holds))
        rows
unfolding bytes find_row same
yields f64 id target ids n rows h = elim (Bool-cases (same posts target)) [
  | inl t ↦
      let e : old ∷ [] ≡ rows = cc (h, t) in
      subst (All _) e ((refl, query-holds f64 id target ids n t), tt)
  | inr f ↦ let e : [] ≡ rows = cc (h, f) in subst (All _) e tt
]

named : (r : Row) (target : Text) → worth_on r (is_in target) ≡ holds → r.collection ≡ target
unfolding bytes
named r target h = elim (Bool-cases (same r.collection target)) [
  | inl t ↦ (same_iff r.collection target).0 t
  | inr f ↦ cc (h, f)
]

rows-Runs : Runs host_rows gated_db worth_on
unfolding spell query_tokens gate_tokens bytes
rows-Runs = record {
  selects = λ id target ids n rows h. yields _ id target ids n rows h;
  finds = λ id r n found there. refl;
  of_collection = named;
  at_id = λ r. refl;
}

abbrev post_entry : Json
post_entry = Json.obj (
    Fields.field (bytes "name") (Json.str (bytes "post")) (
      Fields.field (bytes "type") (Json.str (bytes "relation")) (
        Fields.field (bytes "options")
          (Json.obj (Fields.field (bytes "collection") (Json.str posts) Fields.end)) Fields.end)))

abbrev comment : Json
comment = Json.obj (Fields.field (bytes "post") (Json.str (bytes "a")) Fields.end)

abbrev expanded : List Json
expanded =
    expand_records host_rows gated_db alice (post_entry ∷ []) (bytes " post ,title") (comment ∷ [])

abbrev fields_of : Json → Fields
fields_of (Json.obj m) = m
fields_of _ = Fields.end

abbrev has_expand : List Json → Bool
has_expand (v ∷ []) = contains_key (bytes "expand") (fields_of v)
has_expand _ = false

expands : has_expand expanded ≡ true
unfolding writes compile_rule expand_records contains_key
expands = refl

expand_records-Shown_example : AllShown host_rows gated_db alice (comment ∷ []) (
    expand_records host_rows gated_db alice (post_entry ∷ []) (bytes " post ,title") (comment ∷ []))
expand_records-Shown_example =
    expand_records-Shown host_rows gated_db worth_on rows-Runs alice (post_entry ∷ [])
      (bytes " post ,title") (comment ∷ [])
