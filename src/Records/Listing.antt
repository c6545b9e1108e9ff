-- ===== src/Records/Listing.antt =====
-- src/records.rs: the list of records, with its filter, order, pages and projection.
use rockbase.Prelude.{
  ℕ, ◌+◌, ◌-◌, ◌*◌, ◌/◌, ◌%◌, ◌^◌, Bool, ◌||◌, Option, none, some, List, [], ◌∷◌, ◌++◌, Text, bytes,
  same, ltb, any, all, split_on, if◌then◌else◌, Result, ok, err, ok_or, ◌>>=◌,
}
use rockbase.Ident.{ident_ok}
use rockbase.Trim.{trim}
use rockbase.Json.{Json, Fields}
use rockbase.Env.{F64, Serde}
use rockbase.Http.{Failure, failure, Reply, bad_request}
use rockbase.Filter.{text}
use rockbase.Filter.Scan.{ParseError}
use rockbase.Filter.Messages.{message}
use rockbase.Filter.Sql.{Fragment, column_sql, compile}
use rockbase.Rules.{deny, auth_id, compile_rule}
use rockbase.Auth.{Who}
use rockbase.Db.{Row}
use rockbase.Records.{record_json}

pub record ListParams : Type 0 where
  pub page : Option ℕ
  pub per_page : Option ℕ
  pub sort : Option Text
  pub filter : Option Text
  pub fields : Option Text
  pub skip_total : Option Text
  pub expand : Option Text

abbrev sorted_by : Text → Text → Option Text
sorted_by field dir = if ident_ok field then some (column_sql field ++ (bytes " " ++ dir)) else none

unfoldable pub sort_clause : Text → Option Text
unfolding bytes ident_ok column_sql
sort_clause [] = sorted_by [] (bytes "ASC")
sort_clause (c ∷ s) =
    if same (c ∷ []) (bytes "-")
    then sorted_by s (bytes "DESC")
    else sorted_by (c ∷ s) (bytes "ASC")

-- the clauses of the segments, joined
unfoldable pub sort_clauses : List Text → Option Text
unfolding bytes sort_clause trim
sort_clauses [] = some []
sort_clauses (s ∷ []) = sort_clause (trim s)
sort_clauses (s ∷ ss) = elim (sort_clause (trim s)) [
  | none ↦ none
  | some c ↦ elim (sort_clauses ss) [ none ↦ none | some cs ↦ some (c ++ (bytes ", " ++ cs)) ]
]

abbrev sort_or_created : Option Text → Option Text
sort_or_created none = some (bytes "created ASC")
sort_or_created (some s) = sort_clauses (split_on b',' s)

-- the order, with its tiebreak
unfoldable pub order_of : Option Text → Reply Text
unfolding bytes split_on sort_clauses
order_of sort = do
  order ← ok_or (sort_or_created sort) (failure bad_request (bytes "bad sort field"))
  ok (order ++ bytes ", rowid ASC")

-- a condition of the clause, `(frag)` behind an `AND`
unfoldable pub and_where : Fragment → Fragment → Fragment
unfolding bytes
and_where (sql, binds) (frag, more) =
    (sql ++ (bytes " AND (" ++ (frag ++ bytes ")")), binds ++ more)

unfoldable pub in_collection : Text → Fragment
unfolding bytes
in_collection name = (bytes "collection = ?", text name ∷ [])

abbrev filter_failure : ParseError → Failure
filter_failure e = failure bad_request (bytes "invalid filter: " ++ message e)

abbrev pub filtered : Fragment → Result ParseError Fragment → Reply Fragment
filtered base (ok p) = ok (and_where base p)
filtered base (err e) = err (filter_failure e)

unfoldable pub with_filter : F64 → Fragment → Option Text → Reply Fragment
unfolding bytes compile message and_where
with_filter f64 base none = ok base
with_filter f64 base (some f) = filtered base (compile f64 f)

-- a stored rule that does not compile refuses
abbrev pub ruled : Who → Fragment → Option Fragment → Reply Fragment
ruled w base none = err (deny w)
ruled w base (some p) = ok (and_where base p)

unfoldable pub with_rule : F64 → Who → Fragment → Option Text → Reply Fragment
unfolding compile_rule and_where
with_rule f64 w base none = ok base
with_rule f64 w base (some r) = ruled w base (compile_rule f64 r (auth_id w))

-- the WHERE clause of a list: the collection, the filter, and the rule
unfoldable pub list_where : F64 → Who → Text → Option Text → Option Text → Reply Fragment
unfolding in_collection with_filter with_rule
list_where f64 w name filter rule = do
  filtered ← with_filter f64 (in_collection name) filter
  with_rule f64 w filtered rule

abbrev pub or_one : Option ℕ → ℕ
or_one none = 1
or_one (some n) = if ltb n 1 then 1 else n

unfoldable pub page_of : ListParams → ℕ
page_of q = or_one q.page

abbrev pub clamped : Option ℕ → ℕ
clamped none = 30
clamped (some n) = if ltb n 1 then 1 else if ltb 500 n then 500 else n

unfoldable pub per_page_of : ListParams → ℕ
per_page_of q = clamped q.per_page

-- `(page - 1) * per_page` on `u32`
unfoldable pub offset_of : ListParams → ℕ
unfolding page_of per_page_of
offset_of q = ((page_of q - 1) * per_page_of q) % 2 ^ 32

-- `(total as u32).div_ceil(per_page)`
unfoldable pub pages_of : ListParams → ℕ → ℕ
unfolding per_page_of
pages_of q total = (total % 2 ^ 32 + (per_page_of q - 1)) / per_page_of q

unfoldable pub trim_all : List Text → List Text
unfolding trim
trim_all [] = []
trim_all (t ∷ ts) = trim t ∷ trim_all ts

abbrev checked_names : List Text → Reply (Option (List Text))
checked_names ts =
    if all ident_ok ts then ok (some ts) else err (failure bad_request (bytes "bad fields"))

unfoldable pub keep_set : Option Text → Reply (Option (List Text))
unfolding bytes split_on trim_all ident_ok
keep_set none = ok none
keep_set (some f) = checked_names (trim_all (split_on b',' f))

unfoldable pub is_retained : List Text → Text → Bool
unfolding bytes
is_retained keep k = same k (bytes "id") || same k (bytes "expand") || any (λ t. same t k) keep

unfoldable pub retain : List Text → Fields → Fields
unfolding is_retained
retain keep Fields.end = Fields.end
retain keep (Fields.field k v m) =
    let rest = retain keep m in if is_retained keep k then Fields.field k v rest else rest

unfoldable pub project : Option (List Text) → Json → Json
unfolding retain
project none v = v
project (some keep) (Json.obj m) = Json.obj (retain keep m)
project (some keep) v = v

unfoldable pub project_all : Option (List Text) → List Json → List Json
unfolding project
project_all keep [] = []
project_all keep (v ∷ vs) = project keep v ∷ project_all keep vs

unfoldable pub rows_json : Serde → Text → List Row → List Json
rows_json serde name [] = []
rows_json serde name (r ∷ rs) =
    record_json serde name r.id r.data_text r.created r.updated ∷ rows_json serde name rs
