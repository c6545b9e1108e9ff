-- ===== src/Records/Expand/Statements.antt =====
-- The two statements on records of src/records.rs, of an expansion and of the gate, as tokens of their
-- WHERE clauses.
use rockbase.Prelude.{
  ◌≡◌, refl, Option, none, some, List, [], ◌∷◌, ◌++◌, append_assoc, append-nil, Text, bytes, arith,
}
use rockbase.Env.{F64}
use rockbase.Filter.{Node, text}
use rockbase.Filter.Sql.{Fragment, to_sql}
use rockbase.Filter.Where.{
  Truth, holds, and3, SqlToken, cond, kw_and, spell, read, where_value, fragment_tokens, meaning,
}
use rockbase.Filter.Where.Spelling.{spell-fragment_tokens}
use rockbase.Filter.Where.Splice.{read-fragment_tokens}
use rockbase.Db.{Row}
use rockbase.Records.Gate.{gate_sql}
use rockbase.Records.Expand.{marks_for, text_binds, related_query}

abbrev pub is_in : Text → Fragment
is_in target = (bytes "collection = ?", text target ∷ [])

abbrev pub has_id : Text → Fragment
has_id id = (bytes "id = ?", text id ∷ [])

-- the tokens of the two statements
abbrev pub gated : F64 → Text → Option Node → List SqlToken
gated f64 id none = []
gated f64 id (some n) = kw_and ∷ fragment_tokens f64 id n

abbrev pub compiled_node : F64 → Text → Option Node → Option Fragment
compiled_node f64 id none = none
compiled_node f64 id (some n) = some (to_sql f64 id n)

abbrev pub among : List Text → Fragment
among ids = (bytes "id IN (" ++ (marks_for ids ++ bytes ")"), text_binds ids)

unfoldable pub query_tokens : F64 → Text → Text → List Text → Option Node → List SqlToken
query_tokens f64 id target ids n = cond (is_in target) ∷ kw_and ∷ cond (among ids) ∷ gated f64 id n

unfoldable pub gate_tokens : F64 → Text → Row → Node → List SqlToken
gate_tokens f64 id r n =
    cond (is_in r.collection) ∷ kw_and ∷ cond (has_id r.id) ∷ kw_and ∷ fragment_tokens f64 id n

abbrev pub select : Text
select = bytes "SELECT id, data, created, updated FROM records WHERE "

abbrev pub exists : Text
exists = bytes "SELECT EXISTS(SELECT 1 FROM records WHERE "

pub spell-query_tokens :
    (f64 : F64) (id target : Text) (ids : List Text) (n : Option Node)
    → related_query target ids (compiled_node f64 id n) ≡ (
      select ++ (spell (query_tokens f64 id target ids n)).0,
      (spell (query_tokens f64 id target ids n)).1,
    )
unfolding related_query query_tokens spell bytes
spell-query_tokens f64 id target ids none = simp (append-nil)
spell-query_tokens f64 id target ids (some n) =
    rw (spell-fragment_tokens f64 id n) (simp (append_assoc))

pub spell-gate_tokens :
    (f64 : F64) (id : Text) (r : Row) (n : Node)
    → (gate_sql (to_sql f64 id n).0 ≡ exists ++ ((spell (gate_tokens f64 id r n)).0 ++ bytes ")"))
      × (text r.collection ∷ text r.id ∷ (to_sql f64 id n).1 ≡ (spell (gate_tokens f64 id r n)).1)
unfolding gate_sql gate_tokens spell bytes
spell-gate_tokens f64 id r n =
    (rw (spell-fragment_tokens f64 id n) refl, rw (spell-fragment_tokens f64 id n) refl)

-- what the gate is worth on a row
abbrev pub worth : (Fragment → Truth) → F64 → Text → Option Node → Truth
worth v f64 id none = holds
worth v f64 id (some n) = meaning v f64 id n

pub query-value :
    (v : Fragment → Truth) (f64 : F64) (id target : Text) (ids : List Text) (n : Option Node)
    → where_value v (query_tokens f64 id target ids n)
      ≡ and3 (and3 (v (is_in target)) (v (among ids))) (worth v f64 id n)
unfolding where_value read query_tokens
query-value v f64 id target ids none = ground arith
query-value v f64 id target ids (some n) =
    rw (← append-nil (fragment_tokens f64 id n)) (read-fragment_tokens v f64 id n _ [] [])

pub gate-value :
    (v : Fragment → Truth) (f64 : F64) (id : Text) (r : Row) (n : Node)
    → where_value v (gate_tokens f64 id r n)
      ≡ and3 (and3 (v (is_in r.collection)) (v (has_id r.id))) (meaning v f64 id n)
unfolding where_value read gate_tokens
gate-value v f64 id r n =
    rw (← append-nil (fragment_tokens f64 id n)) (read-fragment_tokens v f64 id n _ [] [])
