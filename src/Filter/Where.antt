-- ===== src/Filter/Where.antt =====
-- How SQLite reads a WHERE clause that src/filter.rs takes part in: an independent reader of the
-- grammar `OR` below `AND` below parentheses, over the three truth values of SQL.
pub mod Spelling
pub mod Splice
pub mod Clause
use rockbase.Prelude.{
  ◌≡◌, refl, ap, ap₂, ◌∙◌, ◌↔◌, ◌⊎◌, inl, inr, Bool, true, false, ◌&&◌, ◌||◌, List, [], ◌∷◌, ◌++◌,
  append_assoc, append-nil, Text, bytes, arith, Result, ok,
}
use rockbase.Json.{Fields}
use rockbase.Env.{F64, Serde}
use rockbase.Filter.{Op, Operand, Node, or, and, cmp}
use rockbase.Filter.Sql.{Fragment, cmp_sql, paren, is_or, node_sql, to_sql}
use rockbase.Filter.Eval.{eval, eval_cmp}

pub data Truth : Type 0 where
  holds denied unknown : Truth

abbrev pub and3 : Truth → Truth → Truth
and3 denied q = denied
and3 holds q = q
and3 unknown denied = denied
and3 unknown q = unknown

abbrev pub or3 : Truth → Truth → Truth
or3 holds q = holds
or3 denied q = q
or3 unknown holds = holds
or3 unknown q = unknown

-- A condition is a fragment with no connective outside its own parentheses.
pub data SqlToken : Type 0 where
  cond : Fragment → SqlToken
  kw_and kw_or open_paren close_paren : SqlToken

-- the text and the binds of a list of tokens
unfoldable pub spell : List SqlToken → Fragment
unfolding bytes
spell [] = ([], [])
spell (cond (s, b) ∷ ts) = let (t, c) = spell ts in (s ++ t, b ++ c)
spell (kw_and ∷ ts) = let (t, c) = spell ts in (bytes " AND " ++ t, c)
spell (kw_or ∷ ts) = let (t, c) = spell ts in (bytes " OR " ++ t, c)
spell (open_paren ∷ ts) = let (t, c) = spell ts in (bytes "(" ++ t, c)
spell (close_paren ∷ ts) = let (t, c) = spell ts in (bytes ")" ++ t, c)

-- What one level of parentheses has read: the disjuncts behind it, and the conjuncts of this one.
pub record Level : Type 0 where
  pub ors : Truth
  pub ands : Truth

abbrev pub fresh : Level
fresh = record { ors = denied; ands = holds }

abbrev pub value : Level → Truth
value l = or3 l.ors l.ands

abbrev pub conjoin : Truth → Level → Level
conjoin t l = record l { ands = and3 l.ands t }

-- Reads tokens from left to right, `AND` binding tighter than `OR`.
unfoldable pub read : (Fragment → Truth) → Level → List Level → List SqlToken → Truth
read v l up [] = value l
read v l up (cond p ∷ ts) = read v (conjoin (v p) l) up ts
read v l up (kw_and ∷ ts) = read v l up ts
read v l up (kw_or ∷ ts) = read v (record { ors = value l; ands = holds }) up ts
read v l up (open_paren ∷ ts) = read v fresh (l ∷ up) ts
read v l [] (close_paren ∷ ts) = unknown
read v l (outer ∷ up) (close_paren ∷ ts) = read v (conjoin (value l) outer) up ts

-- the truth value of a WHERE clause
unfoldable pub where_value : (Fragment → Truth) → List SqlToken → Truth
unfolding read
where_value v ts = read v fresh [] ts

wrapped : Bool → List SqlToken → List SqlToken
wrapped true ts = open_paren ∷ (ts ++ close_paren ∷ [])
wrapped false ts = ts

node_tokens : F64 → Text → Node → List SqlToken
node_tokens f64 id (or a b) = node_tokens f64 id a ++ kw_or ∷ node_tokens f64 id b
node_tokens f64 id (and a b) =
    wrapped (is_or a) (node_tokens f64 id a) ++ kw_and ∷ wrapped (is_or b) (node_tokens f64 id b)
node_tokens f64 id (cmp l op r) = cond (cmp_sql f64 id l op r) ∷ []

-- the tokens of a compiled expression
unfoldable pub fragment_tokens : F64 → Text → Node → List SqlToken
unfolding node_tokens wrapped
fragment_tokens f64 id n = wrapped (is_or n) (node_tokens f64 id n)

-- What the expression means in SQL: its tree, over the truth values of its comparisons.
unfoldable pub meaning : (Fragment → Truth) → F64 → Text → Node → Truth
meaning v f64 id (or a b) = or3 (meaning v f64 id a) (meaning v f64 id b)
meaning v f64 id (and a b) = and3 (meaning v f64 id a) (meaning v f64 id b)
meaning v f64 id (cmp l op r) = v (cmp_sql f64 id l op r)
