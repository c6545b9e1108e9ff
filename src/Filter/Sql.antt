-- ===== src/Filter/Sql.antt =====
-- src/filter.rs: compilation of a `Node` to a WHERE fragment and its binds.
pub mod Placeholders
pub mod Values
use rockbase.Prelude.{
  Bool, true, false, ◌||◌, List, [], ◌∷◌, ◌++◌, Text, bytes, ◌==◌, same, if◌then◌else◌, Result, ok,
  ◌>>=◌,
}
use rockbase.Prelude.Decimal.{int_text}
use rockbase.Env.{F64}
use rockbase.Filter.{
  filter, Op, ne, like, not_like, spelling, SqlValue, integer, real, text, Operand, col, auth, val,
  Node, or, and, cmp,
}
use rockbase.Filter.Scan.{ParseError}
use rockbase.Filter.Parser.{parse}

abbrev pub Fragment : Type 0
Fragment = Text × List SqlValue

-- what an operand writes for a column: its own column, or its path in the JSON of the record
unfoldable pub column_sql : Text → Text
unfolding bytes
column_sql f =
    if same f (bytes "id") || same f (bytes "created") || same f (bytes "updated")
    then f
    else bytes "json_extract(data, '$." ++ (f ++ bytes "')")

-- `Operand::sql`: the text, and what it pushes
unfoldable pub operand_sql : Text → Operand → Fragment
unfolding column_sql bytes
operand_sql id (col f) = (column_sql f, [])
operand_sql id auth = (bytes "?", text id ∷ [])
operand_sql id (val v) = (bytes "?", v ∷ [])
operand_sql id Operand.null = (bytes "NULL", [])

unfoldable pub like_escape : Text → Text
like_escape [] = []
like_escape (c ∷ s) =
    if c == b'%' || c == b'_' || c == b'\\' then b'\\' ∷ c ∷ like_escape s else c ∷ like_escape s

-- the text that a pattern stands for; the parser rejects every other shape
unfoldable pub pattern_text : F64 → Text → Operand → Text
unfolding int_text
pattern_text f64 id auth = id
pattern_text f64 id (val (text s)) = s
pattern_text f64 id (val (integer n)) = int_text n
pattern_text f64 id (val (real f)) = f64.print f
pattern_text f64 id _ = []

-- the bind of a pattern
unfoldable pub like_pattern : Text → Text
unfolding like_escape
like_pattern s = b'%' ∷ (like_escape s ++ b'%' ∷ [])

-- the `not` of either arm
unfoldable pub null_word : Op → Text
unfolding bytes
null_word ne = bytes "NOT "
null_word _ = []

unfoldable pub like_word : Op → Text
unfolding bytes
like_word not_like = bytes "NOT "
like_word _ = []

-- `x IS NULL`, `x IS NOT NULL`
unfoldable pub null_sql : Text → Op → Operand → Fragment
unfolding bytes operand_sql null_word
null_sql id op l =
    let (ls, lb) = operand_sql id l in
    (bytes "(" ++ (ls ++ (bytes " IS " ++ (null_word op ++ bytes "NULL)"))), lb)

-- `x LIKE ? ESCAPE '\'`; the bind of the left side is pushed before the pattern
unfoldable pub like_sql : F64 → Text → Op → Operand → Operand → Fragment
unfolding bytes operand_sql like_word pattern_text like_pattern
like_sql f64 id op l r =
    let (ls, lb) = operand_sql id l in
    (
      bytes "(" ++ (ls ++ (bytes " " ++ (like_word op ++ bytes "LIKE ? ESCAPE '\\')"))),
      lb ++ text (like_pattern (pattern_text f64 id r)) ∷ [],
    )

unfoldable pub compare_sql : Text → Op → Operand → Operand → Fragment
unfolding bytes operand_sql spelling
compare_sql id op l r =
    let (ls, lb) = operand_sql id l in
    let (rs, rb) = operand_sql id r in
    (
      bytes "(" ++ (ls ++ (bytes " " ++ (spelling op ++ (bytes " " ++ (rs ++ bytes ")"))))),
      lb ++ rb,
    )

-- the three arms of `Node::sql` for a comparison, in their order
unfoldable pub cmp_sql : F64 → Text → Operand → Op → Operand → Fragment
unfolding null_sql like_sql compare_sql
cmp_sql f64 id l op Operand.null = null_sql id op l
cmp_sql f64 id l like r = like_sql f64 id like l r
cmp_sql f64 id l not_like r = like_sql f64 id not_like l r
cmp_sql f64 id l op r = compare_sql id op l r

abbrev pub is_or : Node → Bool
is_or (or a b) = true
is_or _ = false

-- parentheses round an OR, and round nothing else
unfoldable pub paren : Bool → Text → Text
unfolding bytes
paren true s = bytes "(" ++ (s ++ bytes ")")
paren false s = s

-- `Node::sql`
unfoldable pub node_sql : F64 → Text → Node → Fragment
unfolding bytes cmp_sql paren
node_sql f64 id (or a b) =
    let (sa, ba) = node_sql f64 id a in
    let (sb, bb) = node_sql f64 id b in (sa ++ (bytes " OR " ++ sb), ba ++ bb)
node_sql f64 id (and a b) =
    let (sa, ba) = node_sql f64 id a in
    let (sb, bb) = node_sql f64 id b in
    (paren (is_or a) sa ++ (bytes " AND " ++ paren (is_or b) sb), ba ++ bb)
node_sql f64 id (cmp l op r) = cmp_sql f64 id l op r

unfoldable pub to_sql : F64 → Text → Node → Fragment
unfolding node_sql paren
to_sql f64 id n = let (s, binds) = node_sql f64 id n in (paren (is_or n) s, binds)

unfoldable pub compile : F64 → Text → Result ParseError Fragment
unfolding parse to_sql
compile f64 input = do n ← parse f64 input filter; ok (to_sql f64 [] n)
