-- ===== src/Filter/Sql/Placeholders.antt =====
-- src/filter.rs: the `?` of a fragment against its binds.
use rockbase.Prelude.{
  ℕ, suc, ◌+◌, ◌≡◌, refl, ◌∙◌, Bool, true, false, ◌||◌, [], ◌∷◌, ◌++◌, Text, bytes, arith, ◌==◌,
  length, length-append, all, if◌then◌else◌, Bool-cases, inl, inr, ok, same,
}
use rockbase.Ident.{is_word, ident_ok, ident_ok-all}
use rockbase.Env.{F64}
use rockbase.Filter.{
  Mode, filter, rule, Op, eq, ne, like, not_like, spelling, Operand, col, auth, val, Node, or, and,
  cmp,
}
use rockbase.Filter.Parser.{parse}
use rockbase.Filter.Parser.Total.{parse-IsChecked}
use rockbase.Filter.Checked.{IsLeft, IsRight, IsChecked}
use rockbase.Filter.Sql.{
  Fragment, column_sql, operand_sql, null_sql, like_sql, compare_sql, cmp_sql, paren, is_or,
  node_sql, to_sql,
}

-- the placeholders of a text
unfoldable pub marks : Text → ℕ
marks [] = 0
marks (c ∷ s) = if c == b'?' then suc (marks s) else marks s

marks-append : (s t : Text) → marks (s ++ t) ≡ marks s + marks t
unfolding marks
marks-append [] t = omega arith
marks-append (c ∷ s) t = ground (arith, marks-append s t)

marks-name : (s : Text) → all is_word s ≡ true → marks s ≡ 0
unfolding marks is_word
marks-name [] h = refl
marks-name (c ∷ s) h = ground (arith, marks-name s)

abbrev IsBound : Fragment → Type 0
IsBound p = marks p.0 ≡ length p.1

marks-column : (f : Text) → ident_ok f ≡ true → marks (column_sql f) ≡ 0
unfolding column_sql marks
marks-column f h =
    let name = marks-name f (ident_ok-all f h) in
    elim (Bool-cases
      (same f (bytes "id") || same f (bytes "created") || same f (bytes "updated"))) [
        | inl e ↦ rw e name
        | inr e ↦ rw e (omega (arith, marks-append f (bytes "')"), name))
      ]

abbrev IsNamed : Operand → Type 0
IsNamed (col f) = ident_ok f ≡ true
IsNamed _ = Unit

IsLeft-IsNamed : (o : Operand) → IsLeft o → IsNamed o
IsLeft-IsNamed (col f) h = h
IsLeft-IsNamed _ h = tt

IsRight-IsNamed : (mode : Mode) (o : Operand) → IsRight mode o → IsNamed o
IsRight-IsNamed rule (col f) h = h
IsRight-IsNamed filter (col f) h = absurd h
IsRight-IsNamed mode _ h = tt

operand_sql-IsBound : (id : Text) (o : Operand) → IsNamed o → IsBound (operand_sql id o)
unfolding operand_sql marks
operand_sql-IsBound id (col f) h = marks-column f h
operand_sql-IsBound id auth h = refl
operand_sql-IsBound id (val v) h = refl
operand_sql-IsBound id Operand.null h = refl

null_sql-IsBound : (id : Text) (op : Op) (l : Operand) → IsNamed l → IsBound (null_sql id op l)
unfolding null_sql marks
null_sql-IsBound id ne l h =
    omega
      (arith, marks-append (operand_sql id l).0 (bytes " IS NOT NULL)"), operand_sql-IsBound id l h)
null_sql-IsBound id _ l h =
    omega (arith, marks-append (operand_sql id l).0 (bytes " IS NULL)"), operand_sql-IsBound id l h)

like_sql-IsBound :
    (f64 : F64) (id : Text) (op : Op) (l r : Operand) → IsNamed l → IsBound (like_sql f64 id op l r)
unfolding like_sql marks
like_sql-IsBound f64 id not_like l r h = omega (
  arith,
  marks-append (operand_sql id l).0 (bytes " NOT LIKE ? ESCAPE '\\')"),
  length-append {0} (operand_sql id l).1 (_ ∷ []),
  operand_sql-IsBound id l h,
)
like_sql-IsBound f64 id _ l r h = omega (
  arith,
  marks-append (operand_sql id l).0 (bytes " LIKE ? ESCAPE '\\')"),
  length-append {0} (operand_sql id l).1 (_ ∷ []),
  operand_sql-IsBound id l h,
)

marks-spelling : (op : Op) → marks (spelling op) ≡ 0
unfolding marks spelling
marks-spelling eq = refl
marks-spelling _ = refl

compare_sql-IsBound :
    (id : Text) (op : Op) (l r : Operand) → IsNamed l → IsNamed r → IsBound (compare_sql id op l r)
unfolding compare_sql marks
compare_sql-IsBound id op l r h k =
    let (ls, lb) = operand_sql id l in
    let (rs, rb) = operand_sql id r in
    omega (
      arith,
      marks-append ls (bytes " " ++ (spelling op ++ (bytes " " ++ (rs ++ bytes ")")))),
      marks-append (spelling op) (bytes " " ++ (rs ++ bytes ")")),
      marks-append rs (bytes ")"),
      marks-spelling op,
      length-append {0} lb rb,
      operand_sql-IsBound id l h,
      operand_sql-IsBound id r k,
    )

cmp_sql-IsBound :
    (f64 : F64) (id : Text) (l : Operand) (op : Op) (r : Operand)
    → IsNamed l
    → IsNamed r
    → IsBound (cmp_sql f64 id l op r)
unfolding cmp_sql
cmp_sql-IsBound f64 id l op Operand.null h k = null_sql-IsBound id op l h
cmp_sql-IsBound f64 id l like r h k = like_sql-IsBound f64 id like l r h
cmp_sql-IsBound f64 id l not_like r h k = like_sql-IsBound f64 id not_like l r h
cmp_sql-IsBound f64 id l op r h k = compare_sql-IsBound id op l r h k

marks-paren : (b : Bool) (s : Text) → marks (paren b s) ≡ marks s
unfolding paren marks
marks-paren true s = omega (arith, marks-append s (bytes ")"))
marks-paren false s = refl

node_sql-IsBound :
    (f64 : F64) (mode : Mode) (id : Text) (n : Node)
    → IsChecked mode n
    → IsBound (node_sql f64 id n)
unfolding node_sql marks
node_sql-IsBound f64 mode id (or a b) h =
    let (sa, ba) = node_sql f64 id a in
    let (sb, bb) = node_sql f64 id b in
    omega (
      arith,
      marks-append sa (bytes " OR " ++ sb),
      length-append {0} ba bb,
      node_sql-IsBound f64 mode id a h.0,
      node_sql-IsBound f64 mode id b h.1,
    )
node_sql-IsBound f64 mode id (and a b) h =
    let (sa, ba) = node_sql f64 id a in
    let (sb, bb) = node_sql f64 id b in
    omega (
      arith,
      marks-append (paren (is_or a) sa) (bytes " AND " ++ paren (is_or b) sb),
      marks-paren (is_or a) sa,
      marks-paren (is_or b) sb,
      length-append {0} ba bb,
      node_sql-IsBound f64 mode id a h.0,
      node_sql-IsBound f64 mode id b h.1,
    )
node_sql-IsBound f64 mode id (cmp l op r) h =
    cmp_sql-IsBound f64 id l op r (IsLeft-IsNamed l h.0) (IsRight-IsNamed mode r h.1)

-- The fragment of an accepted expression has exactly as many placeholders as binds, whoever the
-- caller is.
pub marks-to_sql :
    (f64 : F64) (mode : Mode) (s id : Text) (n : Node)
    → parse f64 s mode ≡ ok n
    → marks (to_sql f64 id n).0 ≡ length (to_sql f64 id n).1
unfolding to_sql
marks-to_sql f64 mode s id n e =
    marks-paren (is_or n) (node_sql f64 id n).0
    ∙ node_sql-IsBound f64 mode id n (parse-IsChecked f64 s mode n e)
