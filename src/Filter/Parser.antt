-- ===== src/Filter/Parser.antt =====
-- src/filter.rs: the recursive descent parser, from the bytes to a `Node`.
mod Operands
pub mod Total
use rockbase.Prelude.{
  ℕ, zero, suc, ◌+◌, ◌*◌, ◌≡◌, refl, Bool, true, false, Option, none, some, List, [], ◌∷◌, ◌++◌,
  Text, bytes, leb, ltb, ◌==◌, same, length, if◌then◌else◌, ◌||◌, Result, ok, err, ok_or, ◌>>=◌,
  ◌>>◌, not,
}
use rockbase.Ident.{ident_ok, is_ascii_whitespace, is_word}
use rockbase.Env.{F64}
use rockbase.Prelude.Int.{ℤ, pos}
use rockbase.Filter.{
  Mode, filter, rule, Op, eq, ne, gt, ge, lt, le, like, not_like, spelling, SqlValue, integer, real,
  text, Operand, col, auth, val, Node, or, and, cmp,
}
use rockbase.Filter.Scan.{
  ParseError, too_long, trailing, too_deep, expected_paren, expected_field, expected_operator,
  null_with, needs_literal, unterminated, expected_value, out_of_fuel, Cursor, Scan, take_while,
  drop_while, skip, ws, eat, parse_i64,
}

abbrev pub max_len : ℕ
max_len = 2048

abbrev pub max_depth : ℕ
max_depth = 32

unfoldable pub token : Text
unfolding bytes
token = bytes "@request.auth.id"

-- The loop of a quoted string, behind its opening quote; `''` is a quote of its own.
unfoldable pub quoted : ℕ → Text → Text → Scan Operand
quoted i [] s = err unterminated
quoted i (c ∷ []) s =
    if c == b'\'' then ok (val (text s), record { rest = []; at = i + 1 }) else err unterminated
quoted i (c ∷ d ∷ more) s =
    let escaped = quoted (i + 2) more (s ++ b'\'' ∷ []) in
    let longer = quoted (i + 1) (d ∷ more) (s ++ c ∷ []) in
    if c == b'\''
    then (if d == b'\'' then escaped else ok (val (text s), record { rest = d ∷ more; at = i + 1 }))
    else longer

-- the bytes that end a bareword are white space and `( ) & | '`
unfoldable pub is_bare : ℕ → Bool
unfolding is_ascii_whitespace
is_bare c =
    not (c == b'(' || c == b')' || c == b'&' || c == b'|' || c == b'\'' || is_ascii_whitespace c)

-- the last three of the readings of a bareword, by the results of the two number parsers
unfoldable pub number_or_word : Option ℤ → Option ℕ → Mode → ℕ → Text → Result ParseError Operand
number_or_word (some n) f mode start w = ok (val (integer n))
number_or_word none (some f) mode start w = ok (val (real f))
number_or_word none none rule start w =
    if ident_ok w then ok (col w) else err (expected_field start)
number_or_word none none filter start w = ok (val (text w))

-- what the word behind `start` stands for
unfoldable pub bareword : F64 → Mode → ℕ → Text → Result ParseError Operand
unfolding bytes number_or_word
bareword f64 mode start [] = err (expected_value start)
bareword f64 mode start (b ∷ bs) =
    let w = b ∷ bs in
    if same w token
    then ok auth
    else if same w (bytes "true")
    then ok (val (integer (pos 1)))
    else if same w (bytes "false")
    then ok (val (integer (pos 0)))
    else if same w (bytes "null")
    then ok Operand.null
    else number_or_word (parse_i64 w) (f64.parse w) mode start w

unfoldable pub value : F64 → Mode → Cursor → Scan Operand
unfolding bytes is_bare quoted bareword
value f64 mode c = elim (eat (bytes "'") c) [
  | some c₁ ↦ quoted c₁.at c₁.rest []
  | none ↦ do o ← bareword f64 mode c.at (take_while is_bare c.rest); ok (o, skip is_bare c)
]

-- two-byte operators before their one-byte prefixes
abbrev pub operators : List Op
operators = ne ∷ not_like ∷ ge ∷ le ∷ eq ∷ gt ∷ lt ∷ like ∷ []

-- the first operator of the list that the input starts with
unfoldable pub eat_first : List Op → Cursor → Option (Op × Cursor)
eat_first [] c = none
eat_first (o ∷ os) c = elim (eat (spelling o) c) [ some c₁ ↦ some (o, c₁) | none ↦ eat_first os c ]

-- the left side: the token, or a column
unfoldable pub left_side : Cursor → Scan Operand
unfolding token
left_side c = elim (eat token c) [
  | some c₁ ↦ ok (auth, c₁)
  | none ↦
      let field = take_while is_word c.rest in
      if ident_ok field then ok (col field, skip is_word c) else err (expected_field c.at)
]

-- the right sides that an operator does not take
unfoldable pub check_right : Op → Operand → ℕ → Result ParseError (Unit {0})
check_right eq Operand.null at = ok tt
check_right ne Operand.null at = ok tt
check_right op Operand.null at = err (null_with op)
check_right like (col f) at = err (needs_literal like at)
check_right not_like (col f) at = err (needs_literal not_like at)
check_right op rhs at = ok tt

unfoldable pub comparison : F64 → Mode → Cursor → Scan Node
unfolding left_side eat_first value check_right
comparison f64 mode c = do
  (lhs, c₁) ← left_side (ws c)
  let c₂ = ws c₁
  (op, c₃) ← ok_or (eat_first operators c₂) (expected_operator c₂.at)
  (rhs, c₄) ← value f64 mode (ws c₃)
  check_right op rhs c₄.at
  ok (cmp lhs op rhs, c₄)

-- the closing parenthesis of a nested expression
unfoldable pub close : Node → Cursor → Scan Node
unfolding bytes
close n c = elim (eat (bytes ")") c) [ none ↦ err (expected_paren c.at) | some c₁ ↦ ok (n, c₁) ]

-- The grammar, on fuel: what a call leaves of the input is no structural part of it.
unfoldable mutual
  pub expr : F64 → Mode → ℕ → ℕ → Cursor → Scan Node
  expr f64 mode zero depth c = err out_of_fuel
  expr f64 mode (suc f) depth c = do
    (n, c₁) ← conj f64 mode f depth c
    expr_loop f64 mode f depth n c₁

  -- the loop of `expr`, with the node read so far
  pub expr_loop : F64 → Mode → ℕ → ℕ → Node → Cursor → Scan Node
  expr_loop f64 mode zero depth n c = err out_of_fuel
  expr_loop f64 mode (suc f) depth n c = elim (eat (bytes "||") (ws c)) [
    | none ↦ ok (n, ws c)
    | some c₁ ↦ do (m, c₂) ← conj f64 mode f depth c₁; expr_loop f64 mode f depth (or n m) c₂
  ]

  -- the method `and`
  pub conj : F64 → Mode → ℕ → ℕ → Cursor → Scan Node
  conj f64 mode zero depth c = err out_of_fuel
  conj f64 mode (suc f) depth c = do
    (n, c₁) ← unit f64 mode f depth c
    conj_loop f64 mode f depth n c₁

  -- the loop of `and`
  pub conj_loop : F64 → Mode → ℕ → ℕ → Node → Cursor → Scan Node
  conj_loop f64 mode zero depth n c = err out_of_fuel
  conj_loop f64 mode (suc f) depth n c = elim (eat (bytes "&&") (ws c)) [
    | none ↦ ok (n, ws c)
    | some c₁ ↦ do (m, c₂) ← unit f64 mode f depth c₁; conj_loop f64 mode f depth (and n m) c₂
  ]

  pub unit : F64 → Mode → ℕ → ℕ → Cursor → Scan Node
  unit f64 mode zero depth c = err out_of_fuel
  unit f64 mode (suc f) depth c = elim (eat (bytes "(") (ws c)) [
    | none ↦ comparison f64 mode (ws c)
    | some c₁ ↦
        let nested = expr f64 mode f (depth + 1) c₁ >>= λ (n, c₂). close n (ws c₂) in
        if leb max_depth depth then err too_deep else nested
  ]

-- nothing may follow the expression
unfoldable pub finish : Node → Cursor → Result ParseError Node
finish n c = if ltb 0 (length c.rest) then err (trailing c.at) else ok n

unfoldable pub parse : F64 → Text → Mode → Result ParseError Node
unfolding expr finish
parse f64 input mode = if ltb max_len (length input) then err too_long else do
  (n, c) ← expr f64 mode (3 * length input + 3) 0 (record { rest = input; at = 0 })
  finish n (ws c)
