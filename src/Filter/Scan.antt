-- ===== src/Filter/Scan.antt =====
-- src/filter.rs: the cursor of the parser and its scanning loops, and the integer syntax of
-- `str::parse::<i64>`.
pub mod Lengths
use rockbase.Prelude.{
  ℕ, suc, ◌+◌, ◌*◌, ◌-◌, ◌≤◌, ◌<◌, ◌≡◌, Bool, true, false, Option, none, some, List, [], ◌∷◌, ◌++◌,
  Text, bytes, arith, leb, ltb, ◌==◌, starts_with, length, if◌then◌else◌, Result, ok, err,
}
use rockbase.Prelude.Int.{ℤ, pos, negate, i64_half}
use rockbase.Ident.{is_digit, is_ascii_whitespace, is_word}
use rockbase.Filter.{Op}

-- Each message of the parser, with the values that it is formatted from.
pub data ParseError : Type 0 where
  too_long : ParseError
  trailing : ℕ → ParseError
  too_deep : ParseError
  expected_paren : ℕ → ParseError
  expected_field : ℕ → ParseError
  expected_operator : ℕ → ParseError
  null_with : Op → ParseError
  needs_literal : Op → ℕ → ParseError
  unterminated : ParseError
  expected_value : ℕ → ParseError
  out_of_fuel : ParseError

-- The bytes from `b[i]` on, and `i`.
pub record Cursor : Type 0 where
  pub rest : Text
  pub at : ℕ

abbrev pub Scan : Type 0 → Type 0
Scan A = Result ParseError (A × Cursor)

unfoldable pub take_while : (ℕ → Bool) → Text → Text
take_while p [] = []
take_while p (c ∷ s) = if p c then c ∷ take_while p s else []

unfoldable pub drop_while : (ℕ → Bool) → Text → Text
drop_while p [] = []
drop_while p (c ∷ s) = if p c then drop_while p s else c ∷ s

-- `while i < b.len() && p(b[i]) { i += 1 }`
unfoldable pub skip : (ℕ → Bool) → Cursor → Cursor
unfolding take_while drop_while
skip p c = record { rest = drop_while p c.rest; at = c.at + length (take_while p c.rest) }

unfoldable pub ws : Cursor → Cursor
unfolding skip is_ascii_whitespace
ws c = skip is_ascii_whitespace c

unfoldable pub drop : ℕ → Text → Text
drop ℕ.zero s = s
drop (suc n) [] = []
drop (suc n) (c ∷ s) = drop n s

-- The cursor behind the token, or `none`, and then nothing is read.
unfoldable pub eat : Text → Cursor → Option Cursor
unfolding drop starts_with
eat tok c =
    if starts_with c.rest tok
    then some (record { rest = drop (length tok) c.rest; at = c.at + length tok })
    else none

digits : ℕ → Text → Option ℕ
digits n [] = some n
digits n (c ∷ s) = let more = digits (n * 10 + (c - b'0')) s in if is_digit c then more else none

-- at least one digit, and the value at most `limit`
magnitude : ℕ → Text → Option ℕ
magnitude limit [] = none
magnitude limit (c ∷ s) = elim (digits 0 (c ∷ s)) [
  | none ↦ none
  | some n ↦ if leb n limit then some n else none
]

abbrev map_int : (ℕ → ℤ) → Option ℕ → Option ℤ
map_int f none = none
map_int f (some n) = some (f n)

-- `w.parse::<i64>()`
unfoldable pub parse_i64 : Text → Option ℤ
unfolding magnitude digits is_digit
parse_i64 [] = none
parse_i64 (c ∷ s) =
    if c == b'-'
    then map_int negate (magnitude i64_half s)
    else if c == b'+'
    then map_int pos (magnitude (i64_half - 1) s)
    else map_int pos (magnitude (i64_half - 1) (c ∷ s))
