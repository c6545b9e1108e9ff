-- ===== src/Filter/Print.antt =====
-- An independent printer of the expressions of src/filter.rs, with the parentheses that the grammar
-- needs and no others.
pub mod Leaves
pub mod Comparison
pub mod Grammar
pub mod Levels
pub mod RoundTrip
mod Tests
use rockbase.Prelude.{
  ℕ, suc, ◌+◌, ◌≡◌, Bool, true, false, not, ◌||◌, Option, List, [], ◌∷◌, ◌++◌, Text, bytes, ltb,
  ◌==◌, if◌then◌else◌,
}
use rockbase.Ident.{ident_ok}
use rockbase.Filter.{
  Op, eq, ne, spelling, SqlValue, text, Operand, col, auth, val, Node, or, and, cmp,
}
use rockbase.Filter.Parser.{token}

-- a quote inside a text is doubled
abbrev pub quote : Text → Text
quote [] = []
quote (c ∷ s) = let rest = quote s in if c == b'\'' then b'\'' ∷ b'\'' ∷ rest else c ∷ rest

unfoldable pub left_text : Operand → Text
unfolding token
left_text (col f) = f
left_text _ = token

unfoldable pub right_text : Operand → Text
unfolding bytes token
right_text (val (text s)) = b'\'' ∷ (quote s ++ b'\'' ∷ [])
right_text Operand.null = bytes "null"
right_text _ = token

abbrev pub is_or : Node → Bool
is_or (or a b) = true
is_or _ = false

abbrev pub is_compound : Node → Bool
is_compound (cmp l op r) = false
is_compound _ = true

abbrev pub wrap : Bool → Text → Text
wrap true s = b'(' ∷ (s ++ b')' ∷ [])
wrap false s = s

unfoldable pub print : Node → Text
unfolding bytes left_text right_text
print (cmp l op r) = left_text l ++ (spelling op ++ right_text r)
print (and a b) = wrap (is_or a) (print a) ++ (bytes "&&" ++ wrap (is_compound b) (print b))
print (or a b) = print a ++ (bytes "||" ++ wrap (is_or b) (print b))

-- a node as a unit, and as a conjunct
abbrev pub unit_text : Node → Text
unit_text n = wrap (is_compound n) (print n)

abbrev pub conj_text : Node → Text
conj_text n = wrap (is_or n) (print n)

abbrev larger : ℕ → ℕ → ℕ
larger m n = if ltb m n then n else m

abbrev pub extra : Bool → ℕ → ℕ
extra true n = suc n
extra false n = n

-- how deep the parentheses go
unfoldable pub nest : Node → ℕ
nest (cmp l op r) = 0
nest (and a b) = larger (extra (is_or a) (nest a)) (extra (is_compound b) (nest b))
nest (or a b) = larger (nest a) (extra (is_or b) (nest b))

-- The comparisons that are printed: a column or the caller's id, against a text, the caller's id or,
-- for `=` and `!=`, null.
abbrev pub IsLeft : Operand → Type 0
IsLeft (col f) = ident_ok f ≡ true
IsLeft auth = Unit
IsLeft _ = ⊥

abbrev pub IsEquality : Op → Type 0
IsEquality eq = Unit
IsEquality ne = Unit
IsEquality _ = ⊥

abbrev pub IsRight : Operand → Op → Type 0
IsRight (val (text s)) op = Unit
IsRight auth op = Unit
IsRight Operand.null op = IsEquality op
IsRight _ op = ⊥

abbrev pub IsPrinted : Node → Type 0
IsPrinted (or a b) = IsPrinted a × IsPrinted b
IsPrinted (and a b) = IsPrinted a × IsPrinted b
IsPrinted (cmp l op r) = IsLeft l × IsRight r op
