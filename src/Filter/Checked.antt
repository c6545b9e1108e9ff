-- ===== src/Filter/Checked.antt =====
-- The operands and operators that the parser of src/filter.rs lets through.
use rockbase.Prelude.{◌≡◌, true}
use rockbase.Ident.{ident_ok}
use rockbase.Filter.{
  Mode, filter, rule, Op, eq, ne, like, not_like, SqlValue, Operand, col, auth, val, Node, or, and,
  cmp,
}

-- A left side is a column with an identifier for its name, or the caller's id.
abbrev pub IsLeft : Operand → Type 0
IsLeft (col f) = ident_ok f ≡ true
IsLeft auth = Unit
IsLeft (val v) = ⊥
IsLeft Operand.null = ⊥

-- A parsed literal is an integer, a float or a text.
abbrev pub IsLiteral : SqlValue → Type 0
IsLiteral SqlValue.null = ⊥
IsLiteral (SqlValue.blob b) = ⊥
IsLiteral _ = Unit

-- A right side is a literal, null or the caller's id; in a rule, an identifier too.
abbrev pub IsRight : Mode → Operand → Type 0
IsRight rule (col f) = ident_ok f ≡ true
IsRight filter (col f) = ⊥
IsRight mode auth = Unit
IsRight mode (val v) = IsLiteral v
IsRight mode Operand.null = Unit

-- `null` goes with `=` and `!=` alone, and a pattern is no column.
abbrev pub Takes : Op → Operand → Type 0
Takes eq rhs = Unit
Takes ne rhs = Unit
Takes like (col f) = ⊥
Takes not_like (col f) = ⊥
Takes op Operand.null = ⊥
Takes op rhs = Unit

abbrev pub IsChecked : Mode → Node → Type 0
IsChecked mode (or a b) = IsChecked mode a × IsChecked mode b
IsChecked mode (and a b) = IsChecked mode a × IsChecked mode b
IsChecked mode (cmp l op r) = IsLeft l × IsRight mode r × Takes op r
