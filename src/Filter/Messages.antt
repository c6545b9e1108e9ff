-- ===== src/Filter/Messages.antt =====
-- The texts of the parser's errors in src/filter.rs.
use rockbase.Prelude.{◌++◌, Text, bytes}
use rockbase.Prelude.Decimal.{nat_text}
use rockbase.Filter.{spelling}
use rockbase.Filter.Scan.{
  ParseError, too_long, trailing, too_deep, expected_paren, expected_field, expected_operator,
  null_with, needs_literal, unterminated, expected_value, out_of_fuel,
}

unfoldable pub message : ParseError → Text
unfolding bytes nat_text spelling
message too_long = bytes "filter too long"
message (trailing i) = bytes "unexpected trailing input at byte " ++ nat_text i
message too_deep = bytes "filter nesting too deep"
message (expected_paren i) = bytes "expected ')' at byte " ++ nat_text i
message (expected_field i) = bytes "expected field name at byte " ++ nat_text i
message (expected_operator i) = bytes "expected operator at byte " ++ nat_text i
message (null_with o) = bytes "null not allowed with '" ++ (spelling o ++ bytes "'")
message (needs_literal o i) =
    bytes "'" ++ (spelling o ++ (bytes "' needs a literal at byte " ++ nat_text i))
message unterminated = bytes "unterminated string"
message (expected_value i) = bytes "expected value at byte " ++ nat_text i
message out_of_fuel = bytes "out of fuel"
