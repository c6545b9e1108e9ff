-- ===== src/Filter/Print/Tests.antt =====
-- An expression that is printed and parsed.
use rockbase.Prelude.{◌≡◌, refl, ok, bytes, arith, length, ◌≤◌}
use rockbase.Ident.{ident_ok, is_word, is_ascii_alphanumeric, is_digit}
use rockbase.Env.Samples.{f64_sample}
use rockbase.Filter.{
  rule, eq, ne, like, text, Operand, col, auth, val, Node, or, and, cmp, spelling,
}
use rockbase.Filter.Parser.{parse}
use rockbase.Filter.Print.{print, nest, IsPrinted}
use rockbase.Filter.Print.RoundTrip.{parse-print}

-- (title='it''s'||views!=null)&&tag~'x'||@request.auth.id=@request.auth.id
abbrev sample : Node
sample =
    or
      (and
        (or (cmp (col (bytes "title")) eq (val (text (bytes "it's"))))
          (cmp (col (bytes "views")) ne Operand.null))
        (cmp (col (bytes "tag")) like (val (text (bytes "x")))))
      (cmp auth eq auth)

printed :
    print sample ≡ bytes "(title='it''s'||views!=null)&&tag~'x'||@request.auth.id=@request.auth.id"
unfolding print bytes spelling
printed = refl

sample-IsPrinted : IsPrinted sample
unfolding ident_ok is_word is_ascii_alphanumeric is_digit bytes
sample-IsPrinted = ((((refl, tt), (refl, tt)), (refl, tt)), (tt, tt))

one_deep : nest sample ≤ 32
unfolding nest
one_deep = omega arith

short : length (print sample) ≤ 2048
unfolding print bytes spelling
short = omega arith

parse-print_example : parse f64_sample (print sample) rule ≡ ok sample
parse-print_example = parse-print f64_sample rule sample sample-IsPrinted one_deep short
