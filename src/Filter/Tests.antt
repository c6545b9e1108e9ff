-- ===== src/Filter/Tests.antt =====
-- Runs of the parser and of both backends, after the unit tests of src/filter.rs.
use rockbase.Prelude.{
  ◌≡◌, ◌≢◌, refl, ◌↔◌, Bool, true, false, [], ◌∷◌, Text, bytes, contains, ok, err,
}
use rockbase.Prelude.Int.{pos}
use rockbase.Json.{Json, Fields}
use rockbase.Env.Samples.{f64_sample, serde_sample}
use rockbase.Filter.{
  filter, rule, eq, ne, gt, like, integer, text, Operand, col, auth, val, Node, or, cmp,
}
use rockbase.Filter.Scan.{
  ParseError, trailing, expected_field, expected_value, null_with, out_of_fuel,
}
use rockbase.Filter.Parser.{parse}
use rockbase.Filter.Parser.Total.{parse-ne-out_of_fuel, parse-IsChecked}
use rockbase.Filter.Checked.{IsChecked}
use rockbase.Filter.Runs.{runs}
use rockbase.Filter.Sql.{Fragment, compile, to_sql, like_pattern}
use rockbase.Filter.Sql.Values.{to_sql-SameShape}
use rockbase.Filter.Like.{like_matches, like_pattern-contains}
use rockbase.Filter.Where.{
  Truth, holds, denied, and3, cond, kw_and, spell, where_value, fragment_tokens, meaning,
}
use rockbase.Filter.Where.Splice.{to_sql-splice, Agrees, to_sql-eval}
use rockbase.Filter.Eval.{eval, to_lower}

single_op :
    compile f64_sample (bytes "views>50")
    ≡ ok (bytes "(json_extract(data, '$.views') > ?)", integer (pos 50) ∷ [])
unfolding runs
single_op = refl

quote_escape :
    compile f64_sample (bytes "title='it''s'")
    ≡ ok (bytes "(json_extract(data, '$.title') = ?)", text (bytes "it's") ∷ [])
unfolding runs
quote_escape = refl

like_op :
    compile f64_sample (bytes "title!~'50%'")
    ≡ ok (
      bytes "(json_extract(data, '$.title') NOT LIKE ? ESCAPE '\\')",
      text (bytes "%50\\%%") ∷ [],
    )
unfolding runs
like_op = refl

null_op :
    compile f64_sample (bytes "status!=null")
    ≡ ok (bytes "(json_extract(data, '$.status') IS NOT NULL)", [])
unfolding runs
null_op = refl

precedence :
    compile f64_sample (bytes "(a=1 || b=2) && id='abc'")
    ≡ ok (
      bytes "((json_extract(data, '$.a') = ?) OR (json_extract(data, '$.b') = ?)) AND (id = ?)",
      integer (pos 1) ∷ integer (pos 2) ∷ text (bytes "abc") ∷ [],
    )
unfolding runs
precedence = refl

rejected :
    (parse f64_sample (bytes "foo;bar=1") filter ≡ err (ParseError.expected_operator 3))
    × (parse f64_sample (bytes "=5") filter ≡ err (expected_field 0))
    × (parse f64_sample (bytes "views>") filter ≡ err (expected_value 6))
    × (parse f64_sample (bytes "status>null") filter ≡ err (null_with gt))
    × (parse f64_sample (bytes "title='x' OR '1'='1'") filter ≡ err (trailing 10))
unfolding runs
rejected = (refl, refl, refl, refl, refl)

abbrev pub rock : Fields
rock = Fields.field (bytes "title") (Json.str (bytes "Rockbase")) Fields.end

-- LIKE ignores the case of ASCII letters, and `%` in a value is a literal.
abbrev pub verdict : Text → Bool
verdict s = elim (parse f64_sample s rule) [
  | ok n ↦ eval f64_sample serde_sample (bytes "u1") rock n
  | err e ↦ false
]

verdicts :
    (verdict (bytes "title ~ 'ROCK'") ≡ true)
    × (verdict (bytes "title !~ 'rock'") ≡ false)
    × (verdict (bytes "title ~ 'R%k'") ≡ false)
    × (verdict (bytes "@request.auth.id != '' && missing = null") ≡ true)
    × (verdict (bytes "@request.auth.id = owner") ≡ false)
unfolding runs
verdicts = (refl, refl, refl, refl, refl)

abbrev either : Text
either = bytes "a = 1 || title ~ 'x'"

abbrev either_node : Node
either_node =
    or (cmp (col (bytes "a")) eq (val (integer (pos 1))))
      (cmp (col (bytes "title")) like (val (text (bytes "x"))))

parse-either : parse f64_sample either rule ≡ ok either_node
unfolding runs
parse-either = refl

parse-ne-out_of_fuel_example : parse f64_sample (bytes "((a=1) && b") rule ≢ err out_of_fuel
parse-ne-out_of_fuel_example = parse-ne-out_of_fuel f64_sample (bytes "((a=1) && b") rule

parse-IsChecked_example : IsChecked rule either_node
parse-IsChecked_example = parse-IsChecked f64_sample either rule either_node parse-either

to_sql-SameShape_example :
    (to_sql f64_sample (bytes "u1") (cmp (col (bytes "a")) ne auth)).0
    ≡ (to_sql f64_sample (bytes "u2") (cmp (col (bytes "a")) ne (val (text (bytes "'--"))))).0
to_sql-SameShape_example =
    to_sql-SameShape f64_sample (bytes "u1") (bytes "u2") (cmp (col (bytes "a")) ne auth)
      (cmp (col (bytes "a")) ne (val (text (bytes "'--")))) (refl, refl, tt)

like_pattern-contains_example :
    like_matches false (like_pattern (bytes "50%")) (bytes "up 50% today")
    ≡ contains (to_lower (bytes "up 50% today")) (to_lower (bytes "50%"))
like_pattern-contains_example = like_pattern-contains (bytes "50%") (bytes "up 50% today")

-- a database where every condition holds but those with a bind
abbrev no_binds : Fragment → Truth
no_binds p = elim p.1 [ [] ↦ holds | _ ∷ _ ↦ denied ]

to_sql-splice_example :
    let ts = fragment_tokens f64_sample (bytes "u1") either_node in
    (spell ts ≡ to_sql f64_sample (bytes "u1") either_node)
    × (where_value no_binds (cond (bytes "id = ?", text (bytes "r") ∷ []) ∷ kw_and ∷ ts)
        ≡ and3 denied (meaning no_binds f64_sample (bytes "u1") either_node))
to_sql-splice_example =
    to_sql-splice no_binds f64_sample (bytes "u1") either_node
      (bytes "id = ?", text (bytes "r") ∷ [])

abbrev missing_node : Node
missing_node = cmp (col (bytes "gone")) eq Operand.null

missing-Agrees : Agrees no_binds f64_sample serde_sample (bytes "u1") rock missing_node
unfolding runs
missing-Agrees = (λ _. refl, λ _. refl)

to_sql-eval_example :
    let ts = fragment_tokens f64_sample (bytes "u1") missing_node in
    (spell ts ≡ to_sql f64_sample (bytes "u1") missing_node)
    × ((where_value no_binds (cond (bytes "1", []) ∷ kw_and ∷ ts) ≡ holds)
        ↔ ((holds ≡ holds) × (eval f64_sample serde_sample (bytes "u1") rock missing_node ≡ true)))
to_sql-eval_example =
    to_sql-eval no_binds f64_sample serde_sample (bytes "u1") rock missing_node (bytes "1", [])
      missing-Agrees
