-- ===== src/Filter/Runs.antt =====
-- Opens all that a run of the parser and of the backends goes through.
use rockbase.Prelude.{bytes, same, contains}
use rockbase.Ident.{ident_ok, is_word}
use rockbase.Filter.{spelling}
use rockbase.Filter.Scan.{eat, ws, parse_i64}
use rockbase.Filter.Parser.{comparison, close, parse}
use rockbase.Filter.Sql.{compile, to_sql}
use rockbase.Filter.Eval.{eval}

unfoldable pub runs : Unit {0}
unfolding bytes same contains ident_ok is_word spelling eat ws parse_i64 comparison close parse
    compile to_sql eval
runs = tt
