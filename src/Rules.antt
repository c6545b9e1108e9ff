-- ===== src/Rules.antt =====
-- src/rules.rs: the per-collection API rules.
pub mod Defaults
mod Tests
use rockbase.Prelude.{
  Bool, false, Option, none, some, [], ◌∷◌, Text, bytes, same, if◌then◌else◌, Result, ok, err,
}
use rockbase.Json.{Fields}
use rockbase.Env.{F64, Serde}
use rockbase.Http.{Failure, failure, Reply, unauthorized, forbidden}
use rockbase.Auth.{Who, admin, user, guest}
use rockbase.Filter.{rule, Node}
use rockbase.Filter.Scan.{ParseError}
use rockbase.Filter.Parser.{parse}
use rockbase.Filter.Sql.{Fragment, to_sql}
use rockbase.Filter.Eval.{eval}

-- The five rules of a collection: `none` is NULL, for admins only, and an empty text is public.
pub record Rules : Type 0 where
  pub list : Option Text
  pub view : Option Text
  pub create : Option Text
  pub update : Option Text
  pub delete : Option Text

abbrev pub compiled : F64 → Text → Result ParseError Node → Option Fragment
compiled f64 id (ok n) = some (to_sql f64 id n)
compiled f64 id (err e) = none

unfoldable pub compile_rule : F64 → Text → Text → Option Fragment
compile_rule f64 r id = compiled f64 id (parse f64 r rule)

abbrev pub evaluated : F64 → Serde → Text → Fields → Result ParseError Node → Bool
evaluated f64 serde id m (ok n) = eval f64 serde id m n
evaluated f64 serde id m (err e) = false

unfoldable pub eval_rule_mem : F64 → Serde → Text → Text → Fields → Bool
eval_rule_mem f64 serde r id m = evaluated f64 serde id m (parse f64 r rule)

-- Guest denials are 401, authenticated ones 403.
unfoldable pub deny : Who → Failure
unfolding bytes
deny guest = failure unauthorized (bytes "not allowed")
deny _ = failure forbidden (bytes "not allowed")

unfoldable pub auth_id : Who → Text
auth_id (user col id) = id
auth_id _ = []

-- `ok none` is allowed outright; with `ok (some r)` the caller must still enforce `r`.
unfoldable pub check_rule : Who → Option Text → Reply (Option Text)
check_rule admin r = ok none
check_rule w none = err (deny w)
check_rule w (some []) = ok none
check_rule w (some (c ∷ s)) = ok (some (c ∷ s))

unfoldable pub own : Text
unfolding bytes
own = bytes "id = @request.auth.id"

unfoldable pub authed : Text
unfolding bytes
authed = bytes "@request.auth.id != ''"

unfoldable pub defaults : Text → Rules
unfolding bytes own authed
defaults ty =
    if same ty (bytes "auth")
    then record { list = none; view = none; create = some []; update = some own; delete = some own }
    else record {
      list = some [];
      view = some [];
      create = some authed;
      update = some authed;
      delete = some authed;
    }
