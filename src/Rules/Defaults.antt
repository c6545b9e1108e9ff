-- ===== src/Rules/Defaults.antt =====
-- What the default rules of src/rules.rs let through.
use rockbase.Prelude.{
  ◌≡◌, refl, Bool, true, false, not, ◌||◌, ◌≢◌, Option, none, some, [], ◌∷◌, Text, bytes, same,
  if◌then◌else◌, ok,
}
use rockbase.Json.{Json, Fields, get, is_null}
use rockbase.Env.{F64, Serde}
use rockbase.Filter.{eq, ne, rule, auth, col, val, text, cmp}
use rockbase.Filter.Parser.{parse}
use rockbase.Filter.Runs.{runs}
use rockbase.Filter.Eval.{eval, or_null, compare_json}
use rockbase.Rules.{own, authed, compile_rule, eval_rule_mem}

pub parse-own : (f64 : F64) → parse f64 own rule ≡ ok (cmp (col (bytes "id")) eq auth)
unfolding own runs
parse-own f64 = refl

pub parse-authed : (f64 : F64) → parse f64 authed rule ≡ ok (cmp auth ne (val (text [])))
unfolding authed runs
parse-authed f64 = refl

-- the record's id is the text `id`
abbrev pub names : Option Json → Text → Bool
names (some (Json.str s)) id = same s id
names _ id = false

own_value :
    (f64 : F64) (serde : Serde) (id : Text) (v : Option Json)
    → (if is_null (or_null v) || false
        then false
        else compare_json f64 serde eq (or_null v) (Json.str id))
      ≡ names v id
unfolding compare_json is_null
own_value f64 serde id none = refl
own_value f64 serde id (some Json.null) = refl
own_value f64 serde id (some (Json.bool true)) = refl
own_value f64 serde id (some (Json.bool false)) = refl
own_value f64 serde id (some _) = refl

own_means :
    (f64 : F64) (serde : Serde) (id : Text) (m : Fields)
    → eval_rule_mem f64 serde own id m ≡ names (get (bytes "id") m) id
unfolding eval_rule_mem eval
own_means f64 serde id m = rw parse-own (own_value f64 serde id (get (bytes "id") m))

abbrev pub is_blank : Text → Bool
is_blank [] = true
is_blank (_ ∷ _) = false

authed_value : (id : Text) → not (same id []) ≡ not (is_blank id)
unfolding same
authed_value [] = refl
authed_value (c ∷ s) = refl

authed_means :
    (f64 : F64) (serde : Serde) (id : Text) (m : Fields)
    → eval_rule_mem f64 serde authed id m ≡ not (is_blank id)
unfolding eval_rule_mem eval
authed_means f64 serde id m = rw parse-authed (authed_value id)

-- The two expressions among the default rules compile for every caller, and hold of a record body
-- exactly as they are meant to: the first for the record whose `id` is the caller's, the second for
-- every caller that has an id, whatever the body.
pub defaults_mean :
    (f64 : F64) (serde : Serde) (id : Text) (m : Fields)
    → (compile_rule f64 own id ≢ none)
      × (compile_rule f64 authed id ≢ none)
      × (eval_rule_mem f64 serde own id m ≡ names (get (bytes "id") m) id)
      × (eval_rule_mem f64 serde authed id m ≡ not (is_blank id))
unfolding compile_rule
defaults_mean f64 serde id m =
    (rw parse-own (cc), rw parse-authed (cc), own_means f64 serde id m, authed_means f64 serde id m)
