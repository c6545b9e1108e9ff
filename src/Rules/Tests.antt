-- ===== src/Rules/Tests.antt =====
-- Runs of the rules of src/rules.rs.
use rockbase.Prelude.{◌≡◌, refl, none, bytes, ok, err}
use rockbase.Auth.{admin, guest}
use rockbase.Http.{failure}
use rockbase.Rules.{check_rule, deny}

check_rule-admin : check_rule admin none ≡ ok none
unfolding check_rule
check_rule-admin = refl

check_rule-guest : check_rule guest none ≡ err (failure 401 (bytes "not allowed"))
unfolding check_rule deny
check_rule-guest = refl
