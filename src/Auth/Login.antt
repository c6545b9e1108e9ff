-- ===== src/Auth/Login.antt =====
-- src/auth.rs: logins with a password, and the throttle on failed ones. A time is in seconds.
use rockbase.Prelude.{
  ℕ, ◌+◌, ◌-◌, ◌%◌, ◌^◌, Bool, false, ◌&&◌, not, Option, none, some, List, [], ◌∷◌, Text, bytes,
  same, ltb, if◌then◌else◌, ok, err, ensure, ok_or, ◌>>=◌,
}
use rockbase.Prelude.Int.{ℤ}
use rockbase.Json.{Json, Fields, get, insert}
use rockbase.Env.{Serde}
use rockbase.Http.{Failure, failure, Reply, bad_request, not_found, too_many_requests}
use rockbase.Db.{Db, Row, Host, get_collection, map_or_empty}
use rockbase.Records.{key, str_or_empty, record_json, token_epoch, accepted}
use rockbase.Records.Gate.{has_email, is_broken}
use rockbase.Records.Create.{is_auth}
use rockbase.Auth.Tokens.{Jwt, Secrets, make_token}

abbrev pub max_fails : ℕ
max_fails = 5

abbrev pub cooldown : ℕ
cooldown = 900

-- An identity of a collection, its failed logins in a row, and the time of the last.
pub record Fails : Type 0 where
  pub col : Text
  pub identity : Text
  pub count : ℕ
  pub at : ℕ

unfoldable pub is_key : Text → Text → Fails → Bool
is_key col identity f = same f.col col && same f.identity identity

unfoldable pub find_fails : Text → Text → List Fails → Option Fails
unfolding is_key
find_fails col identity [] = none
find_fails col identity (f ∷ fs) =
    if is_key col identity f then some f else find_fails col identity fs

unfoldable pub remove_fails : Text → Text → List Fails → List Fails
unfolding is_key
remove_fails col identity [] = []
remove_fails col identity (f ∷ fs) =
    let rest = remove_fails col identity fs in if is_key col identity f then rest else f ∷ rest

abbrev pub count_of : Option Fails → ℕ
count_of none = 0
count_of (some f) = f.count

-- the closure `reject`: one more failure, now; the counter is a `u32`
unfoldable pub record_fail : Text → Text → ℕ → List Fails → List Fails
unfolding find_fails remove_fails
record_fail col identity now fs =
    record {
      col = col;
      identity = identity;
      count = (count_of (find_fails col identity fs) + 1) % 2 ^ 32;
      at = now;
    }
    ∷ remove_fails col identity fs

-- locked, for `cooldown` seconds after the last failure
unfoldable pub is_locked : ℕ → Option Fails → Bool
is_locked now none = false
is_locked now (some f) = not (ltb f.count max_fails) && ltb (now - f.at) cooldown

-- an entry whose cooldown is served is dropped
unfoldable pub is_served : ℕ → Option Fails → Bool
is_served now none = false
is_served now (some f) = not (ltb f.count max_fails) && not (ltb (now - f.at) cooldown)

unfoldable pub expire : Text → Text → ℕ → List Fails → List Fails
unfolding find_fails remove_fails is_served
expire col identity now fs =
    if is_served now (find_fails col identity fs) then remove_fails col identity fs else fs

-- the first row of the query; a row that is no JSON ends it with an error
unfoldable pub find_email : Serde → Text → Text → List Row → Option Row
unfolding has_email
find_email serde col email [] = none
find_email serde col email (r ∷ rs) =
    let rest = find_email serde col email rs in
    if same r.collection col && is_broken serde r
    then none
    else if same r.collection col && has_email serde email r
    then some r
    else rest

-- the hash that a row stores, empty for none
unfoldable pub stored_hash : Serde → Row → Text
unfolding bytes get str_or_empty
stored_hash serde r =
    str_or_empty (get (bytes "password_hash") (map_or_empty (serde.from_str r.data_text)))

-- the row whose password this is, and its counter
unfoldable pub credentials : Host → Db → Text → Text → Text → Option (Row × ℤ)
unfolding find_email stored_hash
credentials host db name identity password = elim (find_email host.serde name identity db.records) [
  | none ↦ none
  | some r ↦
      if accepted (host.bcrypt.verify password (stored_hash host.serde r))
      then (elim (token_epoch host.serde r.data_text) [ none ↦ none | some n ↦ some (r, n) ])
      else none
]

-- the body of a login that went through
unfoldable pub signed_in : Host → Jwt → Secrets → ℕ → Text → Row → ℤ → Reply Json
unfolding bytes insert make_token
signed_in host jwt s now name r epoch = do
  token ← make_token jwt s now name r.id epoch
  ok (
      Json.obj (
        insert (bytes "token") (Json.str token) (
          insert (bytes "record") (record_json host.serde name r.id r.data_text r.created r.updated)
            Fields.end)))

-- the collection is there, and one of accounts
unfoldable pub check_accounts : Host → Db → Text → Reply (Unit {0})
unfolding bytes get_collection is_auth
check_accounts host db name = do
  col ← ok_or (get_collection host.serde db name) (failure not_found (bytes "no such collection"))
  ensure (is_auth col) (failure bad_request (bytes "not an auth collection"))

unfoldable pub locked : Failure
unfolding bytes
locked = failure too_many_requests (bytes "too many failed login attempts, try again later")

unfoldable pub invalid : Failure
unfolding bytes
invalid = failure bad_request (bytes "invalid credentials")

abbrev pub settle :
    Host → Jwt → Secrets → ℕ → Text → Text → List Fails → Option (Row × ℤ) → Reply Json × List Fails
settle host jwt s now name identity fs none = (err invalid, record_fail name identity now fs)
settle host jwt s now name identity fs (some (r, n)) =
    (signed_in host jwt s now name r n, remove_fails name identity fs)

-- the login behind the throttle
unfoldable pub attempt :
    Host → Jwt → Secrets → ℕ → Db → Text → Text → Text → List Fails → Reply Json × List Fails
unfolding check_accounts credentials
attempt host jwt s now db name identity password fs = elim (check_accounts host db name) [
  | err e ↦ (err e, fs)
  | ok _ ↦ settle host jwt s now name identity fs (credentials host db name identity password)
]

-- A login by identity and password. The throttle comes first, whatever the password.
unfoldable pub login :
    Host → Jwt → Secrets → ℕ → Db → Text → Text → Text → List Fails → Reply Json × List Fails
unfolding is_locked find_fails expire attempt
login host jwt s now db name identity password fs =
    if is_locked now (find_fails name identity fs)
    then (err locked, fs)
    else attempt host jwt s now db name identity password (expire name identity now fs)

-- `auth_with_password`
unfoldable pub auth_with_password :
    Host → Jwt → Secrets → ℕ → Db → Text → Json → List Fails → Reply Json × List Fails
unfolding bytes key str_or_empty login
auth_with_password host jwt s now db name body fs =
    login host jwt s now db name (str_or_empty (key (bytes "identity") body))
      (str_or_empty (key (bytes "password") body)) fs
