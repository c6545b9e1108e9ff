-- ===== src/Auth/Tokens.antt =====
-- src/auth.rs: identities from tokens.
use rockbase.Prelude.{
  ℕ, ◌+◌, Bool, false, Option, none, some, Text, bytes, starts_with, length, if◌then◌else◌, Result,
  ok, err,
}
use rockbase.Prelude.Int.{ℤ, int_eq}
use rockbase.Env.{Serde}
use rockbase.Filter.Scan.{drop}
use rockbase.Http.{failure, Reply, unauthorized, internal_server_error}
use rockbase.Db.{Db, Row}
use rockbase.Records.{token_epoch}
use rockbase.Records.Gate.{fetch_record}
use rockbase.Auth.{Who, admin, user, guest}
use rockbase.Auth.Compare.{ct_eq}

pub record Claims : Type 0 where
  pub sub : Text
  pub col : Text
  pub exp : ℕ
  pub epoch : ℤ

-- jsonwebtoken: `decode` checks signature and expiry against the secret, `none` for an error;
-- the error of `encode` is its text
pub record Jwt : Type 0 where
  pub decode : Text → Text → Option Claims
  pub encode : Text → Claims → Result Text Text

-- the two secrets of `App`
pub record Secrets : Type 0 where
  pub jwt_secret : Text
  pub admin_token : Text

-- the identity of a decoded token, by its record
unfoldable pub claimed : Serde → Claims → Option Row → Option Who
claimed serde c none = none
claimed serde c (some r) = elim (token_epoch serde r.data_text) [
  | none ↦ none
  | some n ↦ if int_eq n c.epoch then some (user c.col c.sub) else none
]

unfoldable pub from_jwt : Serde → Jwt → Secrets → Db → Text → Option Who
unfolding claimed fetch_record
from_jwt serde jwt s db t = elim (jwt.decode s.jwt_secret t) [
  | none ↦ none
  | some c ↦ claimed serde c (fetch_record db c.col c.sub)
]

-- `strip_prefix`
unfoldable pub strip_prefix : Text → Text → Option Text
unfolding starts_with drop
strip_prefix p h = if starts_with h p then some (drop (length p) h) else none

abbrev or_guest : Option Who → Who
or_guest none = guest
or_guest (some w) = w

unfoldable pub who_from_query_token : Serde → Jwt → Secrets → Db → Text → Who
unfolding ct_eq from_jwt
who_from_query_token serde jwt s db t =
    if ct_eq t s.admin_token then admin else or_guest (from_jwt serde jwt s db t)

unfoldable pub bearer : Serde → Jwt → Secrets → Db → Text → Who
unfolding bytes strip_prefix from_jwt
bearer serde jwt s db h = elim (strip_prefix (bytes "Bearer ") h) [
  | none ↦ guest
  | some t ↦ or_guest (from_jwt serde jwt s db t)
]

unfoldable pub is_admin_header : Secrets → Text → Bool
unfolding bytes strip_prefix ct_eq
is_admin_header s h = elim (strip_prefix (bytes "Admin ") h) [
  | none ↦ false
  | some t ↦ ct_eq t s.admin_token
]

-- `who`, on the value of the authorization header
unfoldable pub who : Serde → Jwt → Secrets → Db → Option Text → Who
unfolding is_admin_header bearer
who serde jwt s db none = guest
who serde jwt s db (some h) = if is_admin_header s h then admin else bearer serde jwt s db h

abbrev pub only_admin : Who → Reply (Unit {0})
only_admin admin = ok tt
only_admin _ = err (failure unauthorized (bytes "admin token required"))

unfoldable pub require_admin : Serde → Jwt → Secrets → Db → Option Text → Reply (Unit {0})
unfolding who bytes
require_admin serde jwt s db h = only_admin (who serde jwt s db h)

-- `now` is the time in seconds; a token lives for seven days
unfoldable pub make_token : Jwt → Secrets → ℕ → Text → Text → ℤ → Reply Text
make_token jwt s now col id epoch =
    elim (jwt.encode s.jwt_secret
      (record { sub = id; col = col; exp = now + 604800; epoch = epoch })) [
        | ok t ↦ ok t
        | err e ↦ err (failure internal_server_error e)
      ]
