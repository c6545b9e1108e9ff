-- ===== src/App/Cors.antt =====
-- src/lib.rs: `cors_and_log`. The log line is left out.
pub mod Origins
use rockbase.Prelude.{
  ℕ, Bool, true, false, ◌&&◌, Option, none, some, List, [], ◌∷◌, Text, bytes, same, any,
  if◌then◌else◌,
}
use rockbase.App.{Headers, insert_header, Response, Method, Request}

unfoldable pub allow_origin : Text
unfolding bytes
allow_origin = bytes "access-control-allow-origin"

unfoldable pub vary : Text
unfolding bytes
vary = bytes "vary"

-- the origin that a list of origins lets through, as a header value
unfoldable pub allowed_origin : (Text → Bool) → List Text → Option Text → Option Text
unfolding same
allowed_origin is_value origins none = none
allowed_origin is_value origins (some o) =
    if any (λ a. same a o) origins && is_value o then some o else none

abbrev insert_if : Text → Option Text → Headers → Headers
insert_if name none hs = hs
insert_if name (some v) hs = insert_header name v hs

-- the headers for an origin; no list stands for every origin
unfoldable pub origin_headers : (Text → Bool) → List Text → Option Text → Headers → Headers
unfolding bytes allow_origin vary allowed_origin
origin_headers is_value [] origin hs = insert_header allow_origin (bytes "*") hs
origin_headers is_value (a ∷ origins) origin hs =
    insert_if allow_origin (allowed_origin is_value (a ∷ origins) origin)
      (insert_header vary (bytes "Origin") hs)

unfoldable pub cors_headers : (Text → Bool) → List Text → Option Text → Headers → Headers
unfolding bytes origin_headers
cors_headers is_value origins origin hs =
    insert_header (bytes "access-control-allow-headers") (bytes "Authorization, Content-Type") (
      insert_header (bytes "access-control-allow-methods")
        (bytes "GET, POST, PATCH, DELETE, OPTIONS") (origin_headers is_value origins origin hs))

-- a preflight is answered here; every other request goes on to `next`
abbrev pub answered : {S : Type 0} → (Request → S → Response × S) → Request → S → Response × S
answered next req s = elim req.method [
  | Method.options ↦ (record { status = 204; headers = []; body = [] }, s)
  | _ ↦ next req s
]

-- `is_value` is `HeaderValue::from_str`, `next` the router on the state of the server
unfoldable pub cors_and_log :
    {S : Type 0}
    → (Text → Bool)
    → List Text
    → (Request → S → Response × S)
    → Request
    → S
    → Response × S
unfolding cors_headers
cors_and_log is_value origins next req s =
    let (resp, s') = answered next req s in
    (record resp { headers = cors_headers is_value origins req.origin resp.headers }, s')
