-- ===== src/App/Tests.antt =====
-- Runs of src/lib.rs: the health check, the origins, a restart, and the table of routes.
use rockbase.Prelude.{
  ℕ, ◌+◌, ◌≡◌, refl, ◌↔◌, true, false, none, some, List, [], ◌∷◌, Text, bytes, same, contains, any,
  split_on, err, Option-cases, inl, inr,
}
use rockbase.Db.{param_get_or_create}
use rockbase.Db.Init.{Disk, absent, init_db, tables}
use rockbase.Batch.Url.{parse_url}
use rockbase.App.{get_header, Response, Method, Request}
use rockbase.App.Health.{health}
use rockbase.App.Cors.{allow_origin, vary, cors_and_log}
use rockbase.App.Cors.Origins.{cors_and_log-allows}
use rockbase.App.Start.{Environment, cors_origins, jwt_secret, build_app}
use rockbase.App.Routes.{
  Route, routes, fits, fitting, pick, record_view, Outcome, handled, refused, answer, Router,
  RoutesByTable,
}
use rockbase.App.Routes.SubRequests.{Dispatched, parse_url-Dispatched}

unreadable : (health (err (bytes "disk"))).0 ≡ 503
unfolding health
unreadable = refl

two_origins :
    cors_origins (some (bytes " http://a ,,http://b")) ≡ bytes "http://a" ∷ bytes "http://b" ∷ []
unfolding cors_origins bytes
two_origins = refl

abbrev origin_a : Text
origin_a = bytes "http://a"

abbrev from_a : Request
from_a = record { method = Method.get; path = bytes "/api/health"; origin = some origin_a }

abbrev plain_ok : Request → ℕ → Response × ℕ
plain_ok req s = (record { status = 200; headers = []; body = bytes "{}" }, s + 1)

cors_and_log-allows_example :
    let resp = (cors_and_log (λ v. true) (origin_a ∷ []) plain_ok from_a 7).0 in
    ((v : Text)
      → (get_header allow_origin resp.headers ≡ some v)
        ↔ ((some origin_a ≡ some v) × (any (λ b. same b v) (origin_a ∷ []) ≡ true) × (true ≡ true)))
    × (get_header vary resp.headers ≡ some (bytes "Origin"))
    × (resp.status ≡ 200)
    × (resp.body ≡ bytes "{}")
    × ((Method.get ≡ Method.options)
        → (resp.status ≡ 204)
          × ((cors_and_log (λ v. true) (origin_a ∷ []) plain_ok from_a 7).1 ≡ 7))
cors_and_log-allows_example =
    cors_and_log-allows (λ v. true) plain_ok origin_a [] from_a 7 (unfold get_header in refl)

abbrev bare : Environment
bare = record { rb_jwt_secret = none; rb_cors_origins = none }

abbrev new_file : Disk
new_file = record { collections = absent; records = none; tokens = none; params = none }

first_secret : (build_app bare new_file (bytes "admin") (bytes "r1")).0.jwt_secret ≡ bytes "r1"
unfolding build_app jwt_secret init_db tables param_get_or_create
first_secret = refl

-- a router that takes the first route that the path fits
find_route : Method → List Text → List Route → Outcome
unfolding fits pick
find_route m path [] = refused 404
find_route m path (r ∷ rs) = elim (fits r.pattern path) [
  | none ↦ find_route m path rs
  | some params ↦ answer params (pick m r.verbs)
]

abbrev first_router : Router
first_router table m path = find_route m (split_on b'/' path) table

find_route-fitting :
    (m : Method) (path : List Text) (table : List Route) (r : Route) (params : List Text)
    → fitting path table ≡ r ∷ []
    → fits r.pattern path ≡ some params
    → find_route m path table ≡ answer params (pick m r.verbs)
unfolding fitting find_route
find_route-fitting m path [] r params h f = cc
find_route-fitting m path (q ∷ table) r params h f = elim (Option-cases (fits q.pattern path)) [
  | inl e ↦ rw (e, find_route) (find_route-fitting m path table r params (rw (e, fitting) at h) f)
  | inr (found, e) ↦
      let only : q ∷ fitting path table ≡ r ∷ [] = rw (e, fitting) at h in
      let here : q ≡ r = cc (only) in
      let same_params : found ≡ params = cc (e, f, here) in
      rw (e, find_route) (rw (here, same_params) refl)
]

first_router-RoutesByTable : RoutesByTable first_router
first_router-RoutesByTable table m path r params raw h f =
    find_route-fitting m (split_on b'/' path) table r params h f

viewed :
    first_router routes Method.head (bytes "/api/collections/posts/records/a")
    ≡ handled record_view (bytes "posts" ∷ bytes "a" ∷ [])
unfolding find_route routes bytes split_on same
viewed = refl

unrouted :
    (first_router routes Method.other (bytes "/api/batch") ≡ refused 405)
    × (first_router routes Method.get (bytes "/api/collections//records") ≡ refused 404)
unfolding find_route routes bytes split_on same
unrouted = (refl, refl)

abbrev one_post : Text
one_post = bytes "/api/collections/posts/records/a"

one_post_parsed : parse_url one_post ≡ some (bytes "posts", some (bytes "a"))
unfolding parse_url bytes same
one_post_parsed = refl

one_post_raw : contains one_post (bytes "%") ≡ false
unfolding bytes contains
one_post_raw = refl

parse_url-Dispatched_example : Dispatched first_router one_post (bytes "posts") (some (bytes "a"))
parse_url-Dispatched_example =
    parse_url-Dispatched first_router one_post (bytes "posts") (some (bytes "a"))
      first_router-RoutesByTable one_post_raw one_post_parsed
