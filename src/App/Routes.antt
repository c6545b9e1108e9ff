-- ===== src/App/Routes.antt =====
-- src/lib.rs: the table of routes of `build_app`, and what it relies on axum for.
pub mod Unique
pub mod SubRequests
use rockbase.Prelude.{
  ℕ, ◌≡◌, Bool, true, false, Option, none, some, List, [], ◌∷◌, String, Text, bytes, same, contains,
  split_on, if◌then◌else◌,
}
use rockbase.App.{Method, get, head, post, patch, delete, options, other}

pub data Handler : Type 0 where
  health batch collections_list collections_create collections_get collections_update : Handler
  collections_delete records_list record_create record_view record_update record_delete : Handler
  auth_with_password auth_refresh request_password_reset confirm_password_reset : Handler
  request_verification confirm_verification tokens_list file_serve backup_download : Handler
  realtime admin_ui : Handler

-- one part of a pattern
pub data Part : Type 0 where
  lit : String → Part
  param : Part

pub record Route : Type 0 where
  pub pattern : List Part
  pub verbs : List (Method × Handler)

abbrev pub collection : List Part → List Part
collection rest = lit "" ∷ lit "api" ∷ lit "collections" ∷ param ∷ rest

abbrev action : String → Handler → Route
action name h = record { pattern = collection (lit name ∷ []); verbs = (post, h) ∷ [] }

abbrev plain : List Part → Handler → Route
plain pattern h = record { pattern = pattern; verbs = (get, h) ∷ [] }

-- the routes of the API, in the order of the source
unfoldable pub routes : List Route
routes =
    plain (lit "" ∷ lit "api" ∷ lit "health" ∷ []) health
    ∷ record { pattern = lit "" ∷ lit "api" ∷ lit "batch" ∷ []; verbs = (post, batch) ∷ [] }
    ∷ record {
      pattern = lit "" ∷ lit "api" ∷ lit "collections" ∷ [];
      verbs = (get, collections_list) ∷ (post, collections_create) ∷ [];
    }
    ∷ record {
      pattern = collection [];
      verbs =
          (get, collections_get) ∷ (patch, collections_update) ∷ (delete, collections_delete) ∷ [];
    }
    ∷ record {
      pattern = collection (lit "records" ∷ []);
      verbs = (get, records_list) ∷ (post, record_create) ∷ [];
    }
    ∷ record {
      pattern = collection (lit "records" ∷ param ∷ []);
      verbs = (get, record_view) ∷ (patch, record_update) ∷ (delete, record_delete) ∷ [];
    }
    ∷ action "auth-with-password" auth_with_password
    ∷ action "auth-refresh" auth_refresh
    ∷ action "request-password-reset" request_password_reset
    ∷ action "confirm-password-reset" confirm_password_reset
    ∷ action "request-verification" request_verification
    ∷ action "confirm-verification" confirm_verification
    ∷ plain (lit "" ∷ lit "api" ∷ lit "tokens" ∷ []) tokens_list
    ∷ plain (lit "" ∷ lit "api" ∷ lit "files" ∷ param ∷ param ∷ param ∷ []) file_serve
    ∷ plain (lit "" ∷ lit "api" ∷ lit "backups" ∷ []) backup_download
    ∷ plain (lit "" ∷ lit "api" ∷ lit "realtime" ∷ []) realtime
    ∷ plain (lit "" ∷ lit "_" ∷ []) admin_ui
    ∷ plain (lit "" ∷ lit "_" ∷ lit "" ∷ []) admin_ui
    ∷ plain (lit "" ∷ lit "_" ∷ lit "index.html" ∷ []) admin_ui
    ∷ []

abbrev pub is_blank : Text → Bool
is_blank [] = true
is_blank (_ ∷ _) = false

-- Patterns and paths as axum documents them: a parameter is one part of a path and not empty.
abbrev prefixed : Text → Option (List Text) → Option (List Text)
prefixed t none = none
prefixed t (some ts) = some (t ∷ ts)

-- the parameters of a path that fits a pattern
unfoldable pub fits : List Part → List Text → Option (List Text)
unfolding bytes same
fits [] [] = some []
fits [] (t ∷ ts) = none
fits (p ∷ ps) [] = none
fits (lit s ∷ ps) (t ∷ ts) = if same t (bytes s) then fits ps ts else none
fits (param ∷ ps) (t ∷ ts) = if is_blank t then none else prefixed t (fits ps ts)

-- a method router answers HEAD where it has GET
unfoldable pub serves : Method → Method → Bool
serves get get = true
serves get head = true
serves post post = true
serves patch patch = true
serves delete delete = true
serves _ _ = false

unfoldable pub pick : Method → List (Method × Handler) → Option Handler
unfolding serves
pick m [] = none
pick m ((n, h) ∷ verbs) = if serves n m then some h else pick m verbs

pub data Outcome : Type 0 where
  handled : Handler → List Text → Outcome
  refused : ℕ → Outcome

-- a path without a handler for the method is 405
abbrev pub answer : List Text → Option Handler → Outcome
answer params none = refused 405
answer params (some h) = handled h params

-- the routes that a path fits
unfoldable pub fitting : List Text → List Route → List Route
unfolding fits
fitting path [] = []
fitting path (r ∷ rs) = elim (fits r.pattern path) [
  | none ↦ fitting path rs
  | some _ ↦ r ∷ fitting path rs
]

-- axum's router, from a table, a method and a path
abbrev pub Router : Type 0
Router = List Route → Method → Text → Outcome

-- Its contract: the one route that a path fits serves the request. axum decodes the parameters of a
-- path from their percent-encoding, so they are the parts of the path where it has no percent sign,
-- and the contract is about such paths.
abbrev pub RoutesByTable : Router → Type 0
RoutesByTable router =
    (table : List Route) (m : Method) (path : Text) (r : Route) (params : List Text)
    → contains path (bytes "%") ≡ false
    → fitting (split_on b'/' path) table ≡ r ∷ []
    → fits r.pattern (split_on b'/' path) ≡ some params
    → router table m path ≡ answer params (pick m r.verbs)
