-- ===== src/App/Start.antt =====
-- src/lib.rs: `build_app`, before it lays out the routes.
pub mod Secret
use rockbase.Prelude.{
  ℕ, Bool, true, false, not, Option, none, some, List, [], ◌∷◌, Text, bytes, split_on,
  if◌then◌else◌,
}
use rockbase.Trim.{trim}
use rockbase.Db.{Db, param_get_or_create}
use rockbase.Db.Init.{Disk, created, init_db, tables}
use rockbase.App.{App}

-- the two variables of the environment that `build_app` reads
pub record Environment : Type 0 where
  pub rb_jwt_secret : Option Text
  pub rb_cors_origins : Option Text

abbrev is_blank : Text → Bool
is_blank [] = true
is_blank (_ ∷ _) = false

unfoldable pub origins : List Text → List Text
unfolding trim
origins [] = []
origins (part ∷ parts) = if is_blank (trim part) then origins parts else trim part ∷ origins parts

abbrev text_or_empty : Option Text → Text
text_or_empty none = []
text_or_empty (some s) = s

-- `RB_CORS_ORIGINS`, split on commas and trimmed
unfoldable pub cors_origins : Option Text → List Text
unfolding origins split_on
cors_origins variable = origins (split_on b',' (text_or_empty variable))

-- The secret from the environment, or the one that the database keeps; `fresh` is a new random one.
unfoldable pub jwt_secret : Environment → Db → Text → Text × Db
unfolding bytes param_get_or_create
jwt_secret env db fresh = elim env.rb_jwt_secret [
  | some s ↦ (s, db)
  | none ↦ param_get_or_create db (bytes "jwt_secret") fresh
]

-- the file that the tables of a running server are kept in
abbrev pub saved : Db → Disk → Disk
saved db d = record d { params = some db.params }

-- the state of a new server, and the file as it leaves it
unfoldable pub build_app : Environment → Disk → Text → Text → App × Disk
build_app env d admin_token fresh =
    let ready = init_db d in
    let (secret, db) = jwt_secret env (tables ready) fresh in
    (
      record {
        db = db;
        jwt_secret = secret;
        admin_token = admin_token;
        cols_version = 0;
        login_fails = [];
        cors_origins = cors_origins env.rb_cors_origins;
      },
      saved db ready,
    )
