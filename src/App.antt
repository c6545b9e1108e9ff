-- ===== src/App.antt =====
-- src/lib.rs: the state that every handler shares, and what stands in front of the handlers. Health
-- is the check of the database; Cors the middleware; Start is `build_app`; Routes its table.
pub mod Health
pub mod Cors
pub mod Start
pub mod Routes
mod Tests
use rockbase.Prelude.{ℕ, zero, Option, none, some, List, [], ◌∷◌, Text, same, if◌then◌else◌}
use rockbase.Auth.Login.{Fails}
use rockbase.Db.{Db}

-- `App`: the tables behind the pool, the two secrets, and what is kept in memory.
pub record App : Type 0 where
  pub db : Db
  pub jwt_secret : Text
  pub admin_token : Text
  pub cols_version : ℕ
  pub login_fails : List Fails
  pub cors_origins : List Text

-- `HeaderMap`, with names in lower case
abbrev pub Headers : Type 0
Headers = List (Text × Text)

unfoldable pub get_header : Text → Headers → Option Text
get_header name [] = none
get_header name ((n, v) ∷ hs) = if same n name then some v else get_header name hs

unfoldable pub remove_header : Text → Headers → Headers
remove_header name [] = []
remove_header name ((n, v) ∷ hs) =
    let rest = remove_header name hs in if same n name then rest else (n, v) ∷ rest

-- `insert` replaces every value of the name
unfoldable pub insert_header : Text → Text → Headers → Headers
unfolding remove_header
insert_header name value hs = (name, value) ∷ remove_header name hs

pub record Response : Type 0 where
  pub status : ℕ
  pub headers : Headers
  pub body : Text

pub data Method : Type 0 where
  get head post patch delete options other : Method

-- a request as the middleware sees it: `origin` is none for a header that is not visible ASCII
pub record Request : Type 0 where
  pub method : Method
  pub path : Text
  pub origin : Option Text
