-- ===== src/App/Start/Secret.antt =====
-- What a restart of the server keeps, by `build_app` of src/lib.rs.
use rockbase.Prelude.{
  ◌≡◌, refl, sym, subst, Option, none, some, List, [], ◌∷◌, ◌++◌, Text, bytes, same_refl, arith,
  Option-cases, inl, inr,
}
use rockbase.Db.{Db, find_param, param_get_or_create}
use rockbase.Db.Init.{Disk, init_db, tables}
use rockbase.Db.Init.Laws.{init_db-params}
use rockbase.App.Start.{Environment, jwt_secret, saved, build_app}

find_param-append :
    (key value : Text) (ps : List (Text × Text))
    → find_param key ps ≡ none
    → find_param key (ps ++ (key, value) ∷ []) ≡ some value
unfolding find_param
find_param-append key value [] h = ground (arith, same_refl key)
find_param-append key value ((k, v) ∷ ps) h = ground (arith, find_param-append key value ps, h)

again : (f : Db → Text × Db) (x y : Text × Db) → x ≡ y → f y.1 ≡ y → f x.1 ≡ x
again f x y e h = subst (λ (z : Text × Db). f z.1 ≡ z) (sym e) h

found :
    (db : Db) (key v other : Text)
    → find_param key db.params ≡ some v
    → param_get_or_create db key other ≡ (v, db)
unfolding param_get_or_create
found db key v other e = rw (e, param_get_or_create) refl

-- what was created is found the next time, whatever the default is then
param_get_or_create-again :
    (db : Db) (key value other : Text)
    → param_get_or_create (param_get_or_create db key value).1 key other
      ≡ param_get_or_create db key value
param_get_or_create-again db key value other = elim (Option-cases (find_param key db.params)) [
  | inl e ↦
      let made = record db { params = db.params ++ (key, value) ∷ [] } in
      again (λ d. param_get_or_create d key other) (param_get_or_create db key value) (value, made)
        (unfold param_get_or_create in rw (e, param_get_or_create) refl)
        (found made key value other (find_param-append key value db.params e))
  | inr (v, e) ↦
      again (λ d. param_get_or_create d key other) (param_get_or_create db key value) (v, db)
        (found db key v value e) (found db key v other e)
]

param_get_or_create-params :
    (db : Db) (key value : Text)
    → let left = (param_get_or_create db key value).1 in left ≡ record db { params = left.params }
unfolding param_get_or_create
param_get_or_create-params db key value = ground arith

secret_of : Option Text → Db → Text → Text × Db
secret_of (some s) db fresh = (s, db)
secret_of none db fresh = param_get_or_create db (bytes "jwt_secret") fresh

jwt_secret-secret_of :
    (env : Environment) (db : Db) (fresh : Text)
    → jwt_secret env db fresh ≡ secret_of env.rb_jwt_secret db fresh
unfolding jwt_secret secret_of
jwt_secret-secret_of env db fresh = ground arith

secret_of-again :
    (o : Option Text) (db : Db) (fresh other : Text)
    → secret_of o (secret_of o db fresh).1 other ≡ secret_of o db fresh
unfolding secret_of
secret_of-again (some s) db fresh other = refl
secret_of-again none db fresh other = param_get_or_create-again db (bytes "jwt_secret") fresh other

secret_of-params :
    (o : Option Text) (db : Db) (fresh : Text)
    → let left = (secret_of o db fresh).1 in left ≡ record db { params = left.params }
unfolding secret_of
secret_of-params (some s) db fresh = refl
secret_of-params none db fresh = param_get_or_create-params db (bytes "jwt_secret") fresh

tables-saved :
    (d : Disk) (db : Db) → db ≡ record (tables d) { params = db.params } → tables (saved db d) ≡ db
unfolding tables
tables-saved d db e = sym e

-- A server that is started again on the file that the first start left, in the same environment and
-- whatever random secret it draws, signs with the same secret, sees the same tables, and leaves the
-- file as it is. So tokens outlive a restart.
pub build_app-again :
    (env : Environment) (d : Disk) (admin_token admin_token' fresh fresh' : Text)
    → let (app, left) = build_app env d admin_token fresh in
      let (app', left') = build_app env left admin_token' fresh' in
      (app'.jwt_secret ≡ app.jwt_secret) × (app'.db ≡ app.db) × (left' ≡ left)
unfolding build_app saved
build_app-again env d admin_token admin_token' fresh fresh' =
    let ready = init_db d in
    let o = env.rb_jwt_secret in
    let first = secret_of o (tables ready) fresh in
    let file : init_db (saved first.1 ready) ≡ saved first.1 ready =
      init_db-params d first.1.params in
    let seen = tables-saved ready first.1 (secret_of-params o (tables ready) fresh) in
    rw
      (
        jwt_secret-secret_of env (tables ready) fresh,
        file,
        seen,
        jwt_secret-secret_of,
        secret_of-again o (tables ready) fresh fresh',
      )
      (refl, refl, refl)
