-- ===== src/App/Health.antt =====
-- src/lib.rs: `db_status` and `health_reply`.
use rockbase.Prelude.{ℕ, Text, bytes, Result, ok, err}
use rockbase.Json.{Json, Fields, insert}

-- `SELECT sqlite_version(), (SELECT count(*) FROM _params)`: a version, or the error's text
unfoldable pub db_status : Result Text (Text × ℕ) → Result Text Json
unfolding bytes insert
db_status (err e) = err e
db_status (ok (sqlite, params)) = ok (
    Json.obj (
      insert (bytes "status") (Json.str (bytes "ok")) (
        insert (bytes "db") (Json.str (bytes "ok"))
          (insert (bytes "sqlite") (Json.str sqlite) Fields.end))))

-- an unreadable database is 503
unfoldable pub health_reply : Result Text Json → ℕ × Json
unfolding bytes insert
health_reply (ok v) = (200, v)
health_reply (err e) = (
  503,
  Json.obj (
      insert (bytes "status") (Json.str (bytes "error")) (
        insert (bytes "db") (Json.str (bytes "error"))
          (insert (bytes "error") (Json.str e) Fields.end))),
)

unfoldable pub health : Result Text (Text × ℕ) → ℕ × Json
unfolding db_status health_reply
health answer = health_reply (db_status answer)
