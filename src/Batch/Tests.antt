-- ===== src/Batch/Tests.antt =====
-- Runs of the batch endpoint of src/batch.rs.
use rockbase.Prelude.{
  ℕ, ◌≤◌, ◌≡◌, refl, ◌≢◌, ◌⊎◌, inl, inr, none, some, List, [], ◌∷◌, ◌++◌, Text, bytes, length, ok,
  err,
}
use rockbase.Json.{Json, Fields, list_items}
use rockbase.Http.{Failure, Reply}
use rockbase.Auth.{Who, user, guest}
use rockbase.Db.{Db}
use rockbase.Records.{Effect, key, str_of}
use rockbase.Records.Samples.{host_sample, posts, db_sample, body_sample, writes}
use rockbase.Records.Secrets.{IsDiscreet}
use rockbase.Batch.Url.{parse_url}
use rockbase.Batch.{max, bad_method, one, Run, Server, Transaction, requests, dispatch, batch}
use rockbase.Batch.Atomic.{Standalone, FailsAt, Tells, batch-outcome, batch-FailsAt}
use rockbase.Batch.Discreet.{one-IsDiscreet}

unfoldable runs : Unit {0}
unfolding writes key str_of parse_url dispatch one requests batch
runs = tt

parse_url-records : parse_url (bytes "/api/collections/posts/records") ≡ some (posts, none)
unfolding runs
parse_url-records = refl

parse_url-id : parse_url (bytes "/api/collections/posts/records/a") ≡ some (posts, some (bytes "a"))
unfolding runs
parse_url-id = refl

parse_url-query : parse_url (bytes "/api/collections/posts/records?x") ≡ none
unfolding runs
parse_url-query = refl

abbrev create_request : Json
create_request = Json.obj (
    Fields.field (bytes "method") (Json.str (bytes "POST")) (
      Fields.field (bytes "url") (Json.str (bytes "/api/collections/posts/records"))
        (Fields.field (bytes "body") body_sample Fields.end)))

abbrev clock : ℕ → Text × Text
clock i = (bytes "b", bytes "t1")

abbrev alice : Who
alice = user posts (bytes "alice01")

abbrev out_of : Reply (Effect × Db) → Effect × Db
out_of (ok out) = out
out_of (err e) = (record { body = Json.null; event = Json.null }, db_sample)

abbrev created : Effect × Db
created = out_of (one host_sample db_sample alice create_request (bytes "b") (bytes "t1"))

creates : one host_sample db_sample alice create_request (bytes "b") (bytes "t1") ≡ ok created
unfolding runs
creates = refl

one-IsDiscreet_example : IsDiscreet created.0
one-IsDiscreet_example =
    one-IsDiscreet host_sample db_sample alice create_request (bytes "b") (bytes "t1") created
      creates

abbrev begins : Transaction
begins = record { begin = none; commit = none }

abbrev server : Server
server = record { db = db_sample; sent = [] }

abbrev two_requests : List Json
two_requests = create_request ∷ Json.null ∷ []

abbrev two_body : Json
two_body =
    Json.obj (Fields.field (bytes "requests") (Json.arr (list_items two_requests)) Fields.end)

two_body-requests : requests alice two_body ≡ ok two_requests
unfolding runs
two_body-requests = refl

second_fails : FailsAt host_sample clock alice 0 two_requests db_sample 1 bad_method
unfolding one runs
second_fails = inr (created.0, created.1, creates, inl (refl, refl))

batch-FailsAt_example :
    (answer : Failure) × (batch host_sample clock begins alice two_body server
      ≡ (err answer, server))
    × Tells 1 bad_method answer
batch-FailsAt_example =
    batch-FailsAt host_sample clock begins alice two_body server two_requests 1 bad_method
      two_body-requests refl second_fails

batch-outcome_example :
    ((e : Failure) × (batch host_sample clock begins alice two_body server ≡ (err e, server)))
    ⊎ ((reqs : List Json) × (run : Run) × (requests alice two_body ≡ ok reqs)
        × (alice ≢ guest)
        × (length reqs ≤ max)
        × Standalone host_sample clock alice 0 reqs db_sample run
        × (length run.events ≡ length reqs)
        × (batch host_sample clock begins alice two_body server ≡ (
          ok (Json.arr (list_items run.results)),
          record { db = run.db; sent = [] ++ run.events },
        )))
batch-outcome_example = batch-outcome host_sample clock begins alice two_body server
