-- ===== src/Batch.antt =====
-- src/batch.rs: the transactional batch endpoint.
pub mod Url
pub mod Atomic
pub mod Discreet
mod Tests
use rockbase.Prelude.{
  ℕ, suc, ◌+◌, ◌≡◌, Bool, true, false, ◌&&◌, ◌||◌, not, Option, none, some, List, [], ◌∷◌, ◌++◌,
  Text, bytes, same, length, ltb, if◌then◌else◌, Result, ok, err, ok_or, ensure, ◌>>=◌, ◌>>◌,
}
use rockbase.Prelude.Int.{pos}
use rockbase.Prelude.Decimal.{nat_text}
use rockbase.Json.{Json, Fields, get, insert, as_str, as_array, list_items}
use rockbase.Http.{Failure, failure, Reply, bad_request, unauthorized, internal_server_error}
use rockbase.Auth.{Who, guest}
use rockbase.Db.{Db, Host}
use rockbase.Records.{key, str_of, Effect}
use rockbase.Records.Create.{create_core}
use rockbase.Records.Update.{update_core}
use rockbase.Records.Delete.{delete_core}
use rockbase.Batch.Url.{parse_url}

abbrev pub max : ℕ
max = 50

unfoldable pub bad_method : Failure
unfolding bytes
bad_method = failure bad_request (bytes "bad method or url")

abbrev pub or_null : Option Json → Json
or_null none = Json.null
or_null (some v) = v

-- the core that a method and a path call
unfoldable pub dispatch :
    Host → Db → Who → Text → Text → Option Text → Json → Text → Text → Reply (Effect × Db)
unfolding bytes
dispatch host db w method name none body id ts =
    if same method (bytes "POST") then create_core host db w name body id ts else err bad_method
dispatch host db w method name (some target) body id ts =
    if same method (bytes "PATCH")
    then update_core host db w name target body ts
    else if same method (bytes "DELETE")
    then delete_core host db w name target
    else err bad_method

-- One sub-request; `id` and `ts` are the fresh id and the time that a write may take.
unfoldable pub one : Host → Db → Who → Json → Text → Text → Reply (Effect × Db)
unfolding bytes
one host db w req id ts = do
  method ← ok_or (str_of (key (bytes "method") req)) bad_method
  url ← ok_or (str_of (key (bytes "url") req)) bad_method
  (name, target) ← ok_or (parse_url url) bad_method
  dispatch host db w method name target (or_null (key (bytes "body") req)) id ts

-- the bodies and the events of the requests that were run, and the database that they leave
pub record Run : Type 0 where
  pub results : List Json
  pub events : List Json
  pub db : Db

-- the index of the request that failed, and its error
abbrev Failed : Type 0
Failed = ℕ × Failure

abbrev at_index : {A : Type 0} → ℕ → Reply A → Result Failed A
at_index i (ok a) = ok a
at_index i (err e) = err (i, e)

-- The loop over the requests; `clock i` gives the id and the time for request `i`.
unfoldable pub run_all : Host → (ℕ → Text × Text) → Who → ℕ → List Json → Db → Result Failed Run
run_all host clock w i [] db = ok (record { results = []; events = []; db = db })
run_all host clock w i (req ∷ reqs) db = do
  (effect, db₁) ← at_index i (one host db w req (clock i).0 (clock i).1)
  rest ← run_all host clock w (i + 1) reqs db₁
  ok (record {
    results = effect.body ∷ rest.results;
    events = effect.event ∷ rest.events;
    db = rest.db;
  })

-- the answer for a batch that failed at a request
unfoldable pub batch_failure : ℕ → Failure → Failure
unfolding bytes insert key
batch_failure i e = record {
  status = bad_request;
  body = Json.obj (
      insert (bytes "code") (Json.int (pos 400)) (
        insert (bytes "index") (Json.int (pos i)) (
          insert (bytes "message")
            (elim (key (bytes "message") e.body) [ none ↦ Json.str (bytes "error") | some m ↦ m ])
            Fields.end)));
}

-- the database, and the events that were broadcast so far
pub record Server : Type 0 where
  pub db : Db
  pub sent : List Json

-- What SQLite answers to the begin and to the commit of the transaction: the text of an error.
pub record Transaction : Type 0 where
  pub begin : Option Text
  pub commit : Option Text

abbrev is_guest : Who → Bool
is_guest guest = true
is_guest _ = false

abbrev pub oops : Option Text → Reply (Unit {0})
oops none = ok tt
oops (some e) = err (failure internal_server_error e)

abbrev outer : Result Failed Run → Reply Run
outer (ok r) = ok r
outer (err (i, e)) = err (batch_failure i e)

-- the requests of the body, after the checks before the transaction
unfoldable pub requests : Who → Json → Reply (List Json)
unfolding bytes as_array nat_text
requests w body = do
  ensure (not (is_guest w)) (failure unauthorized (bytes "auth required"))
  v ← ok_or (key (bytes "requests") body) (failure bad_request (bytes "requests must be an array"))
  reqs ← ok_or (as_array v) (failure bad_request (bytes "requests must be an array"))
  ensure (not (ltb max (length reqs))) (failure bad_request (bytes "max 50 requests per batch"))
  ok reqs

-- the whole transaction
unfoldable pub transact : Host → (ℕ → Text × Text) → Transaction → Who → Json → Db → Reply Run
unfolding requests run_all
transact host clock tx w body db = do
  reqs ← requests w body
  oops tx.begin
  r ← outer (run_all host clock w 0 reqs db)
  oops tx.commit
  ok r

-- A failed batch is rolled back and broadcasts nothing.
unfoldable pub batch :
    Host → (ℕ → Text × Text) → Transaction → Who → Json → Server → Reply Json × Server
unfolding transact list_items
batch host clock tx w body s = elim (transact host clock tx w body s.db) [
  | err e ↦ (err e, s)
  | ok r ↦ (ok (Json.arr (list_items r.results)), record { db = r.db; sent = s.sent ++ r.events })
]
