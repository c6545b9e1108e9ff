-- ===== src/Auth/Refresh.antt =====
-- src/auth.rs: `auth_refresh`, and `tokens_list` for the mailer.
pub mod Identity
use rockbase.Prelude.{
  ℕ, Bool, true, false, not, Option, none, some, List, [], ◌∷◌, Text, bytes, same, text_lt,
  if◌then◌else◌, ok, err, ensure, ok_or, ◌>>=◌, ◌>>◌,
}
use rockbase.Prelude.Int.{ℤ}
use rockbase.Json.{Json, Fields, insert, list_items}
use rockbase.Env.{Serde}
use rockbase.Http.{Failure, failure, Reply, unauthorized, not_found}
use rockbase.Db.{Db, Row, Ticket, Host}
use rockbase.Records.{token_epoch}
use rockbase.Records.Gate.{fetch_record}
use rockbase.Auth.{Who, admin, user, guest}
use rockbase.Auth.Tokens.{Jwt, Secrets, require_admin}
use rockbase.Auth.Login.{signed_in}

unfoldable pub token_required : Failure
unfolding bytes
token_required = failure unauthorized (bytes "auth token required")

abbrev pub account_of : Who → Reply (Text × Text)
account_of (user col id) = ok (col, id)
account_of _ = err token_required

-- The database is read after the identity was: a record can be gone by then. The answer has the form
-- of that of a login, with a token on the epoch that the record has now.
unfoldable pub auth_refresh : Host → Jwt → Secrets → ℕ → Db → Who → Text → Reply Json
unfolding bytes token_required fetch_record
auth_refresh host jwt s now db w name = do
  (col, id) ← account_of w
  ensure (same col name) (failure unauthorized (bytes "token is for another collection"))
  row ← ok_or (fetch_record db name id) (failure not_found (bytes "record not found"))
  epoch ← ok_or (token_epoch host.serde row.data_text) token_required
  signed_in host jwt s now name (record row { id = id }) epoch

-- a ticket behind those that were created before it or with it
unfoldable pub insert_by_created : Ticket → List Ticket → List Ticket
unfolding text_lt
insert_by_created t [] = t ∷ []
insert_by_created t (u ∷ ts) =
    let rest = insert_by_created t ts in
    if text_lt u.created t.created then u ∷ rest else t ∷ u ∷ ts

-- `ORDER BY created, rowid`
unfoldable pub by_created : List Ticket → List Ticket
unfolding insert_by_created
by_created [] = []
by_created (t ∷ ts) = insert_by_created t (by_created ts)

unfoldable pub ticket_json : Ticket → Json
unfolding bytes insert
ticket_json t = Json.obj (
    insert (bytes "token") (Json.str t.token) (
      insert (bytes "collection") (Json.str t.collection) (
        insert (bytes "record") (Json.str t.subject) (
          insert (bytes "type") (Json.str t.ty) (
            insert (bytes "created") (Json.str t.created)
              (insert (bytes "expires") (Json.str t.expires) Fields.end))))))

unfoldable pub ticket_items : List Ticket → List Json
unfolding ticket_json
ticket_items [] = []
ticket_items (t ∷ ts) = ticket_json t ∷ ticket_items ts

-- every outstanding ticket, for an admin
unfoldable pub tokens_list : Serde → Jwt → Secrets → Db → Option Text → Reply Json
unfolding bytes require_admin insert list_items by_created ticket_items
tokens_list serde jwt s db header = do
  require_admin serde jwt s db header
  ok (
      Json.obj (
        insert (bytes "items") (Json.arr (list_items (ticket_items (by_created db.tokens))))
          Fields.end))
