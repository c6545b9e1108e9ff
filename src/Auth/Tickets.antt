-- ===== src/Auth/Tickets.antt =====
-- src/auth.rs: the tickets of password resets and email verifications.
use rockbase.Prelude.{
  Bool, true, ◌&&◌, Option, none, some, List, [], ◌∷◌, ◌++◌, Text, bytes, same, text_lt, any,
  if◌then◌else◌, ok, err, ok_or, ◌>>=◌, ◌>>◌,
}
use rockbase.Json.{Json, Fields, insert}
use rockbase.Env.{Serde}
use rockbase.Http.{Failure, failure, Reply, bad_request, internal_server_error}
use rockbase.Db.{Db, Row, Ticket, Col, Host, get_collection, is_at}
use rockbase.Records.{key, str_or_empty, record_json, verified_field, change}
use rockbase.Records.Gate.{fetch_record}
use rockbase.Records.Create.{is_auth}
use rockbase.Records.Update.{update_core}
use rockbase.Auth.{admin}
use rockbase.Auth.Login.{find_email}
use rockbase.Batch.{Server, Transaction, oops}

unfoldable pub reset_type : Text
unfolding bytes
reset_type = bytes "password_reset"

unfoldable pub verify_type : Text
unfolding bytes
verify_type = bytes "verification"

-- `INSERT INTO _tokens`: a token that is there is an error
unfoldable pub insert_ticket : Ticket → List Ticket → Option (List Ticket)
insert_ticket t ts =
    if any (λ (u : Ticket). same u.token t.token) ts then none else some (ts ++ t ∷ [])

abbrev id_of : Option Row → Option Text
id_of none = none
id_of (some r) = some r.id

abbrev accounts_of : Host → Db → Text → Text → Option Col → Option Text
accounts_of host db col email none = none
accounts_of host db col email (some c) =
    if is_auth c then id_of (find_email host.serde col email db.records) else none

-- `auth_record_by_email`
unfoldable pub auth_record_by_email : Host → Db → Text → Text → Option Text
unfolding get_collection is_auth find_email
auth_record_by_email host db col email =
    accounts_of host db col email (get_collection host.serde db col)

-- what a request mints: the random token, and the two times that the statement computes
pub record Mint : Type 0 where
  pub token : Text
  pub created : Text
  pub expires : Text

abbrev with_tokens : Db → Option (List Ticket) → Db
with_tokens db none = db
with_tokens db (some ts) = record db { tokens = ts }

-- `issue_token`; its caller drops the error
unfoldable pub issue_token : Db → Text → Text → Text → Mint → Db
unfolding insert_ticket
issue_token db col id ty m = with_tokens db (
    insert_ticket
      (record {
        token = m.token;
        collection = col;
        subject = id;
        ty = ty;
        created = m.created;
        expires = m.expires;
      })
      db.tokens)

-- `request_ticket`: the answer is the same, whether there is such an account or not
unfoldable pub request_ticket : Host → Db → Text → Json → Text → Mint → Reply Json × Db
unfolding bytes key str_or_empty auth_record_by_email issue_token
request_ticket host db name body ty m = (
  ok (Json.obj Fields.end),
  elim (auth_record_by_email host db name (str_or_empty (key (bytes "email") body))) [
    | none ↦ db
    | some id ↦ issue_token db name id ty m
  ],
)

-- a ticket of this kind that is fresh at a time
unfoldable pub is_spendable : Text → Text → Text → Text → Ticket → Bool
unfolding text_lt
is_spendable col ty token now t =
    same t.token token && (same t.collection col && (same t.ty ty && text_lt now t.expires))

unfoldable pub find_ticket : Text → Text → Text → Text → List Ticket → Option Ticket
unfolding is_spendable
find_ticket col ty token now [] = none
find_ticket col ty token now (t ∷ ts) =
    if is_spendable col ty token now t then some t else find_ticket col ty token now ts

unfoldable pub bad_ticket : Failure
unfolding bytes
bad_ticket = failure bad_request (bytes "invalid or expired token")

-- `take_ticket`, which spends nothing
unfoldable pub take_ticket : Db → Text → Text → Text → Text → Reply Text
unfolding find_ticket
take_ticket db col ty token now = elim (find_ticket col ty token now db.tokens) [
  | none ↦ err bad_ticket
  | some t ↦ ok t.subject
]

-- `DELETE FROM _tokens WHERE token = …`
unfoldable pub burn : Text → List Ticket → List Ticket
burn token [] = []
burn token (t ∷ ts) = let rest = burn token ts in if same t.token token then rest else t ∷ rest

abbrev pub burned : Text → Db → Db
burned token db = record db { tokens = burn token db.tokens }

abbrev pub password_patch : Option Json → Json
password_patch o =
    Json.obj (Fields.field (bytes "password") (elim o [ none ↦ Json.null | some v ↦ v ]) Fields.end)

-- the transaction of a reset: its event and the database that it commits
unfoldable pub reset : Host → Transaction → Db → Text → Json → Text → Text → Reply (Json × Db)
unfolding bytes key str_or_empty reset_type take_ticket burn
reset host tx db name body now ts = do
  let token = str_or_empty (key (bytes "token") body)
  oops tx.begin
  id ← take_ticket db name reset_type token now
  (effect, db₁) ←
      update_core host db admin name id (password_patch (key (bytes "password") body)) ts
  oops tx.commit
  ok (effect.event, burned token db₁)

unfoldable pub confirm_password_reset :
    Host → Transaction → Server → Text → Json → Text → Text → Reply Json × Server
unfolding reset
confirm_password_reset host tx s name body now ts = elim (reset host tx s.db name body now ts) [
  | err e ↦ (err e, s)
  | ok (event, db) ↦ (ok (Json.obj Fields.end), record { db = db; sent = s.sent ++ event ∷ [] })
]

-- `json_set(data, '$.verified', json('true'))`, an error where the data is no JSON
unfoldable pub verified_text : Serde → Text → Option Text
unfolding insert verified_field
verified_text serde data_text = elim (serde.from_str data_text) [
  | none ↦ none
  | some m ↦ some (serde.to_string (Json.obj (insert verified_field (Json.bool true) m)))
]

abbrev verified_row : Text → Row → Option Text → Option (List Row) → Option (List Row)
verified_row ts r (some text) (some rs) = some (record r { data_text = text; updated = ts } ∷ rs)
verified_row ts r _ _ = none

abbrev kept : Row → Option (List Row) → Option (List Row)
kept r none = none
kept r (some rs) = some (r ∷ rs)

-- the update of the record behind a ticket
unfoldable pub set_verified : Serde → Text → Text → Text → List Row → Option (List Row)
unfolding verified_text is_at
set_verified serde name id ts [] = some []
set_verified serde name id ts (r ∷ rs) =
    let rest = set_verified serde name id ts rs in
    if is_at name id r
    then verified_row ts r (verified_text serde r.data_text) rest
    else kept r rest

abbrev row_events : Serde → Text → Option Row → List Json
row_events serde name none = []
row_events serde name (some r) =
    change (bytes "update") name (record_json serde name r.id r.data_text r.created r.updated) ∷ []

-- the transaction of a verification: the events, one unless the record is gone, and the database
unfoldable pub verify : Host → Transaction → Db → Text → Json → Text → Text → Reply (List Json × Db)
unfolding bytes key str_or_empty verify_type take_ticket burn set_verified fetch_record
verify host tx db name body now ts = do
  let token = str_or_empty (key (bytes "token") body)
  oops tx.begin
  id ← take_ticket db name verify_type token now
  rows ←
      ok_or (set_verified host.serde name id ts db.records)
        (failure internal_server_error host.sqlite.malformed)
  let db₁ = burned token (record db { records = rows })
  oops tx.commit
  ok (row_events host.serde name (fetch_record db₁ name id), db₁)

unfoldable pub confirm_verification :
    Host → Transaction → Server → Text → Json → Text → Text → Reply Json × Server
unfolding verify
confirm_verification host tx s name body now ts = elim (verify host tx s.db name body now ts) [
  | err e ↦ (err e, s)
  | ok (events, db) ↦ (ok (Json.obj Fields.end), record { db = db; sent = s.sent ++ events })
]
