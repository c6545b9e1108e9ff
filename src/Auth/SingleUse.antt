-- ===== src/Auth/SingleUse.antt =====
-- What spending a ticket of src/auth.rs does.
use rockbase.Prelude.{
  ◌≡◌, ◌≢◌, refl, ap, sym, subst, ◌∙◌, ◌⊎◌, inl, inr, false, none, some, List, [], ◌∷◌, ◌++◌, Text,
  bytes, same, same_iff, arith, ok, err, ◌>>=◌, >>=-eq-ok, ok-injective, Result-cases,
}
use rockbase.Json.{Json, Fields, get, as_object, contains_key}
use rockbase.Http.{Failure}
use rockbase.Db.{Db, Ticket, Host}
use rockbase.Records.{Effect, key, str_or_empty, epoch_field}
use rockbase.Records.Update.{update_core, wants_revoke}
use rockbase.Auth.{admin}
use rockbase.Auth.Tokens.{Claims, Jwt, Secrets, from_jwt}
use rockbase.Auth.Sessions.{KeepsInts, update_core-revokes}
use rockbase.Records.Gate.{fetch_record}
use rockbase.Auth.Tickets.{
  reset_type, bad_ticket, is_spendable, find_ticket, take_ticket, burn, burned, password_patch,
  reset, confirm_password_reset,
}
use rockbase.Batch.{Server, Transaction, oops}

find_ticket-burn :
    (col ty token now : Text) (ts : List Ticket)
    → find_ticket col ty token now (burn token ts) ≡ none
unfolding find_ticket burn
find_ticket-burn col ty token now [] = refl
find_ticket-burn col ty token now (t ∷ ts) = ground (arith, find_ticket-burn col ty token now ts)

find_ticket-burn_ne :
    (token col ty other now : Text) (ts : List Ticket)
    → same token other ≡ false
    → find_ticket col ty other now (burn token ts) ≡ find_ticket col ty other now ts
unfolding find_ticket burn is_spendable
find_ticket-burn_ne token col ty other now [] h = refl
find_ticket-burn_ne token col ty other now (t ∷ ts) h = ground (
  arith,
  find_ticket-burn_ne token col ty other now ts h,
  same_iff t.token token,
  same_iff t.token other,
  same_iff token other,
)

-- A burned ticket is good for nothing any more: no purpose, no collection, no time.
take_ticket-burned :
    (db : Db) (token col ty now : Text)
    → take_ticket (burned token db) col ty token now ≡ err bad_ticket
unfolding take_ticket
take_ticket-burned db token col ty now =
    rw (find_ticket-burn col ty token now db.tokens, take_ticket) refl

take_ticket-burned_ne :
    (db : Db) (token other col ty now : Text)
    → same token other ≡ false
    → take_ticket (burned token db) col ty other now ≡ take_ticket db col ty other now
unfolding take_ticket
take_ticket-burned_ne db token other col ty now h =
    rw (find_ticket-burn_ne token col ty other now db.tokens h, take_ticket) refl

-- the token and the patch of a reset's body
abbrev pub token_of : Json → Text
token_of body = str_or_empty (key (bytes "token") body)

abbrev pub patch_of : Json → Json
patch_of body = password_patch (key (bytes "password") body)

pub record Resets (host : Host) (db : Db) (name : Text) (body : Json) (now ts : Text) (event : Json)
    (left : Db) : Type 0 where
  pub id : Text
  pub out : Effect × Db
  pub taken : take_ticket db name reset_type (token_of body) now ≡ ok id
  pub changed : update_core host db admin name id (patch_of body) ts ≡ ok out
  pub published : event ≡ out.0.event
  pub committed : left ≡ burned (token_of body) out.1

reset-Resets :
    (host : Host) (tx : Transaction) (db : Db) (name : Text) (body : Json) (now ts : Text)
    (done : Json × Db)
    → reset host tx db name body now ts ≡ ok done
    → Resets host db name body now ts done.0 done.1
unfolding reset
reset-Resets host tx db name body now ts done h =
    let commit = λ (out : Effect × Db).
      oops tx.commit >>= λ _. ok (out.0.event, burned (token_of body) out.1) in
    let change = λ (id : Text). update_core host db admin name id (patch_of body) ts >>= commit in
    let spend = take_ticket db name reset_type (token_of body) now >>= change in
    let (_, e₁, h₁) = >>=-eq-ok (oops tx.begin) (λ _. spend) h in
    let (id, e₂, h₂) = >>=-eq-ok (take_ticket db name reset_type (token_of body) now) change h₁ in
    let (out, e₃, h₃) =
      >>=-eq-ok (update_core host db admin name id (patch_of body) ts) commit h₂ in
    let (_, e₄, h₄) =
      >>=-eq-ok (oops tx.commit) (λ _. ok (out.0.event, burned (token_of body) out.1)) h₃ in
    record {
      id = id;
      out = out;
      taken = e₂;
      changed = e₃;
      published = ap (λ (p : Json × Db). p.0) (sym (ok-injective h₄));
      committed = ap (λ (p : Json × Db). p.1) (sym (ok-injective h₄));
    }

-- A password reset either is refused, and then the tickets, the records and the broadcasts are as
-- before, so the ticket can be tried again; or its ticket was a fresh one for a reset in this
-- collection, the record's password went through the update of an admin, the one event of that
-- update is broadcast, and the ticket is spent: it is refused ever after, for every purpose.
pub reset-outcome :
    (host : Host) (tx : Transaction) (s : Server) (name : Text) (body : Json) (now ts : Text)
    → ((e : Failure) × (confirm_password_reset host tx s name body now ts ≡ (err e, s)))
      ⊎ ((event : Json) × (left : Db) × Resets host s.db name body now ts event left
          × (confirm_password_reset host tx s name body now ts
              ≡ (ok (Json.obj Fields.end), record { db = left; sent = s.sent ++ event ∷ [] }))
          × ((col ty later : Text)
              → take_ticket left col ty (token_of body) later ≡ err bad_ticket))
unfolding confirm_password_reset
reset-outcome host tx s name body now ts =
    elim (Result-cases (reset host tx s.db name body now ts)) [
      | inr (e, f) ↦ inl (e, rw (f, confirm_password_reset) refl)
      | inl (done, f) ↦
          let r = reset-Resets host tx s.db name body now ts done f in
          inr (
            done.0,
            done.1,
            r,
            rw (f, confirm_password_reset) refl,
            λ col ty later.
                ap (λ d. take_ticket d col ty (token_of body) later) r.committed
                ∙ take_ticket-burned r.out.1 (token_of body) col ty later,
          )
    ]

from_jwt-burned :
    (host : Host) (jwt : Jwt) (s : Secrets) (db : Db) (token t : Text)
    → from_jwt host.serde jwt s (burned token db) t ≡ from_jwt host.serde jwt s db t
unfolding from_jwt fetch_record
from_jwt-burned host jwt s db token t = refl

-- A password reset ends every session of its record: a token for it that was an identity before the
-- reset is none after it, where serde_json reads an integer back as it wrote it.
pub reset-revokes :
    (host : Host) (jwt : Jwt) (sec : Secrets) (db : Db) (body : Json) (now ts t : Text) (c : Claims)
    (event : Json) (left : Db)
    → KeepsInts host.serde
    → (r : Resets host db c.col body now ts event left) → r.id ≡ c.sub
    → jwt.decode sec.jwt_secret t ≡ some c
    → from_jwt host.serde jwt sec db t ≢ none
    → from_jwt host.serde jwt sec left t ≡ none
unfolding wants_revoke epoch_field bytes same as_object get contains_key
reset-revokes host jwt sec db body now ts t c event left keeps r its d accepted =
    ap (λ x. from_jwt host.serde jwt sec x t) r.committed
    ∙ from_jwt-burned host jwt sec r.out.1 (token_of body) t
    ∙ update_core-revokes host jwt sec db admin (patch_of body) _ ts t c r.out keeps refl refl refl
        d accepted
        (subst (λ i. update_core host db admin c.col i (patch_of body) ts ≡ ok r.out) its r.changed)
