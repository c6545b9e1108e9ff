-- ===== src/Auth/Tests.antt =====
-- Runs of the tokens, logins and tickets of src/auth.rs.
use rockbase.Prelude.{
  length, ℕ, ◌≡◌, ◌≢◌, ◌⊎◌, refl, true, none, some, [], ◌∷◌, ◌++◌, Text, bytes, arith, text_lt, ok,
  err,
}
use rockbase.Prelude.Int.{pos}
use rockbase.Json.{Json, Fields, contains_key, as_i64}
use rockbase.Env.Samples.{f64_sample}
use rockbase.Http.{Reply, Failure}
use rockbase.Rules.{Rules}
use rockbase.Db.{Db, Host}
use rockbase.Records.{Effect, epoch_field, token_epoch}
use rockbase.Records.Update.{update_core, wants_revoke}
use rockbase.Records.Samples.{writes}
use rockbase.Auth.{admin, user}
use rockbase.Auth.Tokens.{Claims, Jwt, Secrets, from_jwt}
use rockbase.Auth.Sessions.{update_core-revokes}
use rockbase.Auth.Samples.{int_serde, int_serde-KeepsInts, encode, decode}
use rockbase.Auth.Login.{find_fails, locked, check_accounts, credentials}
use rockbase.Auth.Throttle.{login-locks, login_of, after, Try, IsWrong}
use rockbase.Auth.Tickets.{confirm_password_reset, take_ticket, bad_ticket, reset_type, burned}
use rockbase.Auth.SingleUse.{reset-outcome, Resets, token_of}
use rockbase.Batch.{Server, Transaction}

abbrev users : Text
users = bytes "users"

abbrev alice : Text
alice = bytes "alice01"

abbrev host_ints : Host
host_ints = record {
  f64 = f64_sample;
  serde = int_serde;
  bcrypt = record { hash = λ s. ok s; verify = λ s h. some true };
  sqlite = record {
    select_exists = λ sql binds rows. some true;
    select_rows = λ sql binds rows. some rows;
    count_rows = λ sql binds rows. some (length rows);
    failed = bytes "disk I/O error";
    conflict = bytes "UNIQUE";
    malformed = bytes "malformed JSON";
  };
}

abbrev closed_rules : Rules
closed_rules = record { list = none; view = none; create = none; update = none; delete = none }

abbrev accounts : Db
accounts = record {
  collections =
      record { name = users; ty = bytes "auth"; schema = bytes "[]"; rules = closed_rules } ∷ [];
  records =
      record {
        collection = users;
        id = alice;
        data_text = encode (Fields.field epoch_field (Json.int (pos 3)) Fields.end);
        created = bytes "t0";
        updated = bytes "t0";
      }
      ∷ [];
  tokens =
      record {
        token = bytes "secret";
        collection = users;
        subject = alice;
        ty = reset_type;
        created = bytes "t0";
        expires = bytes "t9";
      }
      ∷ [];
  params = [];
}

abbrev alice_claims : Claims
alice_claims = record { sub = alice; col = users; exp = 99; epoch = pos 3 }

abbrev jwt_sample : Jwt
jwt_sample = record { decode = λ s t. some alice_claims; encode = λ s c. ok s }

abbrev secrets : Secrets
secrets = record { jwt_secret = bytes "j"; admin_token = bytes "a" }

abbrev new_password : Fields
new_password = Fields.field (bytes "password") (Json.str (bytes "longenough")) Fields.end

abbrev out_of : Reply (Effect × Db) → Effect × Db
out_of (ok out) = out
out_of (err e) = (record { body = Json.null; event = Json.null }, accounts)

abbrev changed : Effect × Db
changed =
    out_of (update_core host_ints accounts admin users alice (Json.obj new_password) (bytes "t1"))

changes :
    update_core host_ints accounts admin users alice (Json.obj new_password) (bytes "t1")
    ≡ ok changed
unfolding writes wants_revoke contains_key encode decode
changes = refl

signed : from_jwt int_serde jwt_sample secrets accounts (bytes "t") ≡ some (user users alice)
unfolding writes from_jwt encode decode token_epoch as_i64
signed = refl

is_identity : from_jwt int_serde jwt_sample secrets accounts (bytes "t") ≢ none
is_identity e = cc (signed, e)

update_core-revokes_example : from_jwt int_serde jwt_sample secrets changed.1 (bytes "t") ≡ none
unfolding writes wants_revoke contains_key from_jwt encode
update_core-revokes_example =
    update_core-revokes host_ints jwt_sample secrets accounts admin (Json.obj new_password)
      new_password (bytes "t1") (bytes "t") alice_claims changed int_serde-KeepsInts refl refl refl
      refl is_identity changes

abbrev server : Server
server = record { db = accounts; sent = [] }

abbrev begins : Transaction
begins = record { begin = none; commit = none }

abbrev reset_body : Json
reset_body = Json.obj (Fields.field (bytes "token") (Json.str (bytes "secret")) new_password)

reset-outcome_example :
    ((e : Failure) × (confirm_password_reset host_ints begins server users reset_body
          (bytes "t1")
          (bytes "t1")
        ≡ (err e, server)))
    ⊎ ((event : Json) × (left : Db) × Resets host_ints accounts users reset_body
          (bytes "t1")
          (bytes "t1")
          event
          left
        × (confirm_password_reset host_ints begins server users reset_body (bytes "t1") (bytes "t1")
            ≡ (ok (Json.obj Fields.end), record { db = left; sent = [] ++ event ∷ [] }))
        × ((col ty later : Text)
            → take_ticket left col ty (token_of reset_body) later ≡ err bad_ticket))
reset-outcome_example =
    reset-outcome host_ints begins server users reset_body (bytes "t1") (bytes "t1")

resets :
    Resets host_ints accounts users reset_body
      (bytes "t1")
      (bytes "t1")
      changed.0.event
      (burned (bytes "secret") changed.1)
unfolding writes wants_revoke contains_key encode decode take_ticket text_lt reset_type
resets = record {
  id = alice;
  out = changed;
  taken = refl;
  changed = changes;
  published = refl;
  committed = refl;
}

abbrev wrong : ℕ → Try host_ints jwt_sample secrets users (bytes "nobody")
wrong now = (now, accounts, bytes "guess")

unfoldable logins : Unit {0}
unfolding writes check_accounts credentials encode decode
logins = tt

is_wrong : (now : ℕ) → IsWrong host_ints jwt_sample secrets users (bytes "nobody") (wrong now)
unfolding logins
is_wrong now = (refl, refl)

login-locks_example :
    login_of host_ints jwt_sample secrets users
      (bytes "nobody")
      (wrong 800)
      (login_of host_ints jwt_sample secrets users (bytes "nobody") (wrong 4) (
        after host_ints jwt_sample secrets users
          (bytes "nobody")
          (wrong 0 ∷ wrong 1 ∷ wrong 2 ∷ wrong 3 ∷ [])
          [])).1
    ≡ (
      err locked,
      (login_of host_ints jwt_sample secrets users (bytes "nobody") (wrong 4) (
          after host_ints jwt_sample secrets users
            (bytes "nobody")
            (wrong 0 ∷ wrong 1 ∷ wrong 2 ∷ wrong 3 ∷ [])
            [])).1,
    )
unfolding find_fails
login-locks_example =
    login-locks host_ints jwt_sample secrets users (bytes "nobody")
      (wrong 0 ∷ wrong 1 ∷ wrong 2 ∷ wrong 3 ∷ []) (wrong 4) (wrong 800) [] refl refl
      (is_wrong 0, (is_wrong 1, (is_wrong 2, (is_wrong 3, tt)))) (is_wrong 4) (omega arith)
