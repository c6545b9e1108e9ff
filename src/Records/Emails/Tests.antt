-- ===== src/Records/Emails/Tests.antt =====
-- Runs of src/records.rs on accounts.
use rockbase.Prelude.{
  ◌≡◌, refl, subst, same, length, none, some, Option, List, [], ◌∷◌, Text, bytes, ok, All, false,
}
use rockbase.Json.{Json, Fields, get, as_str, as_object, contains_key}
use rockbase.Auth.{guest, admin}
use rockbase.Rules.{defaults}
use rockbase.Db.{Db, Host, find_row}
use rockbase.Records.Gate.{fetch_record, email_taken}
use rockbase.Records.{str_of, verified_field}
use rockbase.Records.Samples.{host_sample, writes}
use rockbase.Files.Storage.{Faults, write_files}
use rockbase.Files.Upload.{Upload}
use rockbase.Records.Serve.{State, record_create, record_update}
use rockbase.Records.Serve.History.{Request, creates, updates, serve_all}
use rockbase.Records.Emails.{HasOwnEmails}
use rockbase.Records.Emails.Merge.{IsMap}
use rockbase.Records.Emails.Creates.{KeepsEmails}
use rockbase.Records.Emails.History.{IsServed, serve_all-HasOwnEmails}

-- a store that keeps the email of a record
abbrev spelled : Option Text → Text
spelled none = []
spelled (some e) = 1 ∷ e

write : Json → Text
unfolding str_of as_str get bytes
write (Json.obj m) = spelled (str_of (get (bytes "email") m))
write _ = []

abbrev read : Text → Fields
read [] = Fields.end
read (_ ∷ e) = Fields.field (bytes "email") (Json.str e) Fields.end

abbrev host_emails : Host
host_emails = record host_sample {
  serde = record { to_string = write; from_str = λ t. some (read t); from_str_list = λ t. some [] };
}

read-spelled : (o : Option Text) → str_of (get (bytes "email") (read (spelled o))) ≡ o
unfolding str_of as_str get bytes same
read-spelled none = refl
read-spelled (some e) = refl

keeps : KeepsEmails host_emails.serde
unfolding write
keeps = record {
  back = λ m. read (write (Json.obj m));
  reads = λ m. refl;
  keeps = λ m. read-spelled (str_of (get (bytes "email") m));
}

abbrev users : Text
users = bytes "users"

abbrev no_accounts : Db
no_accounts = record {
  collections =
      record {
        name = users;
        ty = bytes "auth";
        schema = bytes "[]";
        rules = defaults (bytes "auth");
      }
      ∷ [];
  records = [];
  tokens = [];
  params = [];
}

abbrev account : Text → Upload
account email = record {
  fields = Json.obj (
      Fields.field (bytes "email") (Json.str email)
        (Fields.field (bytes "password") (Json.str (bytes "12345678")) Fields.end));
  files = [];
}

abbrev no_faults : Faults
no_faults = record { create_dir = λ p. none; write = λ p. none; keeps = λ p. false }

abbrev at_start : State
at_start = record { db = no_accounts; version = 0; disk = []; sent = [] }

-- two accounts with one email, and a change of the first to another
abbrev sign_ups : List Request
sign_ups =
    creates guest users (ok (account (bytes "a@x"))) (bytes "a") (bytes "t1")
    ∷ creates guest users (ok (account (bytes "a@x"))) (bytes "b") (bytes "t2")
    ∷ updates admin users (bytes "a") (ok (account (bytes "b@x"))) (bytes "t3")
    ∷ []

abbrev fields_of : Json → Fields
fields_of (Json.obj m) = m
fields_of _ = Fields.end

two_keys : IsMap (fields_of (account (bytes "b@x")).fields)
unfolding get bytes same
two_keys = (refl, (refl, tt))

served : All IsServed sign_ups
unfolding bytes as_object
served = (
  λ z. cc,
  (
    λ z. cc,
    (
      λ patch h.
          let m : fields_of (account (bytes "b@x")).fields ≡ patch = cc (h) in
          subst IsMap m two_keys,
      tt,
    ),
  ),
)

accounts-HasOwnEmails : HasOwnEmails host_emails.serde no_accounts
unfolding fetch_record find_row
accounts-HasOwnEmails = record {
  readable = tt;
  named = λ name. refl;
  unique = λ name col c auth e x y r t fr ft. cc (fr);
}

serve_all-HasOwnEmails_example :
    HasOwnEmails host_emails.serde (serve_all no_faults host_emails sign_ups at_start).db
serve_all-HasOwnEmails_example =
    serve_all-HasOwnEmails no_faults host_emails keeps sign_ups at_start served
      accounts-HasOwnEmails

-- the second account is refused
abbrev left : State
left = serve_all no_faults host_emails sign_ups at_start

one_account : length left.db.records ≡ 1
unfolding writes write serve_all record_update record_create defaults contains_key email_taken
    write_files verified_field
one_account = refl
