-- ===== src/Records/Secrets.antt =====
-- No write of src/records.rs shows a password hash or a revocation counter.
use rockbase.Prelude.{◌≡◌, refl, ap, sym, subst, Option, none, some, Text, bytes, same, ok}
use rockbase.Json.{Json, get-insert, get-remove}
use rockbase.Env.{Serde}
use rockbase.Auth.{Who}
use rockbase.Db.{Db, Host}
use rockbase.Records.{epoch_field, key, record_json, Effect, change}
use rockbase.Records.Create.{create_core}
use rockbase.Records.Update.{update_core}
use rockbase.Records.Delete.{delete_core}
use rockbase.Records.Steps.{
  create_core-Created, update_core-Updated, delete_core-Deleted, store-eq-ok,
}

-- A value that has neither of the two keys that stay in the database.
abbrev pub IsScrubbed : Json → Type 0
IsScrubbed v = (key (bytes "password_hash") v ≡ none) × (key epoch_field v ≡ none)

-- the record in an event
abbrev pub record_of : Json → Option Json
record_of event = key (bytes "record") event

-- the response and the record of the event are scrubbed
abbrev pub IsDiscreet : Effect → Type 0
IsDiscreet e = IsScrubbed e.body × ((rec : Json) × (record_of e.event ≡ some rec) × IsScrubbed rec)

record_json-IsScrubbed :
    (serde : Serde) (c id data_text created updated : Text)
    → IsScrubbed (record_json serde c id data_text created updated)
unfolding record_json key epoch_field bytes same
record_json-IsScrubbed serde c id data_text created updated =
    (simp (get-insert, get-remove), simp (get-insert, get-remove))

record_of-change :
    (action topic : Text) (rec : Json) → record_of (change action topic rec) ≡ some rec
unfolding key change bytes same
record_of-change action topic rec = simp get-insert

-- The effect of a create or an update: one scrubbed record, answered and published.
discreet :
    (serde : Serde) (action c id text created updated : Text) (e : Effect)
    → e ≡ record {
      body = record_json serde c id text created updated;
      event = change action c (record_json serde c id text created updated);
    }
    → IsDiscreet e
discreet serde action c id text created updated e h =
    let rec = record_json serde c id text created updated in
    let clean = record_json-IsScrubbed serde c id text created updated in
    subst IsDiscreet (sym h) (clean, (rec, record_of-change action c rec, clean))

pub create_core-IsDiscreet :
    (host : Host) (db : Db) (w : Who) (name : Text) (body : Json) (id ts : Text) (out : Effect × Db)
    → create_core host db w name body id ts ≡ ok out
    → IsDiscreet out.0
create_core-IsDiscreet host db w name body id ts out h =
    let c = create_core-Created host db w name body id ts out h in
    let (_, e) = store-eq-ok host db name id ts c.prepared out c.stored in
    discreet host.serde (bytes "create") name id _ ts ts out.0 (ap (λ (p : Effect × Db). p.0) e)

pub update_core-IsDiscreet :
    (host : Host) (db : Db) (w : Who) (name id : Text) (body : Json) (ts : Text) (out : Effect × Db)
    → update_core host db w name id body ts ≡ ok out
    → IsDiscreet out.0
update_core-IsDiscreet host db w name id body ts out h =
    let u = update_core-Updated host db w name id body ts out h in
    discreet host.serde (bytes "update") name id _ u.row.created ts out.0
      (ap (λ (p : Effect × Db). p.0) u.stored)

pub delete_core-IsDiscreet :
    (host : Host) (db : Db) (w : Who) (name id : Text) (out : Effect × Db)
    → delete_core host db w name id ≡ ok out
    → IsDiscreet out.0
unfolding key
delete_core-IsDiscreet host db w name id out h =
    let d = delete_core-Deleted host db w name id out h in
    let rec = record_json host.serde name id d.row.data_text d.row.created d.row.updated in
    subst IsDiscreet (sym (ap (λ (p : Effect × Db). p.0) d.stored)) (
      (refl, refl),
      (
        rec,
        record_of-change (bytes "delete") name rec,
        record_json-IsScrubbed host.serde name id d.row.data_text d.row.created d.row.updated,
      ),
    )
