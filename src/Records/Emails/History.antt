-- ===== src/Records/Emails/History.antt =====
-- The emails of accounts through any sequence of requests to src/records.rs, and of drops of
-- collections.
use rockbase.Prelude.{
  ◌≡◌, ◌≢◌, refl, sym, subst, inl, inr, some, List, [], ◌∷◌, Text, All, ok, err, Option-cases,
  Result-cases,
}
use rockbase.Json.{Fields, as_object}
use rockbase.Http.{Reply}
use rockbase.Auth.{Who}
use rockbase.Auth.Tokens.{only_admin}
use rockbase.Db.{Db, Host, find_collection}
use rockbase.Records.{Effect}
use rockbase.Records.Create.{create_core}
use rockbase.Records.Update.{update_core}
use rockbase.Records.Delete.{delete_core}
use rockbase.Collections.Handlers.{Catalog, collections_delete}
use rockbase.Files.Storage.{Disk, Faults}
use rockbase.Files.Upload.{Upload}
use rockbase.Records.Serve.{
  State, published, created, updated, deleted, checked, record_create, record_update, record_delete,
  collection_delete,
}
use rockbase.Records.Serve.History.{
  Request, creates, updates, deletes, drops, serve, serve_all, checked-eq-ok,
}
use rockbase.Records.Emails.{HasOwnEmails, Writes-HasOwnEmails}
use rockbase.Records.Emails.Merge.{IsMap}
use rockbase.Records.Emails.Creates.{KeepsEmails, create_core-Writes}
use rockbase.Records.Emails.Drops.{without_collection-HasOwnEmails}
use rockbase.Records.Emails.Updates.{update_core-Writes, delete_core-Writes}

-- a fresh id is not empty, and a body is an object as a parser gives it
abbrev pub IsServed : Request → Type 0
IsServed (creates w name up id ts) = id ≢ []
IsServed (updates w name id (ok up) ts) =
    (patch : Fields) → as_object up.fields ≡ some patch → IsMap patch
IsServed _ = Unit

published-db :
    (effect : Effect) (db : Db) (s : State) (r : Reply (Unit {0}) × Disk)
    → (published effect db s r).1.db ≡ db
published-db effect db s (ok u, disk) = refl
published-db effect db s (err e, disk) = refl

module _ (faults : Faults) (host : Host) (k : KeepsEmails host.serde) where
  creates-HasOwnEmails :
      (w : Who) (name : Text) (up : Upload) (id ts : Text) (s : State)
      → id ≢ []
      → HasOwnEmails host.serde s.db
      → (r : Reply (Effect × Db))
      → checked host s.db name up.files (create_core host s.db w name up.fields id ts) ≡ r
      → HasOwnEmails host.serde (created faults name up.files s r).1.db
  creates-HasOwnEmails w name up id ts s nonempty h (err e) r = h
  creates-HasOwnEmails w name up id ts s nonempty h (ok (effect, db)) r =
      let went = checked-eq-ok host s.db name up.files _ (effect, db) r in
      subst (HasOwnEmails host.serde) (sym (published-db effect db s _)) (
        Writes-HasOwnEmails h
          (create_core-Writes host s.db w name k h up.fields id ts (effect, db) nonempty went))

  updates-HasOwnEmails :
      (w : Who) (name id : Text) (up : Upload) (ts : Text) (s : State)
      → ((patch : Fields) → as_object up.fields ≡ some patch → IsMap patch)
      → HasOwnEmails host.serde s.db
      → (r : Reply (Effect × Db))
      → checked host s.db name up.files (update_core host s.db w name id up.fields ts) ≡ r
      → HasOwnEmails host.serde (updated faults name id up.files s r).1.db
  updates-HasOwnEmails w name id up ts s maps h (err e) r = h
  updates-HasOwnEmails w name id up ts s maps h (ok (effect, db)) r =
      let went = checked-eq-ok host s.db name up.files _ (effect, db) r in
      subst (HasOwnEmails host.serde) (sym (published-db effect db s _)) (
        Writes-HasOwnEmails h
          (update_core-Writes host s.db w name k h id up.fields ts (effect, db) maps went))

  deletes-HasOwnEmails :
      (w : Who) (name id : Text) (s : State)
      → HasOwnEmails host.serde s.db
      → (r : Reply (Effect × Db)) → delete_core host s.db w name id ≡ r
      → HasOwnEmails host.serde (deleted faults name id s r).1.db
  deletes-HasOwnEmails w name id s h (err e) r = h
  deletes-HasOwnEmails w name id s h (ok (effect, db)) r =
      Writes-HasOwnEmails h (delete_core-Writes host s.db w name k h id (effect, db) r)

  drops-HasOwnEmails :
      (w : Who) (name : Text) (s : State)
      → HasOwnEmails host.serde s.db
      → HasOwnEmails host.serde (collection_delete faults w name s).1.db
  unfolding collection_delete
  drops-HasOwnEmails w name s h =
      let c : Catalog = record { db = s.db; version = s.version; dropped = [] } in
      elim (Result-cases (only_admin w)) [
        | inr (x, e) ↦ rw (e, collections_delete) h
        | inl (u, e) ↦ elim (Option-cases (find_collection name s.db.collections)) [
          | inl f ↦ rw (e, f, collections_delete) h
          | inr (row, f) ↦
              rw (e, f, collections_delete) (without_collection-HasOwnEmails host.serde c name h)
        ]
      ]

  serve-HasOwnEmails :
      (r : Request) (s : State)
      → IsServed r
      → HasOwnEmails host.serde s.db
      → HasOwnEmails host.serde (serve faults host r s).db
  unfolding serve record_create record_update record_delete
  serve-HasOwnEmails (creates w name (err e) id ts) s g h = h
  serve-HasOwnEmails (creates w name (ok up) id ts) s g h =
      creates-HasOwnEmails w name up id ts s g h _ refl
  serve-HasOwnEmails (updates w name id (err e) ts) s g h = h
  serve-HasOwnEmails (updates w name id (ok up) ts) s g h =
      updates-HasOwnEmails w name id up ts s g h _ refl
  serve-HasOwnEmails (deletes w name id) s g h = deletes-HasOwnEmails w name id s h _ refl
  serve-HasOwnEmails (drops w name) s g h = drops-HasOwnEmails w name s h

  -- No two records of an auth collection come to have the same email, through any sequence of creates,
  -- updates and deletes of records and of drops of collections, from tables where none have, where
  -- every row reads as JSON and no id is empty. Fresh ids are not empty, no key of a patch comes
  -- twice, and serde_json reads back what it wrote, emails as they were.
  pub serve_all-HasOwnEmails :
      (rs : List Request) (s : State)
      → All IsServed rs
      → HasOwnEmails host.serde s.db
      → HasOwnEmails host.serde (serve_all faults host rs s).db
  unfolding serve_all
  serve_all-HasOwnEmails [] s g h = h
  serve_all-HasOwnEmails (r ∷ rs) s g h =
      serve_all-HasOwnEmails rs (serve faults host r s) g.1 (serve-HasOwnEmails r s g.0 h)
