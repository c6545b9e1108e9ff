-- ===== src/Records/Serve/History.antt =====
-- The disk through any sequence of requests to src/records.rs, and of drops of collections.
use rockbase.Prelude.{
  ◌≡◌, ◌≢◌, refl, sym, subst, inl, inr, false, none, List, [], ◌∷◌, Text, bytes, same, ok, err,
  Option-cases, Result-cases,
}
use rockbase.Json.{Json, get-insert}
use rockbase.Http.{Reply}
use rockbase.Auth.{Who}
use rockbase.Auth.Tokens.{only_admin}
use rockbase.Db.{Db, Host, find_collection}
use rockbase.Records.{key, str_or_empty, record_json, Effect}
use rockbase.Records.Gate.{fetch_record}
use rockbase.Records.Create.{create_core}
use rockbase.Records.Update.{update_core}
use rockbase.Records.Delete.{delete_core}
use rockbase.Records.Steps.{create_core-Created, store-eq-ok}
use rockbase.Records.Rows.{create_core-stores, update_core-stores, delete_core-removes}
use rockbase.Collections.Handlers.{Catalog, collections_delete}
use rockbase.Files.{FilePart}
use rockbase.Files.Storage.{FilePath, Disk, Faults, write_files}
use rockbase.Files.Upload.{Upload}
use rockbase.Records.Serve.{
  State, check_files, published, created, updated, deleted, checked, record_create, record_update,
  record_delete, collection_delete,
}
use rockbase.Records.Serve.Owners.{
  HasOwners, kept_all, write_files-HasOwners, remove_record_files-HasOwners,
}
use rockbase.Records.Serve.Drops.{remove_collection_files-HasOwners}

pub data Request : Type 0 where
  creates : Who → Text → Reply Upload → Text → Text → Request
  updates : Who → Text → Text → Reply Upload → Text → Request
  deletes : Who → Text → Text → Request
  drops : Who → Text → Request

unfoldable pub serve : Faults → Host → Request → State → State
serve faults host (creates w name up id ts) s = (record_create faults host w name up id ts s).1
serve faults host (updates w name id up ts) s = (record_update faults host w name id up ts s).1
serve faults host (deletes w name id) s = (record_delete faults host w name id s).1
serve faults host (drops w name) s = (collection_delete faults w name s).1

unfoldable pub serve_all : Faults → Host → List Request → State → State
unfolding serve
serve_all faults host [] s = s
serve_all faults host (r ∷ rs) s = serve_all faults host rs (serve faults host r s)

abbrev IsTidy : State → Type 0
IsTidy s = HasOwners s.db s.disk

record_json-id :
    (host : Host) (name id text created updated : Text)
    → str_or_empty (key (bytes "id") (record_json host.serde name id text created updated)) ≡ id
unfolding record_json key str_or_empty same
record_json-id host name id text created updated =
    rw (get-insert, get-insert, get-insert, get-insert) refl

created-id :
    (host : Host) (db : Db) (w : Who) (name : Text) (body : Json) (id ts : Text) (out : Effect × Db)
    → create_core host db w name body id ts ≡ ok out
    → str_or_empty (key (bytes "id") out.0.body) ≡ id
created-id host db w name body id ts out h =
    let c = create_core-Created host db w name body id ts out h in
    let (free, e) = store-eq-ok host db name id ts c.prepared out c.stored in
    let body : out.0.body
        ≡ record_json host.serde name id (host.serde.to_string (Json.obj c.prepared)) ts ts =
      cc (e) in
    rw body (record_json-id host name id (host.serde.to_string (Json.obj c.prepared)) ts ts)

published-IsTidy :
    (effect : Effect) (db : Db) (s : State) (r : Reply (Unit {0}) × Disk)
    → HasOwners db r.1
    → IsTidy (published effect db s r).1
published-IsTidy effect db s (ok u, disk) h = h
published-IsTidy effect db s (err e, disk) h = h

pub checked-eq-ok :
    (host : Host) (db : Db) (name : Text) (files : List FilePart) (core : Reply (Effect × Db))
    (out : Effect × Db)
    → checked host db name files core ≡ ok out
    → core ≡ ok out
checked-eq-ok host db name files core out h = elim (Result-cases (check_files host db name files)) [
  | inl (u, e) ↦ cc (h, e)
  | inr (x, e) ↦ cc (h, e)
]

module _ (faults : Faults) (host : Host) (k : (p : FilePath) → faults.keeps p ≡ false) where
  created-IsTidy :
      (w : Who) (name : Text) (up : Upload) (id ts : Text) (s : State) (core : Reply (Effect × Db))
      → create_core host s.db w name up.fields id ts ≡ core
      → IsTidy s
      → (r : Reply (Effect × Db)) → checked host s.db name up.files core ≡ r
      → IsTidy (created faults name up.files s r).1
  created-IsTidy w name up id ts s core c h (err e) r = h
  created-IsTidy w name up id ts s core c h (ok (effect, db)) r =
      let went = checked-eq-ok host s.db name up.files core (effect, db) r in
      let e : create_core host s.db w name up.fields id ts ≡ ok (effect, db) = cc (c, went) in
      let (free, (m, found), others) =
        create_core-stores host s.db w name up.fields id ts (effect, db) e in
      let there : fetch_record db name id ≢ none = λ z. cc (z, found) in
      let target = created-id host s.db w name up.fields id ts (effect, db) e in
      let tidy =
        write_files-HasOwners db faults name id there up.files s.disk
          (kept_all name id s.db db s.disk others there h) in
      let at = str_or_empty (key (bytes "id") effect.body) in
      published-IsTidy effect db s (write_files faults name at up.files s.disk)
        (subst (λ t. HasOwners db (write_files faults name t up.files s.disk).1) (sym target) tidy)

  updated-IsTidy :
      (w : Who) (name id : Text) (up : Upload) (ts : Text) (s : State) (core : Reply (Effect × Db))
      → update_core host s.db w name id up.fields ts ≡ core
      → IsTidy s
      → (r : Reply (Effect × Db)) → checked host s.db name up.files core ≡ r
      → IsTidy (updated faults name id up.files s r).1
  updated-IsTidy w name id up ts s core c h (err e) r = h
  updated-IsTidy w name id up ts s core c h (ok (effect, db)) r =
      let went = checked-eq-ok host s.db name up.files core (effect, db) r in
      let e : update_core host s.db w name id up.fields ts ≡ ok (effect, db) = cc (c, went) in
      let ((row, text, before, found), others) =
        update_core-stores host s.db w name id up.fields ts (effect, db) e in
      let there : fetch_record db name id ≢ none = λ z. cc (z, found) in
      published-IsTidy effect db s (write_files faults name id up.files s.disk) (
        write_files-HasOwners db faults name id there up.files s.disk
          (kept_all name id s.db db s.disk others there h))

  deleted-IsTidy :
      (w : Who) (name id : Text) (s : State)
      → IsTidy s
      → (r : Reply (Effect × Db)) → delete_core host s.db w name id ≡ r
      → IsTidy (deleted faults name id s r).1
  deleted-IsTidy w name id s h (err e) r = h
  deleted-IsTidy w name id s h (ok (effect, db)) r =
      let (before, gone, others) = delete_core-removes host s.db w name id (effect, db) r in
      remove_record_files-HasOwners faults name id s.db db s.disk k others h

  dropped-IsTidy :
      (w : Who) (name : Text) (s : State) → IsTidy s → IsTidy (collection_delete faults w name s).1
  unfolding collection_delete
  dropped-IsTidy w name s h =
      let c : Catalog = record { db = s.db; version = s.version; dropped = [] } in
      elim (Result-cases (only_admin w)) [
        | inr (x, e) ↦ rw (e, collections_delete) h
        | inl (u, e) ↦ elim (Option-cases (find_collection name s.db.collections)) [
          | inl f ↦ rw (e, f, collections_delete) h
          | inr (row, f) ↦
              rw (e, f, collections_delete)
                (remove_collection_files-HasOwners faults k c name s.disk h)
        ]
      ]

  serve-IsTidy : (r : Request) (s : State) → IsTidy s → IsTidy (serve faults host r s)
  unfolding serve record_create record_update record_delete
  serve-IsTidy (creates w name (err e) id ts) s h = h
  serve-IsTidy (creates w name (ok up) id ts) s h = created-IsTidy w name up id ts s _ refl h _ refl
  serve-IsTidy (updates w name id (err e) ts) s h = h
  serve-IsTidy (updates w name id (ok up) ts) s h = updated-IsTidy w name id up ts s _ refl h _ refl
  serve-IsTidy (deletes w name id) s h = deleted-IsTidy w name id s h _ refl
  serve-IsTidy (drops w name) s h = dropped-IsTidy w name s h

  -- From a state where every file on the disk lies in the directory of a record that is there, such
  -- as one with no files, no sequence of creates, updates and deletes of records and of drops of
  -- collections, refused ones and those whose files cannot be written included, leads to a file
  -- without its record, as long as files can be removed.
  pub serve_all-HasOwners :
      (rs : List Request) (s : State)
      → HasOwners s.db s.disk
      → HasOwners (serve_all faults host rs s).db (serve_all faults host rs s).disk
  unfolding serve_all
  serve_all-HasOwners [] s h = h
  serve_all-HasOwners (r ∷ rs) s h =
      serve_all-HasOwners rs (serve faults host r s) (serve-IsTidy r s h)
