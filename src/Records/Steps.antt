-- ===== src/Records/Steps.antt =====
-- What a successful write of src/records.rs went through, one record of facts for each core.
use rockbase.Prelude.{
  ◌≡◌, refl, sym, Bool, true, false, Option, none, some, [], ◌∷◌, ◌++◌, Text, bytes, if◌then◌else◌,
  Result, ok, err, ok_or, ensure, >>=-eq-ok, ok-injective, inl, inr, Option-cases,
}
use rockbase.Json.{Json, Fields, as_object}
use rockbase.Auth.{Who}
use rockbase.Db.{Row, Db, Col, Host, get_collection, find_row, insert_row, update_rows, delete_rows}
use rockbase.Records.{record_json, Effect, change, or_bad_request}
use rockbase.Records.Validate.{validate}
use rockbase.Records.Gate.{fetch_record, gate_record, gate_body, check_relations}
use rockbase.Records.Create.{is_auth, prepare_auth, new_row, store, create_core}
use rockbase.Records.Update.{check_auth, patched, update_core}
use rockbase.Records.Delete.{delete_core}

pub ok_or-eq-ok {ℓ} : {E A : Type ℓ} (o : Option A) (e : E) {a : A} → ok_or o e ≡ ok a → o ≡ some a
ok_or-eq-ok none e h = cc
ok_or-eq-ok (some a) e h = cc

pub ensure-eq-ok : {E : Type 0} (b : Bool) (e : E) {u : Unit {0}} → ensure b e ≡ ok u → b ≡ true
ensure-eq-ok true e h = refl
ensure-eq-ok false e h = cc

pub or_bad_request-eq-ok :
    {A : Type 0} (r : Result Text A) {a : A} → or_bad_request r ≡ ok a → r ≡ ok a
or_bad_request-eq-ok (ok a) h = cc
or_bad_request-eq-ok (err m) h = cc

module _ (host : Host) (db : Db) (w : Who) (name : Text) where
  -- a create that went through
  pub record Created (body : Json) (id ts : Text) (out : Effect × Db) : Type 0 where
    pub col : Col
    pub data_map : Fields
    pub prepared : Fields
    pub found : get_collection host.serde db name ≡ some col
    pub object : as_object body ≡ some data_map
    pub gated : gate_body host w col.rules.create data_map ≡ ok tt
    pub valid : validate col.schema data_map (is_auth col) false ≡ ok tt
    pub related : check_relations db col.schema data_map ≡ ok tt
    pub prepares :
        (if is_auth col then prepare_auth host db name data_map else ok data_map) ≡ ok prepared
    pub stored : store host db name id ts prepared ≡ ok out

  pub create_core-Created :
      (body : Json) (id ts : Text) (out : Effect × Db)
      → create_core host db w name body id ts ≡ ok out
      → Created body id ts out
  unfolding create_core
  create_core-Created body id ts out h =
      let (col, e₁, h₁) = >>=-eq-ok _ _ h in
      let (m, e₂, h₂) = >>=-eq-ok _ _ h₁ in
      let (_, e₃, h₃) = >>=-eq-ok _ _ h₂ in
      let (_, e₄, h₄) = >>=-eq-ok _ _ h₃ in
      let (_, e₅, h₅) = >>=-eq-ok _ _ h₄ in
      let (prepared, e₆, h₆) = >>=-eq-ok _ _ h₅ in
      record {
        col = col;
        data_map = m;
        prepared = prepared;
        found = ok_or-eq-ok _ _ e₁;
        object = ok_or-eq-ok _ _ e₂;
        gated = e₃;
        valid = or_bad_request-eq-ok _ e₄;
        related = or_bad_request-eq-ok _ e₅;
        prepares = e₆;
        stored = h₆;
      }

module _ (host : Host) (db : Db) (w : Who) (name id : Text) where
  -- an update that went through
  pub record Updated (body : Json) (ts : Text) (out : Effect × Db) : Type 0 where
    pub col : Col
    pub row : Row
    pub patch : Fields
    pub data_map : Fields
    pub found : get_collection host.serde db name ≡ some col
    pub fetched : fetch_record db name id ≡ some row
    pub gated : gate_record host db w col.rules.update name id ≡ ok tt
    pub object : as_object body ≡ some patch
    pub valid : validate col.schema patch (is_auth col) true ≡ ok tt
    pub related : check_relations db col.schema patch ≡ ok tt
    pub checked :
        (if is_auth col then check_auth host db w name id row.data_text patch else ok tt) ≡ ok tt
    pub patches : patched host row.data_text patch ≡ ok data_map
    pub stored : out ≡ (
      record {
        body =
            record_json host.serde name id
              (host.serde.to_string (Json.obj data_map))
              row.created
              ts;
        event = change (bytes "update") name (
            record_json host.serde name id
              (host.serde.to_string (Json.obj data_map))
              row.created
              ts);
      },
      record db {
        records = update_rows name id (host.serde.to_string (Json.obj data_map)) ts db.records;
      },
    )

  pub update_core-Updated :
      (body : Json) (ts : Text) (out : Effect × Db)
      → update_core host db w name id body ts ≡ ok out
      → Updated body ts out
  unfolding update_core
  update_core-Updated body ts out h =
      let (col, e₁, h₁) = >>=-eq-ok _ _ h in
      let (row, e₂, h₂) = >>=-eq-ok _ _ h₁ in
      let (_, e₃, h₃) = >>=-eq-ok _ _ h₂ in
      let (patch, e₄, h₄) = >>=-eq-ok _ _ h₃ in
      let (_, e₅, h₅) = >>=-eq-ok _ _ h₄ in
      let (_, e₆, h₆) = >>=-eq-ok _ _ h₅ in
      let (_, e₇, h₇) = >>=-eq-ok _ _ h₆ in
      let (m, e₈, h₈) = >>=-eq-ok _ _ h₇ in
      record {
        col = col;
        row = row;
        patch = patch;
        data_map = m;
        found = ok_or-eq-ok _ _ e₁;
        fetched = ok_or-eq-ok _ _ e₂;
        gated = e₃;
        object = ok_or-eq-ok _ _ e₄;
        valid = or_bad_request-eq-ok _ e₅;
        related = or_bad_request-eq-ok _ e₆;
        checked = e₇;
        patches = e₈;
        stored = sym (ok-injective h₈);
      }

  -- a delete that went through
  pub record Deleted (out : Effect × Db) : Type 0 where
    pub col : Col
    pub row : Row
    pub found : get_collection host.serde db name ≡ some col
    pub fetched : fetch_record db name id ≡ some row
    pub gated : gate_record host db w col.rules.delete name id ≡ ok tt
    pub stored : out ≡ (
      record {
        body = Json.obj Fields.end;
        event =
            change
              (bytes "delete")
              name
              (record_json host.serde name id row.data_text row.created row.updated);
      },
      record db { records = delete_rows name id db.records },
    )

  pub delete_core-Deleted :
      (out : Effect × Db) → delete_core host db w name id ≡ ok out → Deleted out
  unfolding delete_core
  delete_core-Deleted out h =
      let (col, e₁, h₁) = >>=-eq-ok _ _ h in
      let (row, e₂, h₂) = >>=-eq-ok _ _ h₁ in
      let (_, e₃, h₃) = >>=-eq-ok _ _ h₂ in
      record {
        col = col;
        row = row;
        found = ok_or-eq-ok _ _ e₁;
        fetched = ok_or-eq-ok _ _ e₂;
        gated = e₃;
        stored = sym (ok-injective h₃);
      }

-- what `store` leaves
pub store-eq-ok :
    (host : Host) (db : Db) (name id ts : Text) (m : Fields) (out : Effect × Db)
    → store host db name id ts m ≡ ok out
    → (find_row name id db.records ≡ none)
      × (out ≡ (
        record {
          body = record_json host.serde name id (host.serde.to_string (Json.obj m)) ts ts;
          event =
              change
                (bytes "create")
                name
                (record_json host.serde name id (host.serde.to_string (Json.obj m)) ts ts);
        },
        record db { records = db.records ++ new_row host name id ts m ∷ [] },
      ))
unfolding store insert_row
store-eq-ok host db name id ts m out h = elim (Option-cases (find_row name id db.records)) [
  | inl e ↦ (e, cc (h, e))
  | inr (r, e) ↦ cc (h, e)
]
