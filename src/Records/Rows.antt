-- ===== src/Records/Rows.antt =====
-- What the three cores of src/records.rs do to the table of records.
use rockbase.Prelude.{
  ◌≡◌, ◌≢◌, refl, ap, ◌∙◌, true, ◌&&◌, none, some, [], ◌∷◌, ◌++◌, Text, ◌⊎◌, Bool-cases, same,
  same_refl, arith, ok, inl, inr,
}
use rockbase.Json.{Json, Fields}
use rockbase.Auth.{Who}
use rockbase.Db.{Row, Db, Host, is_at, find_row, update_rows, delete_rows}
use rockbase.Db.Tables.{
  find_row-append, find_row-delete_rows, find_row-update_rows_self, find_row-update_rows_ne,
  updated_row,
}
use rockbase.Records.{Effect}
use rockbase.Records.Gate.{fetch_record}
use rockbase.Records.Create.{new_row, create_core}
use rockbase.Records.Update.{update_core}
use rockbase.Records.Delete.{delete_core}
use rockbase.Records.Steps.{
  Created, create_core-Created, Updated, update_core-Updated, delete_core-Deleted, store-eq-ok,
}

-- Two databases that hold the same record at every key but one, and the same other tables.
pub record SameElsewhere (name id : Text) (a b : Db) : Type 0 where
  pub others :
      (name' id' : Text)
      → ((same name name' && same id id') ≡ true)
        ⊎ (fetch_record b name' id' ≡ fetch_record a name' id')
  pub collections : b.collections ≡ a.collections
  pub tokens : b.tokens ≡ a.tokens
  pub params : b.params ≡ a.params

new_row-is_at :
    (host : Host) (name id ts : Text) (m : Fields) (name' id' : Text)
    → is_at name' id' (new_row host name id ts m) ≡ (same name name' && same id id')
unfolding is_at
new_row-is_at host name id ts m name' id' = refl

-- the row that a create leaves at its key
pub Created-fetched :
    (host : Host) (db : Db) (w : Who) (name : Text) (body : Json) (id ts : Text) (out : Effect × Db)
    (c : Created host db w name body id ts out)
    → fetch_record out.1 name id ≡ some (new_row host name id ts c.prepared)
unfolding fetch_record
Created-fetched host db w name body id ts out c =
    let (free, e) = store-eq-ok host db name id ts c.prepared out c.stored in
    let r = new_row host name id ts c.prepared in
    let rows : out.1.records ≡ db.records ++ r ∷ [] = cc in
    ap (find_row name id) rows
    ∙ find_row-append name id db.records r
    ∙ ground (
      arith,
      free,
      new_row-is_at host name id ts c.prepared name id,
      same_refl name,
      same_refl id,
    )

pub create_core-stores :
    (host : Host) (db : Db) (w : Who) (name : Text) (body : Json) (id ts : Text) (out : Effect × Db)
    → create_core host db w name body id ts ≡ ok out
    → (fetch_record db name id ≡ none)
      × ((m : Fields) × (fetch_record out.1 name id ≡ some (new_row host name id ts m)))
      × SameElsewhere name id db out.1
unfolding fetch_record
create_core-stores host db w name body id ts out h =
    let c = create_core-Created host db w name body id ts out h in
    let (free, e) = store-eq-ok host db name id ts c.prepared out c.stored in
    let rows : out.1.records ≡ db.records ++ new_row host name id ts c.prepared ∷ [] = cc in
    let r = new_row host name id ts c.prepared in
    (
      free,
      (c.prepared, Created-fetched host db w name body id ts out c),
      record {
        others = λ name' id'. elim (Bool-cases (same name name' && same id id')) [
          | inl k ↦ inl k
          | inr k ↦ inr (
              ap (find_row name' id') rows
              ∙ find_row-append name' id' db.records r
              ∙ ground (arith, k, new_row-is_at host name id ts c.prepared name' id'))
        ];
        collections = cc;
        tokens = cc;
        params = cc;
      },
    )

-- the row that an update leaves at its own key
pub Updated-fetched :
    (host : Host) (db : Db) (w : Who) (name id : Text) (body : Json) (ts : Text) (out : Effect × Db)
    (u : Updated host db w name id body ts out)
    → fetch_record out.1 name id
      ≡ some
          (record (u.row) { data_text = host.serde.to_string (Json.obj u.data_map); updated = ts })
unfolding fetch_record
Updated-fetched host db w name id body ts out u =
    let text = host.serde.to_string (Json.obj u.data_map) in
    let rows : out.1.records ≡ update_rows name id text ts db.records = cc (u.stored) in
    ap (find_row name id) rows
    ∙ find_row-update_rows_self name id text ts db.records
    ∙ ap (updated_row text ts) u.fetched

-- An update that succeeds keeps the creation time of its record and sets the other time; the record
-- was there, and every other record and every other table stays.
pub update_core-stores :
    (host : Host) (db : Db) (w : Who) (name id : Text) (body : Json) (ts : Text) (out : Effect × Db)
    → update_core host db w name id body ts ≡ ok out
    → ((row : Row) × (text : Text) × (fetch_record db name id ≡ some row)
        × (fetch_record out.1 name id ≡ some (record row { data_text = text; updated = ts })))
      × SameElsewhere name id db out.1
unfolding fetch_record
update_core-stores host db w name id body ts out h =
    let u = update_core-Updated host db w name id body ts out h in
    let text = host.serde.to_string (Json.obj u.data_map) in
    let rows : out.1.records ≡ update_rows name id text ts db.records = cc (u.stored) in
    (
      (u.row, text, u.fetched, Updated-fetched host db w name id body ts out u),
      record {
        others = λ name' id'. elim (Bool-cases (same name name' && same id id')) [
          | inl k ↦ inl k
          | inr k ↦ inr (
              ap (find_row name' id') rows
              ∙ find_row-update_rows_ne name id text ts name' id' db.records k)
        ];
        collections = cc (u.stored);
        tokens = cc (u.stored);
        params = cc (u.stored);
      },
    )

-- A delete that succeeds removes its record, which was there, and leaves every other record and
-- every other table.
pub delete_core-removes :
    (host : Host) (db : Db) (w : Who) (name id : Text) (out : Effect × Db)
    → delete_core host db w name id ≡ ok out
    → (fetch_record db name id ≢ none)
      × (fetch_record out.1 name id ≡ none)
      × SameElsewhere name id db out.1
unfolding fetch_record
delete_core-removes host db w name id out h =
    let d = delete_core-Deleted host db w name id out h in
    let rows : out.1.records ≡ delete_rows name id db.records = cc (d.stored) in
    (
      λ e. cc (d.fetched, e),
      ap (find_row name id) rows
          ∙ find_row-delete_rows name id name id db.records
          ∙ ground (arith, same_refl name, same_refl id),
      record {
        others = λ name' id'. elim (Bool-cases (same name name' && same id id')) [
          | inl k ↦ inl k
          | inr k ↦ inr (
              ap (find_row name' id') rows
              ∙ find_row-delete_rows name id name' id' db.records
              ∙ ground (arith, k))
        ];
        collections = cc (d.stored);
        tokens = cc (d.stored);
        params = cc (d.stored);
      },
    )
