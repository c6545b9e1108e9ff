-- ===== src/Db/Init.antt =====
-- src/db.rs: what `init_db` makes of the file that it finds: tables, the collection `users`, and the
-- five rule columns.
pub mod Users
pub mod Laws
mod Tests
use rockbase.Prelude.{
  ℕ, Bool, true, false, ◌||◌, Option, none, some, List, [], ◌∷◌, ◌++◌, Text, bytes, same,
  if◌then◌else◌,
}
use rockbase.Rules.{Rules}
use rockbase.Db.{CollectionRow, Row, Ticket, Db}

-- a row of `_collections` before it had rules
pub record PlainRow : Type 0 where
  pub name : Text
  pub ty : Text
  pub schema : Text

-- the table `_collections`: not there, without the rule columns, or with them
pub data Collections : Type 0 where
  absent : Collections
  plain : List PlainRow → Collections
  ruled : List CollectionRow → Collections

-- the database file; `none` for a table that is not there
pub record Disk : Type 0 where
  pub collections : Collections
  pub records : Option (List Row)
  pub tokens : Option (List Ticket)
  pub params : Option (List (Text × Text))

-- `CREATE TABLE IF NOT EXISTS`
abbrev pub created {ℓ} : {A : Type ℓ} → Option (List A) → Option (List A)
created none = some []
created (some rows) = some rows

abbrev pub created_plain : Collections → Collections
created_plain absent = plain []
created_plain t = t

unfoldable pub create_tables : Disk → Disk
create_tables d = record {
  collections = created_plain d.collections;
  records = created d.records;
  tokens = created d.tokens;
  params = created d.params;
}

abbrev no_rules : Rules
no_rules = record { list = none; view = none; create = none; update = none; delete = none }

unfoldable pub has_plain : Text → List PlainRow → Bool
has_plain name [] = false
has_plain name (c ∷ cs) = same c.name name || has_plain name cs

unfoldable pub has_ruled : Text → List CollectionRow → Bool
has_ruled name [] = false
has_ruled name (c ∷ cs) = same c.name name || has_ruled name cs

unfoldable pub users : PlainRow
unfolding bytes
users = record { name = bytes "users"; ty = bytes "auth"; schema = bytes "[]" }

-- a row that no statement has given rules
unfoldable pub unruled : PlainRow → CollectionRow
unruled c = record { name = c.name; ty = c.ty; schema = c.schema; rules = no_rules }

-- `INSERT OR IGNORE INTO _collections`
unfoldable pub seed : Collections → Collections
unfolding has_plain has_ruled users unruled
seed absent = absent
seed (plain rows) = plain (if has_plain users.name rows then rows else rows ++ users ∷ [])
seed (ruled rows) = ruled (if has_ruled users.name rows then rows else rows ++ unruled users ∷ [])

-- `UPDATE _collections … WHERE type = 'base'`
unfoldable pub set_base : CollectionRow → CollectionRow
unfolding bytes same
set_base c =
    if same c.ty (bytes "base")
    then record c {
      rules = record {
        list = some [];
        view = some [];
        create = some (bytes "@request.auth.id != ''");
        update = some (bytes "@request.auth.id != ''");
        delete = some (bytes "@request.auth.id != ''");
      };
    }
    else c

-- `UPDATE _collections … WHERE type = 'auth'`
unfoldable pub set_auth : CollectionRow → CollectionRow
unfolding bytes same
set_auth c =
    if same c.ty (bytes "auth")
    then record c {
      rules = record {
        list = none;
        view = none;
        create = some [];
        update = some (bytes "id = @request.auth.id");
        delete = some (bytes "id = @request.auth.id");
      };
    }
    else c

unfoldable pub migrated : List PlainRow → List CollectionRow
unfolding unruled set_base set_auth
migrated [] = []
migrated (c ∷ cs) = set_auth (set_base (unruled c)) ∷ migrated cs

-- `migrate_rules`: the columns are added once
unfoldable pub migrate_rules : Collections → Collections
unfolding migrated
migrate_rules absent = absent
migrate_rules (plain rows) = ruled (migrated rows)
migrate_rules (ruled rows) = ruled rows

unfoldable pub init_db : Disk → Disk
unfolding create_tables seed migrate_rules
init_db d = let t = create_tables d in record t { collections = migrate_rules (seed t.collections) }

abbrev pub rows_of {ℓ} : {A : Type ℓ} → Option (List A) → List A
rows_of none = []
rows_of (some rows) = rows

abbrev pub ruled_rows : Collections → List CollectionRow
ruled_rows (ruled rows) = rows
ruled_rows _ = []

-- the tables as the queries of the handlers see them
unfoldable pub tables : Disk → Db
tables d = record {
  collections = ruled_rows d.collections;
  records = rows_of d.records;
  tokens = rows_of d.tokens;
  params = rows_of d.params;
}
