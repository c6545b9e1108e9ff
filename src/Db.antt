-- ===== src/Db.antt =====
-- src/db.rs: the tables, and the queries that every handler shares. A table is the list of its rows
-- in the order of their rowids; a JSON column is the text that is stored.
pub mod Tables
pub mod Init
pub mod Pool
use rockbase.Prelude.{
  ℕ, ◌≡◌, Bool, true, false, ◌&&◌, not, Option, none, some, List, [], ◌∷◌, ◌++◌, Text, bytes, same,
  if◌then◌else◌,
}
use rockbase.Json.{Json, Fields, get, as_str}
use rockbase.Env.{F64, Serde, Bcrypt}
use rockbase.Filter.{SqlValue}
use rockbase.Rules.{Rules, defaults}

-- a row of `_collections`
pub record CollectionRow : Type 0 where
  pub name : Text
  pub ty : Text
  pub schema : Text
  pub rules : Rules

-- a row of `records`
pub record Row : Type 0 where
  pub collection : Text
  pub id : Text
  pub data_text : Text
  pub created : Text
  pub updated : Text

-- a row of `_tokens`
pub record Ticket : Type 0 where
  pub token : Text
  pub collection : Text
  pub subject : Text
  pub ty : Text
  pub created : Text
  pub expires : Text

pub record Db : Type 0 where
  pub collections : List CollectionRow
  pub records : List Row
  pub tokens : List Ticket
  pub params : List (Text × Text)

-- `Col`, a collection as the handlers see it
pub record Col : Type 0 where
  pub ty : Text
  pub schema : List Json
  pub rules : Rules

-- `unwrap_or_default` on a parsed schema and on a parsed record
abbrev pub list_or_empty : Option (List Json) → List Json
list_or_empty none = []
list_or_empty (some l) = l

abbrev pub map_or_empty : Option Fields → Fields
map_or_empty none = Fields.end
map_or_empty (some m) = m

unfoldable pub find_collection : Text → List CollectionRow → Option CollectionRow
find_collection name [] = none
find_collection name (c ∷ cs) = if same c.name name then some c else find_collection name cs

unfoldable pub get_collection : Serde → Db → Text → Option Col
get_collection serde db name = elim (find_collection name db.collections) [
  | none ↦ none
  | some c ↦
      some (record {
        ty = c.ty;
        schema = list_or_empty (serde.from_str_list c.schema);
        rules = c.rules;
      })
]

-- the primary key of `records`
unfoldable pub is_at : Text → Text → Row → Bool
is_at name id r = same r.collection name && same r.id id

unfoldable pub find_row : Text → Text → List Row → Option Row
unfolding is_at
find_row name id [] = none
find_row name id (r ∷ rs) = if is_at name id r then some r else find_row name id rs

-- `INSERT INTO records`: a key that is there is an error
unfoldable pub insert_row : Row → List Row → Option (List Row)
unfolding find_row
insert_row r rs = elim (find_row r.collection r.id rs) [
  | none ↦ some (rs ++ r ∷ [])
  | some _ ↦ none
]

-- `UPDATE records SET data = …, updated = … WHERE collection = … AND id = …`
unfoldable pub update_rows : Text → Text → Text → Text → List Row → List Row
unfolding is_at
update_rows name id body ts [] = []
update_rows name id body ts (r ∷ rs) =
    (if is_at name id r then record r { data_text = body; updated = ts } else r)
    ∷ update_rows name id body ts rs

-- `DELETE FROM records WHERE collection = … AND id = …`
unfoldable pub delete_rows : Text → Text → List Row → List Row
unfolding is_at
delete_rows name id [] = []
delete_rows name id (r ∷ rs) =
    let rest = delete_rows name id rs in if is_at name id r then rest else r ∷ rest

-- `INSERT OR IGNORE INTO _params`, then the value at the key
unfoldable pub find_param : Text → List (Text × Text) → Option Text
find_param key [] = none
find_param key ((k, v) ∷ ps) = if same k key then some v else find_param key ps

unfoldable pub param_get_or_create : Db → Text → Text → Text × Db
unfolding find_param
param_get_or_create db key default = elim (find_param key db.params) [
  | some v ↦ (v, db)
  | none ↦ (default, record db { params = db.params ++ (key, default) ∷ [] })
]

-- SQLite, for the statements with a compiled expression in them: whether one finds a row, the rows
-- that one selects and their number, `none` for an error. `conflict` and `malformed` are the texts
-- of a key conflict and of JSON that it does not read, `failed` that of any other error.
pub record Sqlite : Type 0 where
  pub select_exists : Text → List SqlValue → List Row → Option Bool
  pub select_rows : Text → List SqlValue → List Row → Option (List Row)
  pub count_rows : Text → List SqlValue → List Row → Option ℕ
  pub failed : Text
  pub conflict : Text
  pub malformed : Text

-- all that the handlers call
pub record Host : Type 0 where
  pub f64 : F64
  pub serde : Serde
  pub bcrypt : Bcrypt
  pub sqlite : Sqlite
