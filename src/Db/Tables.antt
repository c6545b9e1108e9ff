-- ===== src/Db/Tables.antt =====
-- Laws of the queries of src/db.rs on the table of records.
use rockbase.Prelude.{
  ◌≡◌, refl, true, false, ◌&&◌, Option, none, some, List, [], ◌∷◌, ◌++◌, Text, arith, same,
  same_iff, if◌then◌else◌,
}
use rockbase.Db.{Row, is_at, find_row, update_rows, delete_rows}

pub is_at_iff :
    (name id name' id' : Text) (r : Row)
    → is_at name id r ≡ true
    → is_at name' id' r ≡ (same name name' && same id id')
unfolding is_at
is_at_iff name id name' id' r h = ground (
  arith,
  same_iff r.collection name,
  same_iff r.id id,
  same_iff r.collection name',
  same_iff r.id id',
  same_iff name name',
  same_iff id id',
)

pub find_row-append :
    (name id : Text) (rs : List Row) (r : Row)
    → find_row name id (rs ++ r ∷ []) ≡ (elim (find_row name id rs) [
      | some x ↦ some x
      | none ↦ if is_at name id r then some r else none
    ])
unfolding find_row
find_row-append name id [] r = refl
find_row-append name id (x ∷ rs) r = ground (arith, find_row-append name id rs r)

-- a lookup after a delete
pub find_row-delete_rows :
    (name id name' id' : Text) (rs : List Row)
    → find_row name' id' (delete_rows name id rs)
      ≡ (if same name name' && same id id' then none else find_row name' id' rs)
unfolding find_row delete_rows
find_row-delete_rows name id name' id' [] = ground arith
find_row-delete_rows name id name' id' (r ∷ rs) = ground (
  arith,
  find_row-delete_rows name id name' id' rs,
  same_iff r.collection name,
  same_iff r.id id,
  same_iff r.collection name',
  same_iff r.id id',
  same_iff name name',
  same_iff id id',
)

-- what an update makes of a row that it finds
abbrev pub updated_row : Text → Text → Option Row → Option Row
updated_row body ts none = none
updated_row body ts (some r) = some (record r { data_text = body; updated = ts })

pub find_row-update_rows_self :
    (name id body ts : Text) (rs : List Row)
    → find_row name id (update_rows name id body ts rs) ≡ updated_row body ts (find_row name id rs)
unfolding find_row update_rows is_at
find_row-update_rows_self name id body ts [] = refl
find_row-update_rows_self name id body ts (r ∷ rs) =
    ground (arith, find_row-update_rows_self name id body ts rs)

pub find_row-update_rows_ne :
    (name id body ts name' id' : Text) (rs : List Row)
    → (same name name' && same id id') ≡ false
    → find_row name' id' (update_rows name id body ts rs) ≡ find_row name' id' rs
unfolding find_row update_rows is_at
find_row-update_rows_ne name id body ts name' id' [] h = refl
find_row-update_rows_ne name id body ts name' id' (r ∷ rs) h =
    ground
      (arith, find_row-update_rows_ne name id body ts name' id' rs h, is_at_iff name id name' id' r)
