-- ===== src/Db/Init/Users.antt =====
-- The collection `users` that a start of src/db.rs puts behind the ones that are there.
use rockbase.Prelude.{
  ◌≡◌, refl, true, false, Option, none, some, List, [], ◌∷◌, ◌++◌, Text, bytes, same, arith,
  Bool-cases, inl, inr,
}
use rockbase.Db.{CollectionRow, find_collection}
use rockbase.Db.Init.{ruled, has_ruled, users, unruled, seed}

find_collection-append :
    (name : Text) (rows : List CollectionRow) (c x : CollectionRow)
    → find_collection name rows ≡ some c
    → find_collection name (rows ++ x ∷ []) ≡ some c
unfolding find_collection
find_collection-append name [] c x h = cc
find_collection-append name (r ∷ rows) c x h =
    ground (arith, find_collection-append name rows c x, h)

pub find_collection-last :
    (name : Text) (rows : List CollectionRow) (x : CollectionRow)
    → find_collection name rows ≡ none
    → same x.name name ≡ true
    → find_collection name (rows ++ x ∷ []) ≡ some x
unfolding find_collection
find_collection-last name [] x h k = ground arith
find_collection-last name (r ∷ rows) x h k = ground (arith, find_collection-last name rows x, h)

-- the collection `users` of a start: an auth collection without a schema, for admins only
abbrev pub admins_only : CollectionRow
admins_only = record {
  name = bytes "users";
  ty = bytes "auth";
  schema = bytes "[]";
  rules = record { list = none; view = none; create = none; update = none; delete = none };
}

abbrev pub with_users : List CollectionRow → Option CollectionRow → List CollectionRow
with_users rows none = rows ++ admins_only ∷ []
with_users rows (some c) = rows

find_collection-has_ruled :
    (name : Text) (rows : List CollectionRow)
    → has_ruled name rows ≡ false
    → find_collection name rows ≡ none
unfolding find_collection has_ruled
find_collection-has_ruled name [] h = refl
find_collection-has_ruled name (r ∷ rows) h = ground (arith, find_collection-has_ruled name rows, h)

with_users-has_ruled :
    (rows all : List CollectionRow)
    → has_ruled users.name all ≡ true
    → with_users rows (find_collection users.name all) ≡ rows
unfolding find_collection has_ruled
with_users-has_ruled rows [] h = cc
with_users-has_ruled rows (r ∷ all) h = elim (Bool-cases (same r.name users.name)) [
  | inl e ↦ rw e refl
  | inr e ↦ rw e (with_users-has_ruled rows all (rw e at h))
]

pub seed-with_users :
    (rows : List CollectionRow)
    → seed (ruled rows) ≡ ruled (with_users rows (find_collection (bytes "users") rows))
unfolding seed unruled users
seed-with_users rows = elim (Bool-cases (has_ruled users.name rows)) [
  | inl h ↦ rw (h, with_users-has_ruled rows rows h) refl
  | inr h ↦ rw (h, find_collection-has_ruled users.name rows h) refl
]

pub find_collection-with_users :
    (rows : List CollectionRow) (o : Option CollectionRow) (name : Text) (c : CollectionRow)
    → find_collection name rows ≡ some c
    → find_collection name (with_users rows o) ≡ some c
find_collection-with_users rows none name c h = find_collection-append name rows c admins_only h
find_collection-with_users rows (some x) name c h = h
