-- ===== src/Db/Init/Tests.antt =====
-- Starts of src/db.rs on a new file, and after an admin has deleted `users`.
use rockbase.Prelude.{◌≡◌, refl, none, some, [], Text, bytes, same, All, inl}
use rockbase.Rules.{defaults}
use rockbase.Db.{CollectionRow, find_collection}
use rockbase.Db.Init.{Disk, absent, ruled, users, init_db, tables}
use rockbase.Db.Init.Users.{admins_only, with_users}
use rockbase.Db.Init.Laws.{HasDefaults, init_db-HasDefaults, init_db-keeps}

abbrev new_file : Disk
new_file = record { collections = absent; records = none; tokens = none; params = none }

first_start :
    find_collection users.name (tables (init_db new_file)).collections
    ≡ some (record {
      name = bytes "users";
      ty = bytes "auth";
      schema = bytes "[]";
      rules = defaults (bytes "auth");
    })
unfolding init_db tables users find_collection same defaults bytes
first_start = refl

init_db-HasDefaults_example : All HasDefaults (tables (init_db new_file)).collections
init_db-HasDefaults_example = init_db-HasDefaults new_file (inl refl)

-- the file after `users` was deleted
abbrev without_users : Disk
without_users = record {
  collections = ruled [];
  records = some [];
  tokens = some [];
  params = some [];
}

init_db-keeps_example :
    ((tables (init_db without_users)).collections
      ≡ with_users [] (find_collection (bytes "users") []))
    × ((name : Text) (c : CollectionRow)
        → find_collection name [] ≡ some c
        → find_collection name (tables (init_db without_users)).collections ≡ some c)
    × ((find_collection (bytes "users") [] ≡ none)
        → find_collection (bytes "users") (tables (init_db without_users)).collections
          ≡ some admins_only)
    × ((tables (init_db without_users)).records ≡ (tables without_users).records)
    × ((tables (init_db without_users)).tokens ≡ (tables without_users).tokens)
    × ((tables (init_db without_users)).params ≡ (tables without_users).params)
init_db-keeps_example = init_db-keeps without_users [] refl
