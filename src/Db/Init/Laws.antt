-- ===== src/Db/Init/Laws.antt =====
-- What a start of the server leaves of the database, by `init_db` of src/db.rs.
use rockbase.Prelude.{
  ◌≡◌, refl, ap, ◌⊎◌, inl, inr, true, ◌||◌, Option, none, some, List, [], ◌∷◌, ◌++◌, Text, bytes,
  same, same_refl, same_iff, All, arith, Bool-cases, sym, subst, ◌∙◌,
}
use rockbase.Rules.{defaults}
use rockbase.Db.{CollectionRow, find_collection}
use rockbase.Db.Init.Users.{
  admins_only, with_users, seed-with_users, find_collection-with_users, find_collection-last,
}
use rockbase.Db.Init.{
  PlainRow, Collections, absent, plain, ruled, Disk, created, created_plain, create_tables,
  has_plain, has_ruled, users, unruled, seed, set_base, set_auth, migrated, migrate_rules, init_db,
  tables, ruled_rows, rows_of,
}

has_ruled-append :
    (name : Text) (rows : List CollectionRow) (c : CollectionRow)
    → has_ruled name (rows ++ c ∷ []) ≡ (has_ruled name rows || same c.name name)
unfolding has_ruled
has_ruled-append name [] c = ground arith
has_ruled-append name (r ∷ rows) c = ground (arith, has_ruled-append name rows c)

migrated-name : (c : PlainRow) → (set_auth (set_base (unruled c))).name ≡ c.name
unfolding set_auth set_base unruled
migrated-name c = ground arith

has_ruled-migrated :
    (name : Text) (rows : List PlainRow) → has_ruled name (migrated rows) ≡ has_plain name rows
unfolding has_ruled has_plain migrated
has_ruled-migrated name [] = refl
has_ruled-migrated name (c ∷ rows) = ground (arith, migrated-name c, has_ruled-migrated name rows)

has_plain-append :
    (name : Text) (rows : List PlainRow) (c : PlainRow)
    → has_plain name (rows ++ c ∷ []) ≡ (has_plain name rows || same c.name name)
unfolding has_plain
has_plain-append name [] c = ground arith
has_plain-append name (r ∷ rows) c = ground (arith, has_plain-append name rows c)

-- the table has the rules and the collection `users`
abbrev IsReady : Collections → Type 0
IsReady t = (rows : List CollectionRow) × (t ≡ ruled rows) × (has_ruled users.name rows ≡ true)

-- one start, on the table alone
abbrev started : Collections → Collections
started t = migrate_rules (seed (created_plain t))

plain-IsReady : (rows : List PlainRow) → IsReady (started (plain rows))
unfolding seed migrate_rules
plain-IsReady rows = elim (Bool-cases (has_plain users.name rows)) [
  | inl h ↦ (migrated rows, rw (h, seed) refl, has_ruled-migrated users.name rows ∙ h)
  | inr h ↦ (
    migrated (rows ++ users ∷ []),
    rw (h, seed) refl,
    has_ruled-migrated users.name (rows ++ users ∷ [])
        ∙ ground (arith, has_plain-append users.name rows users, same_refl users.name),
  )
]

ruled-IsReady : (rows : List CollectionRow) → IsReady (started (ruled rows))
unfolding seed migrate_rules unruled
ruled-IsReady rows = elim (Bool-cases (has_ruled users.name rows)) [
  | inl h ↦ (rows, rw (h, seed) refl, h)
  | inr h ↦ (
    rows ++ unruled users ∷ [],
    rw (h, seed) refl,
    ground (arith, has_ruled-append users.name rows (unruled users), same_refl users.name),
  )
]

started-IsReady : (t : Collections) → IsReady (started t)
started-IsReady absent = plain-IsReady []
started-IsReady (plain rows) = plain-IsReady rows
started-IsReady (ruled rows) = ruled-IsReady rows

started-eq_self : (t : Collections) → IsReady t → started t ≡ t
unfolding seed migrate_rules
started-eq_self t (rows, e, h) = rw (e, h) refl

created-created {ℓ} : {A : Type ℓ} (o : Option (List A)) → created (created o) ≡ created o
created-created none = refl
created-created (some rows) = refl

-- A second start of the server finds nothing to do: it leaves the database as the first did.
pub init_db-init_db : (d : Disk) → init_db (init_db d) ≡ init_db d
unfolding init_db create_tables
init_db-init_db d = cc (
  started-eq_self (started d.collections) (started-IsReady d.collections),
  created-created d.records,
  created-created d.tokens,
  created-created d.params,
)

-- the rules that `collections_create` would give
abbrev pub HasDefaults : CollectionRow → Type 0
HasDefaults c =
    ((same c.ty (bytes "base") || same c.ty (bytes "auth")) ≡ true) → c.rules ≡ defaults c.ty

is_type :
    (ty : Text)
    → (same ty (bytes "base") || same ty (bytes "auth")) ≡ true
    → (bytes "base" ≡ ty) ⊎ (bytes "auth" ≡ ty)
is_type ty h = elim (Bool-cases (same ty (bytes "base"))) [
  | inl e ↦ inl (sym ((same_iff ty (bytes "base")).0 e))
  | inr e ↦ inr (sym ((same_iff ty (bytes "auth")).0 (rw e at h)))
]

migrated-ty : (c : PlainRow) → (set_auth (set_base (unruled c))).ty ≡ c.ty
unfolding set_auth set_base unruled
migrated-ty c = ground arith

-- the literals of the migration are those of `defaults`
GetsDefaults : (c : PlainRow) (ty : Text) → Type 0
GetsDefaults c ty = (set_auth (set_base (unruled (record c { ty = ty })))).rules ≡ defaults ty

set_rules : (c : PlainRow) → HasDefaults (set_auth (set_base (unruled c)))
unfolding set_auth set_base unruled defaults GetsDefaults same
set_rules c h = rw (migrated-ty c) (elim (is_type c.ty (rw (migrated-ty c) at h)) [
  | inl e ↦ subst (GetsDefaults c) e refl
  | inr e ↦ subst (GetsDefaults c) e refl
])

migrated-HasDefaults : (rows : List PlainRow) → All HasDefaults (migrated rows)
unfolding migrated
migrated-HasDefaults [] = tt
migrated-HasDefaults (c ∷ rows) = (set_rules c, migrated-HasDefaults rows)

started-HasDefaults : (rows : List PlainRow) → All HasDefaults (ruled_rows (started (plain rows)))
unfolding seed migrate_rules
started-HasDefaults rows = migrated-HasDefaults _

-- Where the file had no rule columns, because it is new or older than the rules, every collection of
-- type base or auth gets the rules that a collection made through the API starts with.
pub init_db-HasDefaults :
    (d : Disk)
    → (d.collections ≡ absent) ⊎ ((rows : List PlainRow) × (d.collections ≡ plain rows))
    → All HasDefaults (tables (init_db d)).collections
unfolding init_db tables
init_db-HasDefaults d (inl e) = rw e (started-HasDefaults [])
init_db-HasDefaults d (inr (rows, e)) = rw e (started-HasDefaults rows)

kept {ℓ} : {A : Type ℓ} (o : Option (List A)) → rows_of (created o) ≡ rows_of o
kept none = refl
kept (some rows) = refl

-- A start on a file that has the rule columns leaves the collections as they are, in their order and
-- with the rules that they have, and behind them, where there is no `users`, one more: `users`, an auth
-- collection without a schema whose five rules admit admins only. So every collection is found as
-- before, and `users` is found. All records, tickets and parameters are kept.
pub init_db-keeps :
    (d : Disk) (rows : List CollectionRow)
    → d.collections ≡ ruled rows
    → ((tables (init_db d)).collections ≡ with_users rows (find_collection (bytes "users") rows))
      × ((name : Text) (c : CollectionRow)
          → find_collection name rows ≡ some c
          → find_collection name (tables (init_db d)).collections ≡ some c)
      × ((find_collection (bytes "users") rows ≡ none)
          → find_collection (bytes "users") (tables (init_db d)).collections ≡ some admins_only)
      × ((tables (init_db d)).records ≡ (tables d).records)
      × ((tables (init_db d)).tokens ≡ (tables d).tokens)
      × ((tables (init_db d)).params ≡ (tables d).params)
unfolding init_db tables create_tables migrate_rules
init_db-keeps d rows e =
    let same_rows : (tables (init_db d)).collections
        ≡ with_users rows (find_collection (bytes "users") rows) =
      rw e (ap (λ t. ruled_rows (migrate_rules t)) (seed-with_users rows)) in
    (
      same_rows,
      λ name c f. rw same_rows (find_collection-with_users rows _ name c f),
      λ h.
          rw (same_rows, h)
            (find_collection-last (bytes "users") rows admins_only h (same_refl (bytes "users"))),
      kept d.records,
      kept d.tokens,
      kept d.params,
    )

-- a start on what a start left, with other parameters
pub init_db-params :
    (d : Disk) (params : List (Text × Text))
    → init_db (record (init_db d) { params = some params })
      ≡ record (init_db d) { params = some params }
unfolding init_db create_tables
init_db-params d params = cc (
  started-eq_self (started d.collections) (started-IsReady d.collections),
  created-created d.records,
  created-created d.tokens,
)
