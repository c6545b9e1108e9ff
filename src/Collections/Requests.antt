-- ===== src/Collections/Requests.antt =====
-- Runs of the handlers of src/collections.rs, one request after another.
use rockbase.Prelude.{
  ◌≡◌, subst, inl, inr, Option, some, List, [], ◌∷◌, ◌++◌, Text, same, Option-cases, Bool-cases,
  Result-cases, All,
}
use rockbase.Json.{Json}
use rockbase.Env.{F64}
use rockbase.Http.{Reply}
use rockbase.Db.{CollectionRow, Host, find_collection}
use rockbase.Auth.{Who}
use rockbase.Auth.Tokens.{only_admin}
use rockbase.Collections.{RulePatch}
use rockbase.Collections.Sound.{
  IsSoundRow, IsSound, IsReadPatch, apply_rules-IsSoundRules, new_collection-IsSoundRow,
  collection_patch-IsReadPatch,
}
use rockbase.Collections.Handlers.{
  Catalog, insert_collection, new_collection, collections_create, collection_patch,
  update_collection, collections_update, remove_collection, collections_delete,
}

append-All :
    (f64 : F64) (cs ds : List CollectionRow)
    → All (IsSoundRow f64) cs
    → All (IsSoundRow f64) ds
    → All (IsSoundRow f64) (cs ++ ds)
append-All f64 [] ds h k = k
append-All f64 (c ∷ cs) ds (h, hs) k = (h, append-All f64 cs ds hs k)

insert_collection-All :
    (f64 : F64) (c : CollectionRow) (cs ds : List CollectionRow)
    → insert_collection c cs ≡ some ds
    → IsSoundRow f64 c
    → All (IsSoundRow f64) cs
    → All (IsSoundRow f64) ds
unfolding insert_collection
insert_collection-All f64 c cs ds h new old = elim (Option-cases (find_collection c.name cs)) [
  | inl e ↦
      let grown : cs ++ c ∷ [] ≡ ds = cc (h, e) in
      subst (All (IsSoundRow f64)) grown (append-All f64 cs (c ∷ []) old (new, tt))
  | inr (d, e) ↦ cc (h, e)
]

update_collection-All :
    (f64 : F64) (name : Text) (p : RulePatch) (schema : Option Text) (cs : List CollectionRow)
    → IsReadPatch f64 p
    → All (IsSoundRow f64) cs
    → All (IsSoundRow f64) (update_collection name p schema cs)
unfolding update_collection
update_collection-All f64 name p schema [] h k = tt
update_collection-All f64 name p schema (c ∷ cs) h (k, ks) = elim (Bool-cases (same c.name name)) [
  | inl e ↦
      rw (e, update_collection)
        (
          apply_rules-IsSoundRules f64 p c.rules h k,
          update_collection-All f64 name p schema cs h ks,
        )
  | inr e ↦ rw (e, update_collection) (k, update_collection-All f64 name p schema cs h ks)
]

remove_collection-All :
    (f64 : F64) (name : Text) (cs : List CollectionRow)
    → All (IsSoundRow f64) cs
    → All (IsSoundRow f64) (remove_collection name cs)
unfolding remove_collection
remove_collection-All f64 name [] k = tt
remove_collection-All f64 name (c ∷ cs) (k, ks) = elim (Bool-cases (same c.name name)) [
  | inl e ↦ rw (e, remove_collection) (remove_collection-All f64 name cs ks)
  | inr e ↦ rw (e, remove_collection) (k, remove_collection-All f64 name cs ks)
]

-- a request that writes the table of collections
pub data Request : Type 0 where
  create : Json → Request
  update : Text → Json → Request
  delete : Text → Request

abbrev pub serve : Host → Who → Request → Catalog → Reply Json × Catalog
serve host w (create body) s = collections_create host w body s
serve host w (update name body) s = collections_update host w name body s
serve host w (delete name) s = collections_delete w name s

-- The state that a sequence of requests leaves, each with its caller, whatever was answered.
abbrev pub serve_all : Host → List (Who × Request) → Catalog → Catalog
serve_all host [] s = s
serve_all host ((w, r) ∷ rs) s = serve_all host rs (serve host w r s).1

create-IsSound :
    (host : Host) (w : Who) (body : Json) (s : Catalog)
    → IsSound host.f64 s
    → IsSound host.f64 (collections_create host w body s).1
unfolding collections_create
create-IsSound host w body s h = elim (Result-cases (new_collection host w body)) [
  | inr (e, f) ↦ rw (f, collections_create) h
  | inl (c, f) ↦ elim (Option-cases (insert_collection c s.db.collections)) [
    | inl g ↦ rw (f, g, collections_create) h
    | inr (cs, g) ↦
        rw (f, g, collections_create)
          (insert_collection-All host.f64 c s.db.collections cs g
            (new_collection-IsSoundRow host w body c f) h)
  ]
]

update-IsSound :
    (host : Host) (w : Who) (name : Text) (body : Json) (s : Catalog)
    → IsSound host.f64 s
    → IsSound host.f64 (collections_update host w name body s).1
unfolding collections_update
update-IsSound host w name body s h = elim (Result-cases (collection_patch host w body)) [
  | inr (e, f) ↦ rw (f, collections_update) h
  | inl ((p, schema), f) ↦ elim (Option-cases (find_collection name s.db.collections)) [
    | inl g ↦ rw (f, g, collections_update) h
    | inr (c, g) ↦
        rw (f, g, collections_update)
          (update_collection-All host.f64 name p schema s.db.collections
            (collection_patch-IsReadPatch host w body p schema f) h)
  ]
]

delete-IsSound :
    (f64 : F64) (w : Who) (name : Text) (s : Catalog)
    → IsSound f64 s
    → IsSound f64 (collections_delete w name s).1
unfolding collections_delete
delete-IsSound f64 w name s h = elim (Result-cases (only_admin w)) [
  | inr (e, f) ↦ rw (f, collections_delete) h
  | inl (_, f) ↦ elim (Option-cases (find_collection name s.db.collections)) [
    | inl g ↦ rw (f, g, collections_delete) h
    | inr (c, g) ↦ rw (f, g, collections_delete) (remove_collection-All f64 name s.db.collections h)
  ]
]

serve-IsSound :
    (host : Host) (w : Who) (r : Request) (s : Catalog)
    → IsSound host.f64 s
    → IsSound host.f64 (serve host w r s).1
serve-IsSound host w (create body) s h = create-IsSound host w body s h
serve-IsSound host w (update name body) s h = update-IsSound host w name body s h
serve-IsSound host w (delete name) s h = delete-IsSound host.f64 w name s h

-- Through every sequence of requests on the collections, whoever sends them, each stored rule stays
-- one of three: NULL, empty, or an expression that compiles.
pub serve_all-IsSound :
    (host : Host) (rs : List (Who × Request)) (s : Catalog)
    → IsSound host.f64 s
    → IsSound host.f64 (serve_all host rs s)
serve_all-IsSound host [] s h = h
serve_all-IsSound host ((w, r) ∷ rs) s h =
    serve_all-IsSound host rs (serve host w r s).1 (serve-IsSound host w r s h)
