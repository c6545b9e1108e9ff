-- ===== src/App/Routes/SubRequests.antt =====
-- The sub-requests of src/batch.rs beside the routes of src/lib.rs.
use rockbase.Prelude.{
  ℕ, ◌≡◌, refl, ap, subst, ◌∙◌, true, false, ◌||◌, Option, none, some, List, [], ◌∷◌, ◌++◌, Text,
  bytes, same, same_iff, starts_with, contains, split_on, length, arith, Bool-cases, inl, inr,
}
use rockbase.Filter.Scan.{drop}
use rockbase.Batch.Url.{record_path, collections_prefix, parse_url}
use rockbase.App.{get, post, patch, delete}
use rockbase.App.Routes.{
  lit, param, Route, records_list, record_create, record_view, record_update, record_delete,
  collection, routes, fits, fitting, pick, serves, handled, Router, RoutesByTable,
}

starts_with-drop : (s p : Text) → starts_with s p ≡ true → s ≡ p ++ drop (length p) s
unfolding starts_with drop
starts_with-drop s [] h = refl
starts_with-drop [] (y ∷ p) h = cc
starts_with-drop (x ∷ s) (y ∷ p) h = ground (arith, starts_with-drop s p)

abbrev records : Route
records = record {
  pattern = collection (lit "records" ∷ []);
  verbs = (get, records_list) ∷ (post, record_create) ∷ [];
}

abbrev one_record : Route
one_record = record {
  pattern = collection (lit "records" ∷ param ∷ []);
  verbs = (get, record_view) ∷ (patch, record_update) ∷ (delete, record_delete) ∷ [];
}

-- the parts of a path below a collection
abbrev below : List Text → List Text
below parts = [] ∷ bytes "api" ∷ bytes "collections" ∷ parts

-- the routes of the records, for names that are not empty
fits_records :
    (c : ℕ) (col : Text)
    → let path = below ((c ∷ col) ∷ bytes "records" ∷ []) in
      (fitting path routes ≡ records ∷ []) × (fits records.pattern path ≡ some ((c ∷ col) ∷ []))
unfolding fitting routes fits bytes same
fits_records c col = (refl, refl)

fits_record :
    (c : ℕ) (col : Text) (i : ℕ) (id : Text)
    → let path = below ((c ∷ col) ∷ bytes "records" ∷ (i ∷ id) ∷ []) in
      (fitting path routes ≡ one_record ∷ [])
      × (fits one_record.pattern path ≡ some ((c ∷ col) ∷ (i ∷ id) ∷ []))
unfolding fitting routes fits bytes same
fits_record c col i id = (refl, refl)

-- the one route for the parts behind the prefix, and its parameters
abbrev Routed : List Text → Text → Option Text → Type 0
Routed parts name none =
    (fitting (below parts) routes ≡ records ∷ [])
    × (fits records.pattern (below parts) ≡ some (name ∷ []))
Routed parts name (some id) =
    (fitting (below parts) routes ≡ one_record ∷ [])
    × (fits one_record.pattern (below parts) ≡ some (name ∷ id ∷ []))

same_target :
    (parts : List Text) (x y : Text × Option Text)
    → some x ≡ some y
    → Routed parts x.0 x.1
    → Routed parts y.0 y.1
same_target parts x y e r =
    let here : x ≡ y = cc (e) in subst (λ (z : Text × Option Text). Routed parts z.0 z.1) here r

record_path-Routed :
    (parts : List Text) (name : Text) (target : Option Text)
    → record_path parts ≡ some (name, target)
    → Routed parts name target
unfolding record_path
record_path-Routed [] name target h = cc
record_path-Routed (col ∷ []) name target h = cc
record_path-Routed ([] ∷ recs ∷ []) name target h = cc
record_path-Routed ((c ∷ col) ∷ recs ∷ []) name target h =
    elim (Bool-cases (same recs (bytes "records"))) [
      | inl e ↦
          same_target ((c ∷ col) ∷ recs ∷ []) (c ∷ col, none) (name, target) (rw e at h)
            (rw ((same_iff recs (bytes "records")).0 e) (fits_records c col))
      | inr e ↦ cc (h, e)
    ]
record_path-Routed ([] ∷ recs ∷ id ∷ []) name target h = cc
record_path-Routed ((c ∷ col) ∷ recs ∷ [] ∷ []) name target h = cc
record_path-Routed ((c ∷ col) ∷ recs ∷ (i ∷ id) ∷ []) name target h =
    elim (Bool-cases (same recs (bytes "records"))) [
      | inl e ↦
          same_target ((c ∷ col) ∷ recs ∷ (i ∷ id) ∷ []) (c ∷ col, some (i ∷ id)) (name, target)
            (rw e at h) (rw ((same_iff recs (bytes "records")).0 e) (fits_record c col i id))
      | inr e ↦ cc (h, e)
    ]
record_path-Routed (col ∷ recs ∷ id ∷ more ∷ rest) name target h = cc

split_on-prefix :
    (rest : Text)
    → split_on b'/' (collections_prefix ++ rest)
      ≡ [] ∷ bytes "api" ∷ bytes "collections" ∷ split_on b'/' rest
unfolding split_on collections_prefix bytes
split_on-prefix rest = refl

-- what a router makes of a path
abbrev pub Dispatched : Router → Text → Text → Option Text → Type 0
Dispatched router url name none = router routes post url ≡ handled record_create (name ∷ [])
Dispatched router url name (some id) =
    (router routes patch url ≡ handled record_update (name ∷ id ∷ []))
    × (router routes delete url ≡ handled record_delete (name ∷ id ∷ []))

Routed-Dispatched :
    (router : Router) (parts : List Text) (url name : Text) (target : Option Text)
    → RoutesByTable router
    → contains url (bytes "%") ≡ false
    → split_on b'/' url ≡ below parts
    → Routed parts name target
    → Dispatched router url name target
unfolding pick serves
Routed-Dispatched router parts url name none law raw e (only, fit) =
    law routes post url records (name ∷ []) raw (rw e only) (rw e fit)
Routed-Dispatched router parts url name (some id) law raw e (only, fit) = (
  law routes patch url one_record (name ∷ id ∷ []) raw (rw e only) (rw e fit),
  law routes delete url one_record (name ∷ id ∷ []) raw (rw e only) (rw e fit),
)

-- A sub-request of a batch whose path has no percent sign goes where the same request goes alone,
-- behind a router that sends such a request to the one route of its table that the path fits: a path
-- that `parse_url` takes without an id is routed with POST to the creation of a record in that
-- collection, and one with an id is routed with PATCH and DELETE to the update and the deletion of that
-- record.
pub parse_url-Dispatched :
    (router : Router) (url name : Text) (target : Option Text)
    → RoutesByTable router
    → contains url (bytes "%") ≡ false
    → parse_url url ≡ some (name, target)
    → Dispatched router url name target
unfolding parse_url
parse_url-Dispatched router url name target law raw h =
    elim (Bool-cases (contains url (bytes "?") || contains url (bytes "#"))) [
      | inl e ↦ cc (h, e)
      | inr e ↦ elim (Bool-cases (starts_with url collections_prefix)) [
        | inr f ↦ cc (h, e, f)
        | inl f ↦
            let rest = drop (length collections_prefix) url in
            let parts = split_on b'/' rest in
            let path : record_path parts ≡ some (name, target) = cc (h, e, f) in
            Routed-Dispatched router parts url name target law raw
              (ap (split_on b'/') (starts_with-drop url collections_prefix f)
                ∙ split_on-prefix rest)
              (record_path-Routed parts name target path)
      ]
    ]
