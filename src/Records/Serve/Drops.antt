-- ===== src/Records/Serve/Drops.antt =====
-- The files of a collection that is dropped.
use rockbase.Prelude.{
  ◌≡◌, refl, sym, subst, inl, inr, true, false, ◌&&◌, not, Option, none, some, List, [], ◌∷◌, ◌++◌,
  Text, bytes, same, same_iff, same_refl, arith, if◌then◌else◌, Bool-cases,
}
use rockbase.Db.{Row, find_row}
use rockbase.Records.Gate.{fetch_record}
use rockbase.Collections.Handlers.{Catalog, remove_records, without_collection}
use rockbase.Files.{record_dir, collection_dir}
use rockbase.Files.Storage.{
  FilePath, Disk, Faults, is_below, remove_dir_all, cleared, remove_collection_files,
}
use rockbase.Records.Serve.Owners.{dir_of, HasOwners, moved}

pub find_row-remove_records :
    (name name' id : Text) (rs : List Row)
    → find_row name' id (remove_records name rs)
      ≡ (if same name name' then none else find_row name' id rs)
unfolding find_row remove_records
find_row-remove_records name name' id [] = ground arith
find_row-remove_records name name' id (r ∷ rs) = ground (
  arith,
  find_row-remove_records name name' id rs,
  same_iff r.collection name,
  same_iff r.collection name',
  same_iff name name',
)

-- the records of every other collection are as they were
fetch_record-without :
    (s : Catalog) (name col id : Text)
    → same name col ≡ false
    → fetch_record (without_collection name s).db col id ≡ fetch_record s.db col id
unfolding fetch_record
fetch_record-without s name col id e = cc (find_row-remove_records name col id s.db.records, e)

collection_dir-eq-some :
    (col : Text) (dir : FilePath) → collection_dir col ≡ some dir → dir ≡ bytes "storage" ∷ col ∷ []
unfolding collection_dir
collection_dir-eq-some col dir h = ground arith

record_dir-none : (col id : Text) → collection_dir col ≡ none → record_dir col id ≡ none
unfolding record_dir
record_dir-none col id h = rw h (ground arith)

is_below-collection :
    (col id name : Text) → is_below (bytes "storage" ∷ col ∷ []) (dir_of col id ++ name ∷ []) ≡ true
unfolding is_below
is_below-collection col id name = ground (arith, same_refl (bytes "storage"), same_refl col)

module _ (faults : Faults) (k : (p : FilePath) → faults.keeps p ≡ false) (s : Catalog)
    (name : Text) where
  removed :
      (disk : Disk)
      → HasOwners s.db disk
      → HasOwners
          (without_collection name s).db
          (remove_dir_all faults (bytes "storage" ∷ name ∷ []) disk)
  unfolding remove_dir_all
  removed [] h = tt
  removed ((p, content) ∷ disk) h =
      let rest = removed disk h.1 in
      let o = h.0 in
      let dir = bytes "storage" ∷ name ∷ [] in
      elim (Bool-cases (same name o.col)) [
        | inl e ↦
            let below : is_below (bytes "storage" ∷ name ∷ []) p ≡ true =
              rw (o.path, (same_iff name o.col).0 e) (is_below-collection o.col o.id o.name) in
            rw (below, k p, remove_dir_all) rest
        | inr e ↦
            let stays =
              moved s.db (without_collection name s).db p o
                (fetch_record-without s name o.col o.id e) in
            elim (Bool-cases (is_below (bytes "storage" ∷ name ∷ []) p && not (faults.keeps p))) [
              | inl t ↦ rw (t, remove_dir_all) rest
              | inr t ↦ rw (t, remove_dir_all) (stays, rest)
            ]
      ]

  no_dir :
      (disk : Disk)
      → collection_dir name ≡ none
      → HasOwners s.db disk
      → HasOwners (without_collection name s).db disk
  no_dir [] c h = tt
  no_dir ((p, content) ∷ disk) c h =
      let o = h.0 in
      elim (Bool-cases (same name o.col)) [
        | inl e ↦ cc (o.dir, record_dir-none name o.id c, (same_iff name o.col).0 e)
        | inr e ↦ (
          moved s.db (without_collection name s).db p o (fetch_record-without s name o.col o.id e),
          no_dir disk c h.1,
        )
      ]

  cleared-HasOwners :
      (disk : Disk) (o : Option FilePath)
      → collection_dir name ≡ o
      → HasOwners s.db disk
      → HasOwners (without_collection name s).db (cleared faults o disk)
  cleared-HasOwners disk none c h = no_dir disk c h
  cleared-HasOwners disk (some dir) c h =
      let here : bytes "storage" ∷ name ∷ [] ≡ dir = sym (collection_dir-eq-some name dir c) in
      subst (λ t. HasOwners (without_collection name s).db (remove_dir_all faults t disk)) here
        (removed disk h)

  pub remove_collection_files-HasOwners :
      (disk : Disk)
      → HasOwners s.db disk
      → HasOwners (without_collection name s).db (remove_collection_files faults name disk)
  unfolding remove_collection_files
  remove_collection_files-HasOwners disk h = cleared-HasOwners disk (collection_dir name) refl h
