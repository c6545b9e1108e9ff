-- ===== src/Records/Serve/Owners.antt =====
-- Every file on the disk belongs to a record, whatever src/records.rs serves.
use rockbase.Prelude.{
  ◌≡◌, ◌≢◌, refl, sym, ap, subst, ◌∙◌, inl, inr, true, false, ◌&&◌, not, Option, none, some, List,
  [], ◌∷◌, ◌++◌, Text, bytes, same, same_iff, same_refl, All, arith, Bool-cases, Option-cases,
  &&-eq-true,
}
use rockbase.Db.{Db}
use rockbase.Records.Gate.{fetch_record}
use rockbase.Records.Rows.{SameElsewhere}
use rockbase.Files.{FilePart, record_dir}
use rockbase.Files.Storage.{
  FilePath, Disk, Faults, same_path, is_below, put_file, remove_dir_all, write_all, with_dir,
  in_dir, write_files, cleared, remove_record_files,
}

abbrev pub dir_of : Text → Text → FilePath
dir_of col id = bytes "storage" ∷ col ∷ id ∷ []

-- a path of a file of a record that is there
pub record Owned (db : Db) (p : FilePath) : Type 0 where
  pub col : Text
  pub id : Text
  pub name : Text
  pub path : p ≡ dir_of col id ++ name ∷ []
  pub dir : record_dir col id ≡ some (dir_of col id)
  pub there : fetch_record db col id ≢ none

abbrev pub HasOwners : Db → Disk → Type 0
HasOwners db disk = All (λ f. Owned db f.0) disk

pub record_dir-eq-some :
    (col id : Text) (dir : FilePath) → record_dir col id ≡ some dir → dir ≡ dir_of col id
unfolding record_dir
record_dir-eq-some col id dir h = ground arith

-- a file of a record that a write leaves alone
pub moved :
    (a b : Db) (p : FilePath) (o : Owned a p)
    → fetch_record b o.col o.id ≡ fetch_record a o.col o.id
    → Owned b p
moved a b p o e = record {
  col = o.col;
  id = o.id;
  name = o.name;
  path = o.path;
  dir = o.dir;
  there = λ z. o.there (sym e ∙ z);
}

kept :
    (name id : Text) (a b : Db) (p : FilePath)
    → SameElsewhere name id a b
    → fetch_record b name id ≢ none
    → Owned a p
    → Owned b p
kept name id a b p s there o = elim (s.others o.col o.id) [
  | inl e ↦
      let (m, n) = &&-eq-true (same name o.col) (same id o.id) e in
      let this : fetch_record b o.col o.id ≢ none =
        rw (← (same_iff name o.col).0 m, ← (same_iff id o.id).0 n) there in
      record { col = o.col; id = o.id; name = o.name; path = o.path; dir = o.dir; there = this }
  | inr e ↦ moved a b p o e
]

pub kept_all :
    (name id : Text) (a b : Db) (disk : Disk)
    → SameElsewhere name id a b
    → fetch_record b name id ≢ none
    → HasOwners a disk
    → HasOwners b disk
kept_all name id a b [] s there o = tt
kept_all name id a b ((p, content) ∷ disk) s there o =
    (kept name id a b p s there o.0, kept_all name id a b disk s there o.1)

put_file-HasOwners :
    (db : Db) (p : FilePath) (content : Text) (disk : Disk)
    → Owned db p
    → HasOwners db disk
    → HasOwners db (put_file p content disk)
unfolding put_file
put_file-HasOwners db p content [] o h = (o, tt)
put_file-HasOwners db p content ((q, old) ∷ disk) o h = elim (Bool-cases (same_path q p)) [
  | inl e ↦ rw (e, put_file) (h.0, h.1)
  | inr e ↦ rw (e, put_file) (h.0, put_file-HasOwners db p content disk o h.1)
]

module _ (db : Db) (faults : Faults) (col id : Text) (there : fetch_record db col id ≢ none) where
  own :
      record_dir col id ≡ some (dir_of col id)
      → (name : Text) → Owned db (dir_of col id ++ name ∷ [])
  own r name = record { col = col; id = id; name = name; path = refl; dir = r; there = there }

  write_all-HasOwners :
      (files : List FilePart) (disk : Disk)
      → record_dir col id ≡ some (dir_of col id)
      → HasOwners db disk
      → HasOwners db (write_all faults (dir_of col id) files disk).1
  unfolding write_all
  write_all-HasOwners [] disk r h = h
  write_all-HasOwners ((field, name, content) ∷ files) disk r h =
      let p = dir_of col id ++ name ∷ [] in
      let put = λ (c : Text). put_file-HasOwners db p c disk (own r name) h in
      elim (Option-cases (faults.write p)) [
        | inl e ↦
            rw (e, write_all) (write_all-HasOwners files (put_file p content disk) r (put content))
        | inr ((x, none), e) ↦ rw (e, write_all) h
        | inr ((x, some left), e) ↦ rw (e, write_all) (put left)
      ]

  with_dir-HasOwners :
      (files : List FilePart) (disk : Disk) (refusal : Option Text)
      → record_dir col id ≡ some (dir_of col id)
      → HasOwners db disk
      → HasOwners db (with_dir faults (dir_of col id) files disk refusal).1
  with_dir-HasOwners files disk (some e) r h = h
  with_dir-HasOwners files disk none r h = write_all-HasOwners files disk r h

  in_dir-HasOwners :
      (files : List FilePart) (disk : Disk) (o : Option FilePath)
      → record_dir col id ≡ o
      → HasOwners db disk
      → HasOwners db (in_dir faults files o disk).1
  in_dir-HasOwners files disk none r h = h
  in_dir-HasOwners files disk (some dir) r h =
      let here : dir_of col id ≡ dir = sym (record_dir-eq-some col id dir r) in
      subst (λ t. HasOwners db (in_dir faults files (some t) disk).1) here
        (with_dir-HasOwners files disk (faults.create_dir (dir_of col id)) (r ∙ ap some (sym here))
          h)

  pub write_files-HasOwners :
      (files : List FilePart) (disk : Disk)
      → HasOwners db disk
      → HasOwners db (write_files faults col id files disk).1
  unfolding write_files
  write_files-HasOwners [] disk h = h
  write_files-HasOwners (f ∷ files) disk h =
      in_dir-HasOwners (f ∷ files) disk (record_dir col id) refl h

is_below-dir : (col id name : Text) → is_below (dir_of col id) (dir_of col id ++ name ∷ []) ≡ true
unfolding is_below
is_below-dir col id name = ground (arith, same_refl (bytes "storage"), same_refl col, same_refl id)

-- what is left of the files when the directory of a record is removed
remove_dir_all-HasOwners :
    (faults : Faults) (name id : Text) (a b : Db) (disk : Disk)
    → ((p : FilePath) → faults.keeps p ≡ false)
    → SameElsewhere name id a b
    → HasOwners a disk
    → HasOwners b (remove_dir_all faults (dir_of name id) disk)
unfolding remove_dir_all
remove_dir_all-HasOwners faults name id a b [] k s h = tt
remove_dir_all-HasOwners faults name id a b ((p, content) ∷ disk) k s h =
    let rest = remove_dir_all-HasOwners faults name id a b disk k s h.1 in
    let o = h.0 in
    elim (s.others o.col o.id) [
      | inl e ↦
          let (m, n) = &&-eq-true (same name o.col) (same id o.id) e in
          let below : is_below (dir_of name id) p ≡ true =
            rw (o.path, (same_iff name o.col).0 m, (same_iff id o.id).0 n)
              (is_below-dir o.col o.id o.name) in
          rw (below, k p, remove_dir_all) rest
      | inr e ↦
          let stays = moved a b p o e in
          elim (Bool-cases (is_below (dir_of name id) p && not (faults.keeps p))) [
            | inl t ↦ rw (t, remove_dir_all) rest
            | inr t ↦ rw (t, remove_dir_all) (stays, rest)
          ]
    ]

-- a record whose name or id is no identifier has no files
no_dir-HasOwners :
    (name id : Text) (a b : Db) (disk : Disk)
    → record_dir name id ≡ none
    → SameElsewhere name id a b
    → HasOwners a disk
    → HasOwners b disk
no_dir-HasOwners name id a b [] r s h = tt
no_dir-HasOwners name id a b ((p, content) ∷ disk) r s h =
    let rest = no_dir-HasOwners name id a b disk r s h.1 in
    let o = h.0 in
    elim (s.others o.col o.id) [
      | inl e ↦
          let (m, n) = &&-eq-true (same name o.col) (same id o.id) e in
          cc (r, o.dir, (same_iff name o.col).0 m, (same_iff id o.id).0 n)
      | inr e ↦ (moved a b p o e, rest)
    ]

cleared-HasOwners :
    (faults : Faults) (name id : Text) (a b : Db) (disk : Disk) (o : Option FilePath)
    → record_dir name id ≡ o
    → ((p : FilePath) → faults.keeps p ≡ false)
    → SameElsewhere name id a b
    → HasOwners a disk
    → HasOwners b (cleared faults o disk)
cleared-HasOwners faults name id a b disk none r k s h = no_dir-HasOwners name id a b disk r s h
cleared-HasOwners faults name id a b disk (some dir) r k s h =
    let here : dir_of name id ≡ dir = sym (record_dir-eq-some name id dir r) in
    subst (λ t. HasOwners b (remove_dir_all faults t disk)) here
      (remove_dir_all-HasOwners faults name id a b disk k s h)

pub remove_record_files-HasOwners :
    (faults : Faults) (name id : Text) (a b : Db) (disk : Disk)
    → ((p : FilePath) → faults.keeps p ≡ false)
    → SameElsewhere name id a b
    → HasOwners a disk
    → HasOwners b (remove_record_files faults name id disk)
unfolding remove_record_files
remove_record_files-HasOwners faults name id a b disk k s h =
    cleared-HasOwners faults name id a b disk (record_dir name id) refl k s h
