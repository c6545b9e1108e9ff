-- ===== src/Files/Storage.antt =====
-- src/files.rs: the files below the data directory. A path is its parts, a file its bytes.
pub mod Laws
use rockbase.Prelude.{
  Bool, true, false, ◌&&◌, not, Option, none, some, List, [], ◌∷◌, ◌++◌, Text, bytes, same,
  if◌then◌else◌, ok, err,
}
use rockbase.Http.{failure, Reply, internal_server_error}
use rockbase.Files.{FilePart, record_dir, collection_dir}

abbrev pub FilePath : Type 0
FilePath = List Text

abbrev pub Disk : Type 0
Disk = List (FilePath × Text)

-- What the operating system may refuse: a directory, a write, which may leave part of the file
-- behind, and the removal of a file with its directory.
pub record Faults : Type 0 where
  pub create_dir : FilePath → Option Text
  pub write : FilePath → Option (Text × Option Text)
  pub keeps : FilePath → Bool

unfoldable pub same_path : FilePath → FilePath → Bool
same_path [] [] = true
same_path (a ∷ p) (b ∷ q) = same a b && same_path p q
same_path _ _ = false

-- a path in a directory, at any depth
unfoldable pub is_below : FilePath → FilePath → Bool
is_below [] q = true
is_below (a ∷ p) [] = false
is_below (a ∷ p) (b ∷ q) = same a b && is_below p q

-- `std::fs::read`
unfoldable pub read_file : Disk → FilePath → Option Text
unfolding same_path
read_file [] p = none
read_file ((q, content) ∷ d) p = if same_path q p then some content else read_file d p

unfoldable pub put_file : FilePath → Text → Disk → Disk
unfolding same_path
put_file p content [] = (p, content) ∷ []
put_file p content ((q, old) ∷ d) =
    if same_path q p then (q, content) ∷ d else (q, old) ∷ put_file p content d

-- `std::fs::remove_file`
unfoldable pub remove_file : Faults → FilePath → Disk → Disk
unfolding same_path
remove_file faults p [] = []
remove_file faults p ((q, content) ∷ d) =
    let rest = remove_file faults p d in
    if same_path q p && not (faults.keeps q) then rest else (q, content) ∷ rest

-- `std::fs::remove_dir_all`, as far as it gets
unfoldable pub remove_dir_all : Faults → FilePath → Disk → Disk
unfolding is_below
remove_dir_all faults dir [] = []
remove_dir_all faults dir ((q, content) ∷ d) =
    let rest = remove_dir_all faults dir d in
    if is_below dir q && not (faults.keeps q) then rest else (q, content) ∷ rest

abbrev leave : FilePath → Option Text → Disk → Disk
leave p none d = d
leave p (some content) d = put_file p content d

-- the loop of `write_files`
unfoldable pub write_all : Faults → FilePath → List FilePart → Disk → Reply (Unit {0}) × Disk
unfolding put_file
write_all faults dir [] d = (ok tt, d)
write_all faults dir ((field, name, content) ∷ files) d =
    let p = dir ++ name ∷ [] in
    elim (faults.write p) [
      | some (e, left) ↦ (err (failure internal_server_error e), leave p left d)
      | none ↦ write_all faults dir files (put_file p content d)
    ]

-- the writes, once the directory is there
abbrev pub with_dir :
    Faults → FilePath → List FilePart → Disk → Option Text → Reply (Unit {0}) × Disk
with_dir faults dir files d (some e) = (err (failure internal_server_error e), d)
with_dir faults dir files d none = write_all faults dir files d

abbrev pub in_dir : Faults → List FilePart → Option FilePath → Disk → Reply (Unit {0}) × Disk
in_dir faults files none d = (err (failure internal_server_error (bytes "bad storage path")), d)
in_dir faults files (some dir) d = with_dir faults dir files d (faults.create_dir dir)

unfoldable pub write_files : Faults → Text → Text → List FilePart → Disk → Reply (Unit {0}) × Disk
unfolding bytes record_dir write_all
write_files faults col id [] d = (ok tt, d)
write_files faults col id (f ∷ files) d = in_dir faults (f ∷ files) (record_dir col id) d

abbrev pub cleared : Faults → Option FilePath → Disk → Disk
cleared faults none d = d
cleared faults (some dir) d = remove_dir_all faults dir d

unfoldable pub remove_record_files : Faults → Text → Text → Disk → Disk
remove_record_files faults col id d = cleared faults (record_dir col id) d

unfoldable pub remove_collection_files : Faults → Text → Disk → Disk
remove_collection_files faults col d = cleared faults (collection_dir col) d
