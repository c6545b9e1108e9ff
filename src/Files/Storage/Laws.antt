-- ===== src/Files/Storage/Laws.antt =====
-- What a reader finds on the disk of src/files.rs after an upload.
use rockbase.Prelude.{
  ◌≡◌, ◌↔◌, refl, ◌∙◌, Bool, true, false, Option, none, some, List, [], ◌∷◌, ◌++◌, Text, same,
  same_iff, same_refl, arith, if◌then◌else◌, ok, Option-cases, Bool-cases, inl, inr,
}
use rockbase.Auth.{Who}
use rockbase.Db.{Db, Row, Col, Host, get_collection}
use rockbase.Records.Gate.{fetch_record, gate_record}
use rockbase.Files.{FilePart, record_dir, sanitize_filename, content_type, file_serve}
use rockbase.Files.Storage.{
  FilePath, Disk, Faults, same_path, read_file, put_file, remove_file, write_all, write_files,
}

pub same_path_iff : (p q : FilePath) → (same_path p q ≡ true) ↔ (p ≡ q)
unfolding same_path
same_path_iff [] [] = (λ h. refl, λ e. refl)
same_path_iff [] (b ∷ q) = (λ h. cc (h), λ e. cc (e))
same_path_iff (a ∷ p) [] = (λ h. cc (h), λ e. cc (e))
same_path_iff (a ∷ p) (b ∷ q) = (
  λ h. ground (arith, h, same_iff a b, (same_path_iff p q).0),
  λ e. ground (arith, e, same_iff a b, (same_path_iff p q).1),
)

pub read_file-put_file :
    (p q : FilePath) (content : Text) (d : Disk)
    → read_file (put_file p content d) q ≡ (if same_path p q then some content else read_file d q)
unfolding read_file put_file
read_file-put_file p q content [] = refl
read_file-put_file p q content ((r, old) ∷ d) = ground (
  arith,
  read_file-put_file p q content d,
  same_path_iff r p,
  same_path_iff r q,
  same_path_iff p q,
)

abbrev or_old : Option Text → Option Text → Option Text
or_old none old = old
or_old (some new) old = some new

or_else :
    (b : Bool) (content : Text) (old : Option Text)
    → (if b then some content else old) ≡ or_old (if b then some content else none) old
or_else true content old = refl
or_else false content old = refl

pub read_file-remove_file :
    (faults : Faults) (p q : FilePath) (d : Disk)
    → faults.keeps p ≡ false
    → read_file (remove_file faults p d) q ≡ (if same_path p q then none else read_file d q)
unfolding read_file remove_file
read_file-remove_file faults p q [] k = ground arith
read_file-remove_file faults p q ((r, content) ∷ d) k = elim (Bool-cases (same_path r p)) [
  | inl e ↦
      let here : r ≡ p = (same_path_iff r p).0 e in
      rw (e, here, k) (ground (arith, read_file-remove_file faults p q d k))
  | inr e ↦ ground (
    arith,
    e,
    read_file-remove_file faults p q d k,
    same_path_iff r p,
    same_path_iff r q,
    same_path_iff p q,
  )
]

-- the bytes of the last part with a name
unfoldable pub last_part : Text → List FilePart → Option Text
last_part name [] = none
last_part name ((field, n, content) ∷ files) = elim (last_part name files) [
  | some later ↦ some later
  | none ↦ if same n name then some content else none
]

same_path-append :
    (dir : FilePath) (a b : Text) → same_path (dir ++ a ∷ []) (dir ++ b ∷ []) ≡ same a b
unfolding same_path
same_path-append [] a b = ground arith
same_path-append (x ∷ dir) a b = ground (arith, same_refl x, same_path-append dir a b)

write_all-read :
    (faults : Faults) (dir : FilePath) (files : List FilePart) (d e : Disk) (name : Text)
    → write_all faults dir files d ≡ (ok tt, e)
    → read_file e (dir ++ name ∷ [])
      ≡ or_old (last_part name files) (read_file d (dir ++ name ∷ []))
unfolding write_all last_part
write_all-read faults dir [] d e name h = cc (h)
write_all-read faults dir ((field, n, content) ∷ files) d e name h =
    let p = dir ++ n ∷ [] in
    elim (Option-cases (faults.write p)) [
      | inr ((x, left), f) ↦ cc (h, f)
      | inl f ↦
          let ih =
            write_all-read faults dir files (put_file p content d) e name
              (rw (f, write_all) at h) in
          elim (Option-cases (last_part name files)) [
            | inr (later, l) ↦ rw l (ih ∙ rw l refl)
            | inl l ↦ rw l (
                ih
                ∙ rw l (
                    read_file-put_file p (dir ++ name ∷ []) content d
                    ∙ rw (same_path-append dir n name)
                        (or_else (same n name) content (read_file d (dir ++ name ∷ [])))))
          ]
    ]

-- what a successful `write_files` went through
write_files-eq-ok :
    (faults : Faults) (col id : Text) (files : List FilePart) (d e : Disk) (name content : Text)
    → write_files faults col id files d ≡ (ok tt, e)
    → last_part name files ≡ some content
    → (dir : FilePath) × (record_dir col id ≡ some dir)
      × (read_file e (dir ++ name ∷ []) ≡ some content)
unfolding write_files
write_files-eq-ok faults col id [] d e name content h l = unfold last_part in cc (l)
write_files-eq-ok faults col id (f ∷ files) d e name content h l =
    elim (Option-cases (record_dir col id)) [
      | inl r ↦ cc (h, r)
      | inr (dir, r) ↦ elim (Option-cases (faults.create_dir dir)) [
        | inr (x, c) ↦ cc (h, r, c)
        | inl c ↦
            let written : write_all faults dir (f ∷ files) d ≡ (ok tt, e) = cc (h, r, c) in
            (dir, r, write_all-read faults dir (f ∷ files) d e name written ∙ rw l refl)
      ]
    ]

-- A file that was uploaded comes back byte for byte. After a write of the files of a record that
-- succeeds, a download of a clean name of one of them, by a caller whom the view gate of the record
-- lets through, is answered with the bytes of the last of the files with that name, under the type
-- of the name's extension.
pub write_files-file_serve :
    (faults : Faults) (host : Host) (db : Db) (w : Who) (col id : Text) (files : List FilePart)
    (d e : Disk) (name content : Text) (c : Col) (row : Row)
    → write_files faults col id files d ≡ (ok tt, e)
    → last_part name files ≡ some content
    → sanitize_filename name ≡ some name
    → get_collection host.serde db col ≡ some c
    → fetch_record db col id ≡ some row
    → gate_record host db w c.rules.view col id ≡ ok tt
    → file_serve (read_file e) host db w col id name ≡ ok (content_type name, content)
unfolding file_serve
write_files-file_serve faults host db w col id files d e name content c row h l s g f a =
    let (dir, r, found) = write_files-eq-ok faults col id files d e name content h l in
    rw (s, same_refl name, r, g, f, a, found) refl
