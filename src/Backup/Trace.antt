-- ===== src/Backup/Trace.antt =====
-- What `backup_download` of src/backup.rs leaves on the disk.
use rockbase.Prelude.{
  ℕ, ◌≡◌, ◌≢◌, refl, Option, none, some, Text, Result, ok, err, inl, inr, false, Bool-cases,
}
use rockbase.Http.{failure, Reply}
use rockbase.Auth.{Who, admin, user, guest}
use rockbase.Files.Storage.{FilePath, Disk, Faults, same_path, read_file, put_file, remove_file}
use rockbase.Files.Storage.Laws.{same_path_iff, read_file-put_file, read_file-remove_file}
use rockbase.Backup.{
  Vacuum, Download, left_over, failed, download, read_copy, copied, backup_download,
}

-- Both disks give every reader the same.
abbrev pub SameFiles : Disk → Disk → Type 0
SameFiles d e = (q : FilePath) → read_file e q ≡ read_file d q

removed :
    (faults : Faults) (p : FilePath) (d e : Disk)
    → faults.keeps p ≡ false
    → read_file d p ≡ none
    → ((q : FilePath) → same_path p q ≡ false → read_file e q ≡ read_file d q)
    → SameFiles d (remove_file faults p e)
removed faults p d e k free others q = elim (Bool-cases (same_path p q)) [
  | inl s ↦
      let here : p ≡ q = (same_path_iff p q).0 s in
      cc (read_file-remove_file faults p q e k, s, free, here)
  | inr s ↦ cc (read_file-remove_file faults p q e k, s, others q s)
]

put_file-others :
    (p q : FilePath) (content : Text) (d : Disk)
    → same_path p q ≡ false
    → read_file (put_file p content d) q ≡ read_file d q
put_file-others p q content d s = cc (read_file-put_file p q content d, s)

left_over-others :
    (p : FilePath) (rest : Option Text) (d : Disk) (q : FilePath)
    → same_path p q ≡ false
    → read_file (left_over p rest d) q ≡ read_file d q
left_over-others p none d q s = refl
left_over-others p (some content) d q s = put_file-others p q content d s

put_file_self :
    (p : FilePath) (content : Text) (d : Disk) → read_file (put_file p content d) p ≡ some content
put_file_self p content d = cc (read_file-put_file p p content d, (same_path_iff p p).1 refl)

-- A download that succeeds gives an admin the bytes of the copy; a caller who is no admin is refused.
abbrev pub Gives : Vacuum → ℕ → Who → Reply Download → Type 0
Gives v ts w (ok got) =
    (w ≡ admin) × (content : Text) × (v.copies ≡ ok content) × (got ≡ download ts content)
Gives v ts w (err e) = (w ≢ admin) → e.status ≡ 401

abbrev Done : Vacuum → ℕ → Who → Disk → Reply Download × Disk → Type 0
Done v ts w d (reply, e) = Gives v ts w reply × SameFiles d e

read_copy-Done :
    (faults : Faults) (v : Vacuum) (ts : ℕ) (p : FilePath) (d : Disk) (content : Text)
    (fault : Option Text)
    → faults.keeps p ≡ false
    → read_file d p ≡ none
    → v.copies ≡ ok content
    → Done v ts admin d (read_copy faults v.missing ts p (put_file p content d) fault)
unfolding failed
read_copy-Done faults v ts p d content (some e) k free c = (
  λ n. absurd (n refl),
  removed faults p d (put_file p content d) k free (λ q s. put_file-others p q content d s),
)
read_copy-Done faults v ts p d content none k free c = (
  rw (put_file_self p content d) (refl, content, c, refl),
  removed faults p d (put_file p content d) k free (λ q s. put_file-others p q content d s),
)

copied-Done :
    (faults : Faults) (v : Vacuum) (ts : ℕ) (p : FilePath) (d : Disk)
    (r : Result (Text × Option Text) Text)
    → faults.keeps p ≡ false
    → read_file d p ≡ none
    → v.copies ≡ r
    → Done v ts admin d (copied faults v ts p d r)
unfolding failed
copied-Done faults v ts p d (ok content) k free c =
    read_copy-Done faults v ts p d content v.read_fault k free c
copied-Done faults v ts p d (err (x, rest)) k free c = (
  λ n. absurd (n refl),
  removed faults p d (left_over p rest d) k free (left_over-others p rest d),
)

-- A backup leaves no trace. Where its temporary file has a path that was free and that can be removed
-- again, every file reads after the request as it did before, whatever failed on the way; a download
-- that is answered goes to an admin and holds the copy that SQLite made; and no other caller gets
-- anything but 401.
pub backup_download-Done :
    (faults : Faults) (v : Vacuum) (ts : ℕ) (p : FilePath) (w : Who) (d : Disk)
    → faults.keeps p ≡ false
    → read_file d p ≡ none
    → Gives v ts w (backup_download faults v ts (some p) w d).0
      × SameFiles d (backup_download faults v ts (some p) w d).1
unfolding backup_download failure
backup_download-Done faults v ts p admin d k free = copied-Done faults v ts p d v.copies k free refl
backup_download-Done faults v ts p (user col id) d k free = (λ n. refl, λ q. refl)
backup_download-Done faults v ts p guest d k free = (λ n. refl, λ q. refl)
