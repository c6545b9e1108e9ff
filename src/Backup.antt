-- ===== src/Backup.antt =====
-- src/backup.rs: `backup_download`.
pub mod Trace
mod Tests
use rockbase.Prelude.{
  ℕ, Option, none, some, List, [], ◌∷◌, ◌++◌, Text, bytes, Result, ok, err, ok_or, ◌>>=◌,
}
use rockbase.Prelude.Decimal.{nat_text}
use rockbase.Http.{failure, Reply, internal_server_error}
use rockbase.Auth.{Who}
use rockbase.Auth.Tokens.{only_admin}
use rockbase.Files.Storage.{FilePath, Disk, Faults, put_file, read_file, remove_file}

-- `VACUUM INTO`: the bytes of the copy, or an error with what is left of the file. Then the error of
-- a read of the copy, if it fails, and that of a read of a file that is not there.
pub record Vacuum : Type 0 where
  pub copies : Result (Text × Option Text) Text
  pub read_fault : Option Text
  pub missing : Text

pub record Download : Type 0 where
  pub content_type : Text
  pub disposition : Text
  pub content : Text

abbrev pub left_over : FilePath → Option Text → Disk → Disk
left_over p none d = d
left_over p (some content) d = put_file p content d

unfoldable pub failed : Text → Reply Download
failed e = err (failure internal_server_error e)

-- `ts` is the time in seconds
unfoldable pub download : ℕ → Text → Download
unfolding bytes nat_text
download ts content = record {
  content_type = bytes "application/octet-stream";
  disposition = bytes "attachment; filename=\"rockbase_" ++ (nat_text ts ++ bytes ".db\"");
  content = content;
}

-- what was read of the copy, or the error
abbrev pub sent : Text → ℕ → Option Text → Reply Download
sent missing ts none = failed missing
sent missing ts (some content) = ok (download ts content)

-- the read of the copy, and its removal
abbrev pub read_copy : Faults → Text → ℕ → FilePath → Disk → Option Text → Reply Download × Disk
read_copy faults missing ts p d (some e) = (failed e, remove_file faults p d)
read_copy faults missing ts p d none = (sent missing ts (read_file d p), remove_file faults p d)

-- after the statement
abbrev pub copied :
    Faults → Vacuum → ℕ → FilePath → Disk → Result (Text × Option Text) Text → Reply Download × Disk
copied faults v ts p d (err (e, rest)) = (failed e, remove_file faults p (left_over p rest d))
copied faults v ts p d (ok content) =
    read_copy faults v.missing ts p (put_file p content d) v.read_fault

-- `tmp` is the fresh path in the temporary directory, none if that is no text
unfoldable pub backup_download :
    Faults → Vacuum → ℕ → Option FilePath → Who → Disk → Reply Download × Disk
unfolding bytes failed
backup_download faults v ts tmp w d = elim (only_admin w) [
  | err e ↦ (err e, d)
  | ok _ ↦ elim tmp [
    | none ↦ (failed (bytes "bad temp path"), d)
    | some p ↦ copied faults v ts p d v.copies
  ]
]
