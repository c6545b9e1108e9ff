-- ===== src/Backup/Tests.antt =====
-- Runs of src/backup.rs.
use rockbase.Prelude.{◌≡◌, refl, false, none, some, [], ◌∷◌, bytes, same, err}
use rockbase.Auth.{admin}
use rockbase.Files.Storage.{FilePath, Faults, same_path, read_file, put_file, remove_file}
use rockbase.Backup.{Vacuum, backup_download}
use rockbase.Backup.Trace.{Gives, SameFiles, backup_download-Done}

abbrev no_faults : Faults
no_faults = record { create_dir = λ p. none; write = λ p. none; keeps = λ p. false }

abbrev tmp : FilePath
tmp = bytes "tmp" ∷ bytes "rockbase_backup_1.db" ∷ []

-- a full disk: part of the copy is left, and the statement fails
abbrev full : Vacuum
full = record {
  copies = err (bytes "disk full", some (bytes "SQLi"));
  read_fault = none;
  missing = bytes "not found";
}

backup_download-Done_example :
    Gives full 7 admin (backup_download no_faults full 7 (some tmp) admin []).0
    × SameFiles [] (backup_download no_faults full 7 (some tmp) admin []).1
unfolding read_file
backup_download-Done_example = backup_download-Done no_faults full 7 tmp admin [] refl refl

cleaned_up : (backup_download no_faults full 7 (some tmp) admin []).1 ≡ []
unfolding backup_download put_file remove_file same_path same bytes
cleaned_up = refl
