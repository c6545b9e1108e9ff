-- ===== src/Files/Tests.antt =====
-- Runs of the name checks of src/files.rs, after its unit tests.
use rockbase.Prelude.{◌≡◌, refl, none, some, bytes}
use rockbase.Ident.{ident_ok, is_digit, is_ascii_alphanumeric, is_word}
use rockbase.Files.{sanitize_filename, record_dir, content_type}

unfoldable names : Unit {0}
unfolding bytes sanitize_filename is_ascii_alphanumeric is_digit ident_ok is_word record_dir
    content_type
names = tt

cleaned : sanitize_filename (bytes "we ird$$.PNG") ≡ some (bytes "weird.PNG")
unfolding names
cleaned = refl

traversal : sanitize_filename (bytes "../../etc/passwd") ≡ none
unfolding names
traversal = refl

svg : content_type (bytes "a.svg") ≡ bytes "application/octet-stream"
unfolding names
svg = refl

outside : record_dir (bytes "posts") (bytes "..") ≡ none
unfolding names
outside = refl
