-- ===== src/Ident.antt =====
-- `ident_ok` of src/lib.rs, and the byte classes of the Rust standard library that the program uses.
use rockbase.Prelude.{
  ℕ, ◌≤◌, Bool, true, ◌&&◌, ◌||◌, ◌≡◌, [], ◌∷◌, Text, arith, leb, ◌==◌, length, all, not,
}

unfoldable pub is_digit : ℕ → Bool
is_digit c = leb b'0' c && leb c b'9'

unfoldable pub is_ascii_alphanumeric : ℕ → Bool
unfolding is_digit
is_ascii_alphanumeric c = is_digit c || (leb b'A' c && leb c b'Z') || (leb b'a' c && leb c b'z')

-- space, tab, line feed, form feed, carriage return
unfoldable pub is_ascii_whitespace : ℕ → Bool
is_ascii_whitespace c = c == 32 || c == 9 || c == 10 || c == 12 || c == 13

-- one character of an identifier
unfoldable pub is_word : ℕ → Bool
unfolding is_ascii_alphanumeric
is_word c = is_ascii_alphanumeric c || c == b'_'

abbrev is_empty : Text → Bool
is_empty [] = true
is_empty (_ ∷ _) = Bool.false

unfoldable pub ident_ok : Text → Bool
ident_ok s = not (is_empty s) && leb (length s) 64 && all is_word s

-- An accepted name is one to sixty-four word bytes.
pub ident_ok-all : (s : Text) → ident_ok s ≡ true → all is_word s ≡ true
unfolding ident_ok
ident_ok-all s h = ground arith

pub ident_ok-length : (s : Text) → ident_ok s ≡ true → length s ≤ 64
unfolding ident_ok
ident_ok-length s h = ground arith
