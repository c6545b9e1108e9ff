-- ===== src/Trim.antt =====
-- `str::trim`, as src/realtime.rs and src/records.rs use it.
use rockbase.Prelude.{ℕ, Bool, ◌||◌, ◌==◌, [], ◌∷◌, Text}
use rockbase.Ident.{is_ascii_whitespace}
use rockbase.Filter.Scan.{drop_while}

-- `str::trim`, on the white space that is ASCII
unfoldable pub is_space : ℕ → Bool
unfolding is_ascii_whitespace
is_space c = is_ascii_whitespace c || c == 11

-- the bytes from behind
unfoldable pub reverse : Text → Text → Text
reverse acc [] = acc
reverse acc (c ∷ s) = reverse (c ∷ acc) s

unfoldable pub trim : Text → Text
unfolding drop_while is_space reverse
trim s = reverse [] (drop_while is_space (reverse [] (drop_while is_space s)))
