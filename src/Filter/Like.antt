-- ===== src/Filter/Like.antt =====
-- SQLite's `LIKE ? ESCAPE '\'` as its documentation describes it, and what the escaping of
-- src/filter.rs makes of it. `%` is any text, `_` any character, `\` takes the next character as it
-- is, and letters of ASCII are compared without their case.
use rockbase.Prelude.{
  ℕ, ◌≡◌, refl, Bool, true, false, ◌&&◌, ◌||◌, [], ◌∷◌, ◌++◌, Text, arith, ◌==◌, starts_with,
  contains, if◌then◌else◌,
}
use rockbase.Filter.Sql.{like_escape, like_pattern}
use rockbase.Filter.Eval.{lower, to_lower}

-- some suffix of the text passes
any_suffix : (Text → Bool) → Text → Bool
any_suffix f [] = f []
any_suffix f (c ∷ t) = f (c ∷ t) || any_suffix f t

-- the text starts with the character, and its rest passes
literal : ℕ → (Text → Bool) → Text → Bool
literal c f [] = false
literal c f (d ∷ t) = (lower c == lower d) && f t

one_char : (Text → Bool) → Text → Bool
one_char f [] = false
one_char f (d ∷ t) = f t

is_end : Text → Bool
is_end [] = true
is_end (_ ∷ _) = false

-- The first argument tells that an escape stands before the pattern.
unfoldable pub like_matches : Bool → Text → Text → Bool
unfolding any_suffix literal one_char is_end
like_matches escaped [] t = is_end t
like_matches true (c ∷ p) t = literal c (like_matches false p) t
like_matches false (c ∷ p) t =
    if c == b'%'
    then any_suffix (like_matches false p) t
    else if c == b'\\'
    then like_matches true p t
    else if c == b'_'
    then one_char (like_matches false p) t
    else literal c (like_matches false p) t

any_suffix-is_end : (t : Text) → any_suffix (like_matches false []) t ≡ true
unfolding like_matches
any_suffix-is_end [] = refl
any_suffix-is_end (c ∷ t) = any_suffix-is_end t

-- An escaped text and a final `%` match what starts with the text.
like_matches-escape :
    (s t : Text)
    → like_matches false (like_escape s ++ b'%' ∷ []) t ≡ starts_with (to_lower t) (to_lower s)
unfolding like_matches like_escape starts_with to_lower
like_matches-escape [] t = any_suffix-is_end t
like_matches-escape (c ∷ s) [] = ground arith
like_matches-escape (c ∷ s) (d ∷ t) = ground (arith, like_matches-escape s t)

any_suffix-contains :
    (s t : Text)
    → any_suffix (like_matches false (like_escape s ++ b'%' ∷ [])) t
      ≡ contains (to_lower t) (to_lower s)
unfolding any_suffix contains to_lower
any_suffix-contains s [] = like_matches-escape s []
any_suffix-contains s (c ∷ t) =
    ground (arith, like_matches-escape s (c ∷ t), any_suffix-contains s t)

-- The pattern that the SQL backend binds matches a text exactly when the in-memory backend finds
-- the value in it: both without the case of ASCII letters, and `%`, `_` and `\` stand for themselves.
pub like_pattern-contains :
    (s t : Text) → like_matches false (like_pattern s) t ≡ contains (to_lower t) (to_lower s)
unfolding like_matches like_pattern
like_pattern-contains s t = any_suffix-contains s t
