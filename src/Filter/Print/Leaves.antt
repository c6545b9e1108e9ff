-- ===== src/Filter/Print/Leaves.antt =====
-- How the parser of src/filter.rs reads a printed comparison.
use rockbase.Prelude.{
  ℕ, ◌+◌, ◌≡◌, refl, ap, ◌∙◌, inl, inr, Bool, true, false, ◌||◌, none, [], ◌∷◌, ◌++◌, append_assoc,
  append-nil, Text, bytes, arith, ◌==◌, same, starts_with, length, all, ok, Bool-cases,
}
use rockbase.Ident.{is_ascii_whitespace}
use rockbase.Env.{F64}
use rockbase.Filter.{Mode, Op, SqlValue, text, Operand, col, auth, val}
use rockbase.Filter.Scan.{Cursor, Scan, take_while, drop_while, skip, ws, eat, drop}
use rockbase.Filter.Parser.{token, quoted, is_bare, bareword, value}
use rockbase.Filter.Print.{quote, right_text, IsRight}

-- what may stand behind a comparison
abbrev pub is_stop : Text → Bool
is_stop [] = true
is_stop (c ∷ s) = c == b')' || c == b'&' || c == b'|'

abbrev pub from : Text → ℕ → Cursor
from s i = record { rest = s; at = i }

-- the scan reads one thing and stops before the rest
abbrev pub Reads : {A : Type 0} → Scan A → A → Text → Type 0
Reads scan a rest = (j : ℕ) × (scan ≡ ok (a, from rest j))

headed : (xs : Text) (y : ℕ) (ys : Text) → (d : ℕ) × (more : Text) × (xs ++ y ∷ ys ≡ d ∷ more)
headed [] y ys = (y, ys, refl)
headed (x ∷ xs) y ys = (x, xs ++ y ∷ ys, refl)

quoted-plain :
    (i c : ℕ) (t acc : Text) (d : ℕ) (more : Text)
    → t ≡ d ∷ more
    → (c == b'\'') ≡ false
    → quoted i (c ∷ t) acc ≡ quoted (i + 1) t (acc ++ c ∷ [])
unfolding quoted
quoted-plain i c t acc d more e h = rw (e, h) refl

quoted-escaped :
    (i c : ℕ) (t acc : Text)
    → (c == b'\'') ≡ true
    → quoted i (c ∷ c ∷ t) acc ≡ quoted (i + 2) t (acc ++ b'\'' ∷ [])
unfolding quoted
quoted-escaped i c t acc h = rw h refl

quoted-end :
    (i : ℕ) (rest acc : Text)
    → is_stop rest ≡ true
    → quoted i (b'\'' ∷ rest) acc ≡ ok (val (text acc), from rest (i + 1))
unfolding quoted
quoted-end i [] acc h = refl
quoted-end i (c ∷ rest) acc h =
    let other : (c == b'\'') ≡ false = ground (arith, h) in rw other refl

quoted-quote :
    (s acc rest : Text) (i : ℕ)
    → is_stop rest ≡ true
    → Reads (quoted i (quote s ++ b'\'' ∷ rest) acc) (val (text (acc ++ s))) rest
quoted-quote [] acc rest i h = (i + 1, rw append-nil (quoted-end i rest acc h))
quoted-quote (c ∷ s) acc rest i h = elim (Bool-cases (c == b'\'')) [
  | inl t ↦
      let (j, e) = quoted-quote s (acc ++ b'\'' ∷ []) rest (i + 2) h in
      let same_c : c ≡ b'\'' = ground (arith, t) in
      (
        j,
        rw (t, same_c)
            (quoted-escaped i b'\'' (quote s ++ b'\'' ∷ rest) acc refl
              ∙ e
              ∙ ap (λ (x : Text). ok (val (text x), from rest j))
                  (append_assoc acc (b'\'' ∷ []) s)),
      )
  | inr f ↦
      let (j, e) = quoted-quote s (acc ++ c ∷ []) rest (i + 1) h in
      let (d, more, t) = headed (quote s) b'\'' rest in
      (
        j,
        rw f (
            quoted-plain i c (quote s ++ b'\'' ∷ rest) acc d more t f
            ∙ e
            ∙ ap (λ (x : Text). ok (val (text x), from rest j)) (append_assoc acc (c ∷ []) s)),
      )
]

-- a blank is skipped by nothing else
pub ws-shut :
    (c : ℕ) (s : Text) (i : ℕ)
    → is_ascii_whitespace c ≡ false
    → ws (from (c ∷ s) i) ≡ from (c ∷ s) i
unfolding ws skip take_while drop_while
ws-shut c s i h = let z : i + 0 ≡ i = omega arith in rw (h, z) refl

pub ws-stop : (rest : Text) (i : ℕ) → is_stop rest ≡ true → ws (from rest i) ≡ from rest i
unfolding ws skip take_while drop_while is_ascii_whitespace
ws-stop [] i h = let z : i + 0 ≡ i = omega arith in rw z refl
ws-stop (c ∷ s) i h = ws-shut c s i (ground (arith, h))

-- a scanning loop takes a word and stops behind it
pub word-taken :
    (p : ℕ → Bool) (w rest : Text)
    → all p w ≡ true
    → take_while p rest ≡ []
    → take_while p (w ++ rest) ≡ w
unfolding take_while
word-taken p [] rest h e = e
word-taken p (c ∷ w) rest h e = ground (arith, h, word-taken p w rest)

pub word-dropped :
    (p : ℕ → Bool) (w rest : Text)
    → all p w ≡ true
    → drop_while p rest ≡ rest
    → drop_while p (w ++ rest) ≡ rest
unfolding drop_while
word-dropped p [] rest h e = e
word-dropped p (c ∷ w) rest h e = ground (arith, h, word-dropped p w rest)

stop-not :
    (p : ℕ → Bool) (rest : Text)
    → is_stop rest ≡ true
    → p b')' ≡ false
    → p b'&' ≡ false
    → p b'|' ≡ false
    → (take_while p rest ≡ []) × (drop_while p rest ≡ rest)
unfolding take_while drop_while
stop-not p [] h x y z = (refl, refl)
stop-not p (c ∷ rest) h x y z =
    let none_of : p c ≡ false = elim (Bool-cases (c == b')')) [
      | inl t ↦ let e : c ≡ b')' = ground (arith, t) in rw e x
      | inr f ↦ elim (Bool-cases (c == b'&')) [
        | inl t ↦ let e : c ≡ b'&' = ground (arith, t) in rw e y
        | inr g ↦ let e : c ≡ b'|' = ground (arith, h, f, g) in rw e z
      ]
    ] in
    (rw none_of refl, rw none_of refl)

-- a bareword in front of a stop
bareword-Reads :
    (f64 : F64) (mode : Mode) (w rest : Text) (o : Operand) (i : ℕ)
    → all is_bare w ≡ true
    → starts_with (w ++ rest) (bytes "'") ≡ false
    → ((start : ℕ) → bareword f64 mode start w ≡ ok o)
    → is_stop rest ≡ true
    → Reads (value f64 mode (from (w ++ rest) i)) o rest
unfolding value eat skip is_bare bytes
bareword-Reads f64 mode w rest o i bare plain reads h =
    let (t, d) = stop-not is_bare rest h refl refl refl in
    let taken = word-taken is_bare w rest bare t in
    let dropped = word-dropped is_bare w rest bare d in
    let unquoted : eat (bytes "'") (from (w ++ rest) i) ≡ none = rw (plain, eat) refl in
    (i + length w, rw (unquoted, value, taken, dropped, reads i) refl)

token-Reads :
    (f64 : F64) (mode : Mode) (rest : Text) (i : ℕ)
    → is_stop rest ≡ true
    → Reads (value f64 mode (from (token ++ rest) i)) auth rest
unfolding token bytes is_bare is_ascii_whitespace starts_with bareword same
token-Reads f64 mode rest i h =
    bareword-Reads f64 mode token rest auth i refl refl (λ start. refl) h

null-Reads :
    (f64 : F64) (mode : Mode) (rest : Text) (i : ℕ)
    → is_stop rest ≡ true
    → Reads (value f64 mode (from (bytes "null" ++ rest) i)) Operand.null rest
unfolding token bytes is_bare is_ascii_whitespace starts_with bareword same
null-Reads f64 mode rest i h =
    bareword-Reads f64 mode (bytes "null") rest Operand.null i refl refl (λ start. refl) h

quote-Reads :
    (f64 : F64) (mode : Mode) (s rest : Text) (i : ℕ)
    → is_stop rest ≡ true
    → Reads (value f64 mode (from (b'\'' ∷ (quote s ++ b'\'' ∷ rest)) i)) (val (text s)) rest
unfolding value eat starts_with drop bytes
quote-Reads f64 mode s rest i h = quoted-quote s [] rest (i + 1) h

pub value-right_text :
    (f64 : F64) (mode : Mode) (op : Op) (r : Operand) (rest : Text) (i : ℕ)
    → IsRight r op
    → is_stop rest ≡ true
    → Reads (value f64 mode (from (right_text r ++ rest) i)) r rest
unfolding right_text
value-right_text f64 mode op (val (text s)) rest i k h =
    rw append_assoc (quote-Reads f64 mode s rest i h)
value-right_text f64 mode op auth rest i k h = token-Reads f64 mode rest i h
value-right_text f64 mode op Operand.null rest i k h = null-Reads f64 mode rest i h
value-right_text f64 mode op (col f) rest i k h = absurd k
value-right_text f64 mode op (val (SqlValue.integer n)) rest i k h = absurd k
value-right_text f64 mode op (val (SqlValue.real n)) rest i k h = absurd k
value-right_text f64 mode op (val (SqlValue.blob n)) rest i k h = absurd k
value-right_text f64 mode op (val SqlValue.null) rest i k h = absurd k
