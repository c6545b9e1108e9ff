-- ===== src/Filter/Print/Comparison.antt =====
-- How the parser of src/filter.rs reads a printed comparison.
use rockbase.Prelude.{
  ℕ, ◌+◌, ◌≡◌, refl, true, false, none, some, [], ◌∷◌, ◌++◌, Text, bytes, arith, ◌==◌, starts_with,
  length, ok,
}
use rockbase.Ident.{
  ident_ok, ident_ok-all, is_ascii_whitespace, is_word, is_ascii_alphanumeric, is_digit,
}
use rockbase.Env.{F64}
use rockbase.Filter.{
  Mode, Op, eq, ne, gt, ge, lt, le, like, not_like, spelling, SqlValue, text, Operand, col, auth,
  val, cmp,
}
use rockbase.Filter.Scan.{take_while, drop_while, skip, ws, eat, drop}
use rockbase.Filter.Parser.{token, operators, eat_first, left_side, check_right, comparison}
use rockbase.Filter.Print.{left_text, right_text, IsLeft, IsRight}
use rockbase.Filter.Print.Leaves.{
  is_stop, from, Reads, ws-shut, word-taken, word-dropped, value-right_text,
}

eat_first-spelling :
    (op : Op) (c : ℕ) (t : Text) (i : ℕ)
    → (c == b'=') ≡ false
    → eat_first operators (from (spelling op ++ c ∷ t) i)
      ≡ some (op, from (c ∷ t) (i + length (spelling op)))
unfolding eat_first eat starts_with drop spelling bytes
eat_first-spelling eq c t i h = refl
eat_first-spelling ne c t i h = refl
eat_first-spelling gt c t i h = rw (h, eat_first) refl
eat_first-spelling ge c t i h = refl
eat_first-spelling lt c t i h = rw (h, eat_first) refl
eat_first-spelling le c t i h = refl
eat_first-spelling like c t i h = refl
eat_first-spelling not_like c t i h = refl

-- an operator is no part of a word, and no blank
spelling-headed :
    (op : Op) (more : Text)
    → (take_while is_word (spelling op ++ more) ≡ [])
      × (drop_while is_word (spelling op ++ more) ≡ spelling op ++ more)
unfolding take_while drop_while is_word is_ascii_alphanumeric is_digit spelling bytes
spelling-headed eq more = (refl, refl)
spelling-headed ne more = (refl, refl)
spelling-headed gt more = (refl, refl)
spelling-headed ge more = (refl, refl)
spelling-headed lt more = (refl, refl)
spelling-headed le more = (refl, refl)
spelling-headed like more = (refl, refl)
spelling-headed not_like more = (refl, refl)

ws-spelling :
    (op : Op) (more : Text) (i : ℕ)
    → ws (from (spelling op ++ more) i) ≡ from (spelling op ++ more) i
unfolding is_ascii_whitespace spelling bytes
ws-spelling eq more i = ws-shut _ _ i refl
ws-spelling ne more i = ws-shut _ _ i refl
ws-spelling gt more i = ws-shut _ _ i refl
ws-spelling ge more i = ws-shut _ _ i refl
ws-spelling lt more i = ws-shut _ _ i refl
ws-spelling le more i = ws-shut _ _ i refl
ws-spelling like more i = ws-shut _ _ i refl
ws-spelling not_like more i = ws-shut _ _ i refl

-- a right side starts with a quote, an `@` or an `n`
right-headed :
    (op : Op) (r : Operand) (rest : Text)
    → IsRight r op
    → (c : ℕ) × (t : Text) × (right_text r ++ rest ≡ c ∷ t)
      × ((c == b'=') ≡ false)
      × (is_ascii_whitespace c ≡ false)
unfolding right_text token bytes is_ascii_whitespace
right-headed op (val (text s)) rest k = (_, _, refl, refl, refl)
right-headed op auth rest k = (_, _, refl, refl, refl)
right-headed op Operand.null rest k = (_, _, refl, refl, refl)
right-headed op (col f) rest k = absurd k
right-headed op (val (SqlValue.integer n)) rest k = absurd k
right-headed op (val (SqlValue.real n)) rest k = absurd k
right-headed op (val (SqlValue.blob n)) rest k = absurd k
right-headed op (val SqlValue.null) rest k = absurd k

-- a left side starts with no blank and no parenthesis
pub left-headed :
    (l : Operand) (rest : Text)
    → IsLeft l
    → (c : ℕ) × (t : Text) × (left_text l ++ rest ≡ c ∷ t)
      × ((c == b'(') ≡ false)
      × (is_ascii_whitespace c ≡ false)
unfolding left_text token bytes is_ascii_whitespace ident_ok is_word is_ascii_alphanumeric is_digit
left-headed (col []) rest k = cc
left-headed (col (c ∷ f)) rest k =
    let w : is_word c ≡ true = ground (arith, k) in
    (c, f ++ rest, refl, ground (arith, w), ground (arith, w))
left-headed auth rest k = (_, _, refl, refl, refl)
left-headed (val v) rest k = absurd k
left-headed Operand.null rest k = absurd k

not_token : (c : ℕ) (s : Text) → is_word c ≡ true → starts_with (c ∷ s) token ≡ false
unfolding starts_with token bytes is_word is_ascii_alphanumeric is_digit
not_token c s w = let other : (c == b'@') ≡ false = ground (arith, w) in rw other refl

column-Reads :
    (c : ℕ) (f rest : Text) (i : ℕ)
    → ident_ok (c ∷ f) ≡ true
    → is_word c ≡ true
    → take_while is_word rest ≡ []
    → drop_while is_word rest ≡ rest
    → Reads (left_side (from ((c ∷ f) ++ rest) i)) (col (c ∷ f)) rest
unfolding left_side eat skip
column-Reads c f rest i k w t d =
    let all_word = ident_ok-all (c ∷ f) k in
    let taken = word-taken is_word (c ∷ f) rest all_word t in
    let dropped = word-dropped is_word (c ∷ f) rest all_word d in
    let other : eat token (from ((c ∷ f) ++ rest) i) ≡ none =
      rw (not_token c (f ++ rest) w, eat) refl in
    (i + length (c ∷ f), rw (other, left_side, taken, dropped, k) refl)

left_side-left_text :
    (l : Operand) (op : Op) (more : Text) (i : ℕ)
    → IsLeft l
    → Reads (left_side (from (left_text l ++ (spelling op ++ more)) i)) l (spelling op ++ more)
unfolding left_side left_text eat starts_with drop token bytes ident_ok
left_side-left_text auth op more i k = (_, refl)
left_side-left_text (col []) op more i k = cc
left_side-left_text (col (c ∷ f)) op more i k =
    let (t, d) = spelling-headed op more in
    column-Reads c f (spelling op ++ more) i k (ground (arith, k)) t d
left_side-left_text (val v) op more i k = absurd k
left_side-left_text Operand.null op more i k = absurd k

check_right-ok : (op : Op) (r : Operand) (at : ℕ) → IsRight r op → check_right op r at ≡ ok tt
unfolding check_right
check_right-ok op r at k = ground (arith, k)

eat_first-right :
    (op : Op) (r : Operand) (rest : Text) (i : ℕ)
    → IsRight r op
    → eat_first operators (from (spelling op ++ (right_text r ++ rest)) i)
      ≡ some (op, from (right_text r ++ rest) (i + length (spelling op)))
eat_first-right op r rest i k =
    let (c, t, head, other, _) = right-headed op r rest k in
    rw head (eat_first-spelling op c t i other)

ws-right :
    (op : Op) (r : Operand) (rest : Text) (i : ℕ)
    → IsRight r op
    → ws (from (right_text r ++ rest) i) ≡ from (right_text r ++ rest) i
ws-right op r rest i k =
    let (c, t, head, _, plain) = right-headed op r rest k in rw head (ws-shut c t i plain)

pub ws-left :
    (l : Operand) (rest : Text) (i : ℕ)
    → IsLeft l
    → ws (from (left_text l ++ rest) i) ≡ from (left_text l ++ rest) i
ws-left l rest i k =
    let (c, t, head, _, plain) = left-headed l rest k in rw head (ws-shut c t i plain)

-- a printed comparison in front of a stop
pub comparison-print :
    (f64 : F64) (mode : Mode) (l : Operand) (op : Op) (r : Operand) (rest : Text) (i : ℕ)
    → IsLeft l
    → IsRight r op
    → is_stop rest ≡ true
    → Reads
        (comparison f64 mode (from (left_text l ++ (spelling op ++ (right_text r ++ rest))) i))
        (cmp l op r)
        rest
unfolding comparison
comparison-print f64 mode l op r rest i kl kr h =
    let more = right_text r ++ rest in
    let (j, left) = left_side-left_text l op more i kl in
    let start = ws-left l (spelling op ++ more) i kl in
    let spelled = ws-spelling op more j in
    let found = eat_first-right op r rest j kr in
    let (n, right) = value-right_text f64 mode op r rest (j + length (spelling op)) kr h in
    let second = ws-right op r rest (j + length (spelling op)) kr in
    (n, rw (start, left, spelled, found, second, right, check_right-ok op r n kr) refl)
