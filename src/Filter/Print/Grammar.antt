-- ===== src/Filter/Print/Grammar.antt =====
-- How the grammar of src/filter.rs reads a printed expression.
use rockbase.Prelude.{
  ℕ, zero, suc, ◌+◌, ◌≤◌, ◌≡◌, refl, ap, Bool, true, false, ◌||◌, none, some, [], ◌∷◌, ◌++◌, Text,
  bytes, arith, ◌==◌, leb, starts_with, length, ok,
}
use rockbase.Ident.{is_ascii_whitespace}
use rockbase.Env.{F64}
use rockbase.Filter.{Mode, Op, Operand, Node, or, and, cmp, spelling}
use rockbase.Filter.Scan.{Cursor, ws, eat, drop}
use rockbase.Filter.Parser.{max_depth, close, expr, expr_loop, conj, conj_loop, unit}
use rockbase.Filter.Print.{left_text, right_text, IsLeft, IsRight}
use rockbase.Filter.Print.Leaves.{is_stop, from, Reads, ws-shut, ws-stop}
use rockbase.Filter.Print.Comparison.{left-headed, ws-left, comparison-print}

-- what may stand behind a conjunction, and behind an expression
abbrev pub is_bar : Text → Bool
is_bar [] = true
is_bar (c ∷ s) = c == b')' || c == b'|'

abbrev pub is_close : Text → Bool
is_close [] = true
is_close (c ∷ s) = c == b')'

pub bar-stop : (rest : Text) → is_bar rest ≡ true → is_stop rest ≡ true
bar-stop [] h = refl
bar-stop (c ∷ s) h = ground (arith, h)

pub close-bar : (rest : Text) → is_close rest ≡ true → is_bar rest ≡ true
close-bar [] h = refl
close-bar (c ∷ s) h = ground (arith, h)

not_eaten :
    (tok rest : Text) (i : ℕ)
    → ws (from rest i) ≡ from rest i
    → starts_with rest tok ≡ false
    → eat tok (ws (from rest i)) ≡ none
unfolding eat
not_eaten tok rest i here h = rw (here, h, eat) refl

eaten :
    (tok rest : Text) (i : ℕ)
    → ws (from (tok ++ rest) i) ≡ from (tok ++ rest) i
    → starts_with (tok ++ rest) tok ≡ true
    → drop (length tok) (tok ++ rest) ≡ rest
    → eat tok (ws (from (tok ++ rest) i)) ≡ some (from rest (i + length tok))
unfolding eat
eaten tok rest i here h d = rw (here, h, d, eat) refl

no_and : (rest : Text) → is_bar rest ≡ true → starts_with rest (bytes "&&") ≡ false
unfolding starts_with bytes
no_and [] h = refl
no_and (c ∷ s) h = let other : (c == b'&') ≡ false = ground (arith, h) in rw other refl

no_or : (rest : Text) → is_close rest ≡ true → starts_with rest (bytes "||") ≡ false
unfolding starts_with bytes
no_or [] h = refl
no_or (c ∷ s) h = let other : (c == b'|') ≡ false = ground (arith, h) in rw other refl

no_paren : (l : Operand) (t : Text) → IsLeft l → starts_with (left_text l ++ t) (bytes "(") ≡ false
unfolding starts_with bytes
no_paren l t k = let (c, s, head, other, _) = left-headed l t k in rw (head, other) refl

module _ (f64 : F64) (mode : Mode) where
  pub conj_loop-end :
      (g d : ℕ) (n : Node) (rest : Text) (i : ℕ)
      → is_bar rest ≡ true
      → 1 ≤ g
      → conj_loop f64 mode g d n (from rest i) ≡ ok (n, from rest i)
  unfolding conj_loop bytes
  conj_loop-end zero d n rest i h p = absurd (omega (arith, p))
  conj_loop-end (suc g) d n rest i h p =
      let here = ws-stop rest i (bar-stop rest h) in
      rw (not_eaten (bytes "&&") rest i here (no_and rest h), conj_loop)
        (ap (λ (c : Cursor). ok (n, c)) here)

  pub expr_loop-end :
      (g d : ℕ) (n : Node) (rest : Text) (i : ℕ)
      → is_close rest ≡ true
      → 1 ≤ g
      → expr_loop f64 mode g d n (from rest i) ≡ ok (n, from rest i)
  unfolding expr_loop bytes
  expr_loop-end zero d n rest i h p = absurd (omega (arith, p))
  expr_loop-end (suc g) d n rest i h p =
      let here = ws-stop rest i (bar-stop rest (close-bar rest h)) in
      rw (not_eaten (bytes "||") rest i here (no_or rest h), expr_loop)
        (ap (λ (c : Cursor). ok (n, c)) here)

  -- one more conjunct, one more disjunct
  pub conj_loop-more :
      (g d : ℕ) (n m : Node) (s rest : Text) (i j : ℕ)
      → unit f64 mode g d (from s (i + 2)) ≡ ok (m, from rest j)
      → conj_loop f64 mode (suc g) d n (from (b'&' ∷ b'&' ∷ s) i)
        ≡ conj_loop f64 mode g d (and n m) (from rest j)
  unfolding conj_loop bytes starts_with drop
  conj_loop-more g d n m s rest i j u =
      let here = ws-stop (bytes "&&" ++ s) i refl in
      rw (eaten (bytes "&&") s i here refl refl, conj_loop, u) refl

  pub expr_loop-more :
      (g d : ℕ) (n m : Node) (s rest : Text) (i j : ℕ)
      → conj f64 mode g d (from s (i + 2)) ≡ ok (m, from rest j)
      → expr_loop f64 mode (suc g) d n (from (b'|' ∷ b'|' ∷ s) i)
        ≡ expr_loop f64 mode g d (or n m) (from rest j)
  unfolding expr_loop bytes starts_with drop
  expr_loop-more g d n m s rest i j u =
      let here = ws-stop (bytes "||" ++ s) i refl in
      rw (eaten (bytes "||") s i here refl refl, expr_loop, u) refl

  -- a nested expression, and a comparison
  pub unit-nested :
      (g d : ℕ) (n : Node) (s rest : Text) (i j : ℕ)
      → d + 1 ≤ 32
      → expr f64 mode g (d + 1) (from s (i + 1)) ≡ ok (n, from (b')' ∷ rest) j)
      → Reads (unit f64 mode (suc g) d (from (b'(' ∷ s) i)) n rest
  unfolding unit bytes starts_with drop close is_ascii_whitespace
  unit-nested g d n s rest i j deep e =
      let here = ws-shut b'(' s i refl in
      let shallow : leb max_depth d ≡ false = ground (arith, deep) in
      let last = eaten (bytes ")") rest j (ws-shut b')' rest j refl) refl refl in
      (j + 1, rw (eaten (bytes "(") s i here refl refl, unit, shallow, e, last, close) refl)

  pub unit-cmp :
      (g d : ℕ) (l : Operand) (op : Op) (r : Operand) (rest : Text) (i : ℕ)
      → IsLeft l
      → IsRight r op
      → is_stop rest ≡ true
      → Reads
          (unit f64 mode
            (suc g)
            d
            (from (left_text l ++ (spelling op ++ (right_text r ++ rest))) i))
          (cmp l op r)
          rest
  unfolding unit bytes
  unit-cmp g d l op r rest i kl kr h =
      let t = spelling op ++ (right_text r ++ rest) in
      let here = ws-left l t i kl in
      let (j, e) = comparison-print f64 mode l op r rest i kl kr h in
      (
        j,
        rw (not_eaten (bytes "(") (left_text l ++ t) i here (no_paren l t kl), unit, here, e) refl,
      )
