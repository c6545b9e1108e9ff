-- ===== src/Filter/Parser/Operands.antt =====
-- The parser of src/filter.rs below the grammar: operands, operators and comparisons.
use rockbase.Prelude.{
  ℕ, ◌+◌, ◌≤◌, ◌<◌, ◌≡◌, ap, ◌≢◌, Option, none, some, List, [], ◌∷◌, ◌++◌, Text, bytes, arith, ◌==◌,
  same, length, Option-cases, inl, inr, Ensures, returns, fails, Ensures-if, Ensures-bind,
  Ensures-weaken,
}
use rockbase.Prelude.Int.{ℤ}
use rockbase.Ident.{ident_ok, is_word}
use rockbase.Env.{F64}
use rockbase.Filter.{
  Mode, filter, rule, Op, eq, ne, gt, ge, lt, le, like, not_like, spelling, Operand, col,
}
use rockbase.Filter.Scan.{ParseError, out_of_fuel, Cursor, Scan, take_while, ws, eat, parse_i64}
use rockbase.Filter.Scan.Lengths.{length-skip, length-ws, length-skip_name, length-eat}
use rockbase.Filter.Parser.{
  token, quoted, is_bare, number_or_word, bareword, value, operators, eat_first, left_side,
  check_right, comparison,
}
use rockbase.Filter.Checked.{IsLeft, IsRight, Takes, IsChecked}

-- The run kept within its fuel; a value is good, and leaves at most (or less than) `n` bytes.
abbrev pub InFuel : ParseError → Type 0
InFuel e = e ≢ out_of_fuel

abbrev pub AtMost : {A : Type 0} → (A → Type 0) → ℕ → Scan A → Type 0
AtMost Good n r = Ensures (λ p. Good p.0 × (length p.1.rest ≤ n)) InFuel r

abbrev pub Below : {A : Type 0} → (A → Type 0) → ℕ → Scan A → Type 0
Below Good n r = Ensures (λ p. Good p.0 × (length p.1.rest < n)) InFuel r

quoted-AtMost :
    (mode : Mode) (i : ℕ) (s acc : Text) → AtMost (IsRight mode) (length s) (quoted i s acc)
unfolding quoted
quoted-AtMost mode i [] acc = fails cc
quoted-AtMost mode i (c ∷ []) acc =
    Ensures-if (c == b'\'') (λ _. returns (tt, omega arith)) (λ _. fails cc)
quoted-AtMost mode i (c ∷ d ∷ s) acc =
    Ensures-if (c == b'\'')
      (λ _.
        Ensures-if (d == b'\'')
          (λ _.
            Ensures-weaken (quoted-AtMost mode (i + 2) s (acc ++ b'\'' ∷ []))
              (λ p h. (h.0, omega (arith, h.1))))
          (λ _. returns (tt, omega arith)))
      (λ _.
        Ensures-weaken (quoted-AtMost mode (i + 1) (d ∷ s) (acc ++ c ∷ []))
          (λ p h. (h.0, omega (arith, h.1))))

number_or_word-IsRight :
    (a : Option ℤ) (b : Option ℕ) (mode : Mode) (start : ℕ) (w : Text)
    → Ensures (IsRight mode) InFuel (number_or_word a b mode start w)
unfolding number_or_word
number_or_word-IsRight (some n) b mode start w = returns tt
number_or_word-IsRight none (some f) mode start w = returns tt
number_or_word-IsRight none none filter start w = returns tt
number_or_word-IsRight none none rule start w =
    Ensures-if (ident_ok w) (λ h. returns h) (λ _. fails cc)

bareword-IsRight :
    (f64 : F64) (mode : Mode) (start : ℕ) (w : Text)
    → Ensures (IsRight mode) InFuel (bareword f64 mode start w)
unfolding bareword
bareword-IsRight f64 mode start [] = fails cc
bareword-IsRight f64 mode start (b ∷ w) =
    let word : Text = b ∷ w in
    Ensures-if (same word token) (λ _. returns tt)
      (λ _.
        Ensures-if (same word (bytes "true")) (λ _. returns tt)
          (λ _.
            Ensures-if (same word (bytes "false")) (λ _. returns tt)
              (λ _.
                Ensures-if (same word (bytes "null")) (λ _. returns tt)
                  (λ _. number_or_word-IsRight (parse_i64 word) (f64.parse word) mode start word))))

value-AtMost :
    (f64 : F64) (mode : Mode) (c : Cursor)
    → AtMost (IsRight mode) (length c.rest) (value f64 mode c)
unfolding value
value-AtMost f64 mode c = elim (Option-cases (eat (bytes "'") c)) [
  | inl e ↦
      rw (e, value)
        (Ensures-bind (bareword-IsRight f64 mode c.at (take_while is_bare c.rest))
          (λ o h. returns (h, length-skip is_bare c)))
  | inr (c₁, e) ↦
      rw (e, value)
        (Ensures-weaken (quoted-AtMost mode c₁.at c₁.rest [])
          (λ p h. (h.0, omega (arith, h.1, length-eat (bytes "'") c c₁ e))))
]

eat_first-AtMost :
    (os : List Op) (c : Cursor) (op : Op) (c₁ : Cursor)
    → eat_first os c ≡ some (op, c₁)
    → length c₁.rest ≤ length c.rest
unfolding eat_first
eat_first-AtMost [] c op c₁ h = cc
eat_first-AtMost (o ∷ os) c op c₁ h = elim (Option-cases (eat (spelling o) c)) [
  | inl e ↦ eat_first-AtMost os c op c₁ (rw (e, eat_first) at h)
  | inr (c₂, e) ↦
      let same_end : c₂ ≡ c₁ = ground arith in
      omega (arith, length-eat (spelling o) c c₂ e, ap (λ (x : Cursor). length x.rest) same_end)
]

left_side-Below : (c : Cursor) → Below IsLeft (length c.rest) (left_side c)
unfolding left_side
left_side-Below c = elim (Option-cases (eat token c)) [
  | inl e ↦
      rw (e, left_side)
        (Ensures-if (ident_ok (take_while is_word c.rest))
          (λ h. returns (h, length-skip_name is_word c h)) (λ _. fails cc))
  | inr (c₁, e) ↦ rw (e, left_side) (returns (tt, omega (arith, length-eat token c c₁ e)))
]

check_right-Takes :
    (op : Op) (r : Operand) (at : ℕ) → Ensures (λ _. Takes op r) InFuel (check_right op r at)
unfolding check_right
check_right-Takes eq Operand.null at = returns tt
check_right-Takes ne Operand.null at = returns tt
check_right-Takes gt Operand.null at = fails cc
check_right-Takes ge Operand.null at = fails cc
check_right-Takes lt Operand.null at = fails cc
check_right-Takes le Operand.null at = fails cc
check_right-Takes like Operand.null at = fails cc
check_right-Takes not_like Operand.null at = fails cc
check_right-Takes like (col f) at = fails cc
check_right-Takes not_like (col f) at = fails cc
check_right-Takes _ _ at = returns tt

pub comparison-Below :
    (f64 : F64) (mode : Mode) (c : Cursor)
    → Below (IsChecked mode) (length c.rest) (comparison f64 mode c)
unfolding comparison
comparison-Below f64 mode c = Ensures-bind (left_side-Below (ws c)) λ (lhs, c₁) h₁.
    let after_left : length c₁.rest < length c.rest = omega (arith, h₁.1, length-ws c) in
    elim (Option-cases (eat_first operators (ws c₁))) [
      | inl e ↦ rw e (fails cc)
      | inr ((op, c₃), e) ↦ rw e (
          Ensures-bind (value-AtMost f64 mode (ws c₃)) λ (rhs, c₄) h₂.
            Ensures-bind (check_right-Takes op rhs c₄.at) λ _ h₃. returns (
              (h₁.0, h₂.0, h₃),
              omega (
                arith,
                after_left,
                h₂.1,
                length-ws c₃,
                length-ws c₁,
                eat_first-AtMost operators (ws c₁) op c₃ e,
              ),
            ))
    ]
