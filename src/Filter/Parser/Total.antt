-- ===== src/Filter/Parser/Total.antt =====
-- The parser of src/filter.rs always answers, and what it accepts is checked.
use rockbase.Prelude.{
  ℕ, zero, suc, ◌+◌, ◌*◌, ◌≤◌, ◌≡◌, refl, ◌≢◌, Text, bytes, arith, leb, ltb, length, Option-cases,
  inl, inr, ok, err, Ensures, returns, fails, Ensures-ok, Ensures-err, Ensures-if, Ensures-bind,
  Ensures-weaken,
}
use rockbase.Env.{F64}
use rockbase.Filter.{Mode, Node, or, and}
use rockbase.Filter.Scan.{out_of_fuel, Cursor, ws, eat}
use rockbase.Filter.Scan.Lengths.{length-ws, length-eat}
use rockbase.Filter.Parser.{
  max_len, max_depth, close, expr, expr_loop, conj, conj_loop, unit, finish, parse,
}
use rockbase.Filter.Parser.Operands.{InFuel, AtMost, Below, comparison-Below}
use rockbase.Filter.Checked.{IsChecked}

close-Below :
    (mode : Mode) (n : Node) (c : Cursor)
    → IsChecked mode n
    → Below (IsChecked mode) (suc (length c.rest)) (close n c)
unfolding close
close-Below mode n c h = elim (Option-cases (eat (bytes ")") c)) [
  | inl e ↦ rw (e, close) (fails cc)
  | inr (c₁, e) ↦ rw (e, close) (returns (h, omega (arith, length-eat (bytes ")") c c₁ e)))
]

-- Each call spends a unit of fuel, and three calls stand between two bytes of input.
mutual
  unfolding expr bytes

  expr-Below :
      (f64 : F64) (mode : Mode) (f d : ℕ) (c : Cursor)
      → 3 * length c.rest + 3 ≤ f
      → Below (IsChecked mode) (length c.rest) (expr f64 mode f d c)
  expr-Below f64 mode zero d c h = absurd (omega arith)
  expr-Below f64 mode (suc f) d c h =
      Ensures-bind (conj-Below f64 mode f d c (omega arith)) λ (n, c₁) h₁.
        Ensures-weaken (expr_loop-AtMost f64 mode f d n c₁ h₁.0 (omega (arith, h₁.1)))
          λ p h₂. (h₂.0, omega (arith, h₁.1, h₂.1))

  expr_loop-AtMost :
      (f64 : F64) (mode : Mode) (f d : ℕ) (n : Node) (c : Cursor)
      → IsChecked mode n
      → 3 * length c.rest + 1 ≤ f
      → AtMost (IsChecked mode) (length c.rest) (expr_loop f64 mode f d n c)
  expr_loop-AtMost f64 mode zero d n c k h = absurd (omega arith)
  expr_loop-AtMost f64 mode (suc f) d n c k h = elim (Option-cases (eat (bytes "||") (ws c))) [
    | inl e ↦ rw (e, expr_loop) (returns (k, length-ws c))
    | inr (c₁, e) ↦
        let shorter : length c₁.rest + 2 ≤ length c.rest =
          omega (arith, length-eat (bytes "||") (ws c) c₁ e, length-ws c) in
        rw (e, expr_loop)
          (Ensures-bind (conj-Below f64 mode f d c₁ (omega (arith, shorter))) λ (m, c₂) h₁.
            Ensures-weaken
              (expr_loop-AtMost f64 mode f d (or n m) c₂ (k, h₁.0) (omega (arith, h₁.1, shorter)))
              λ p h₂. (h₂.0, omega (arith, h₁.1, h₂.1, shorter)))
  ]

  conj-Below :
      (f64 : F64) (mode : Mode) (f d : ℕ) (c : Cursor)
      → 3 * length c.rest + 2 ≤ f
      → Below (IsChecked mode) (length c.rest) (conj f64 mode f d c)
  conj-Below f64 mode zero d c h = absurd (omega arith)
  conj-Below f64 mode (suc f) d c h =
      Ensures-bind (unit-Below f64 mode f d c (omega arith)) λ (n, c₁) h₁.
        Ensures-weaken (conj_loop-AtMost f64 mode f d n c₁ h₁.0 (omega (arith, h₁.1)))
          λ p h₂. (h₂.0, omega (arith, h₁.1, h₂.1))

  conj_loop-AtMost :
      (f64 : F64) (mode : Mode) (f d : ℕ) (n : Node) (c : Cursor)
      → IsChecked mode n
      → 3 * length c.rest + 1 ≤ f
      → AtMost (IsChecked mode) (length c.rest) (conj_loop f64 mode f d n c)
  conj_loop-AtMost f64 mode zero d n c k h = absurd (omega arith)
  conj_loop-AtMost f64 mode (suc f) d n c k h = elim (Option-cases (eat (bytes "&&") (ws c))) [
    | inl e ↦ rw (e, conj_loop) (returns (k, length-ws c))
    | inr (c₁, e) ↦
        let shorter : length c₁.rest + 2 ≤ length c.rest =
          omega (arith, length-eat (bytes "&&") (ws c) c₁ e, length-ws c) in
        rw (e, conj_loop)
          (Ensures-bind (unit-Below f64 mode f d c₁ (omega (arith, shorter))) λ (m, c₂) h₁.
            Ensures-weaken
              (conj_loop-AtMost f64 mode f d (and n m) c₂ (k, h₁.0) (omega (arith, h₁.1, shorter)))
              λ p h₂. (h₂.0, omega (arith, h₁.1, h₂.1, shorter)))
  ]

  unit-Below :
      (f64 : F64) (mode : Mode) (f d : ℕ) (c : Cursor)
      → 3 * length c.rest + 1 ≤ f
      → Below (IsChecked mode) (length c.rest) (unit f64 mode f d c)
  unit-Below f64 mode zero d c h = absurd (omega arith)
  unit-Below f64 mode (suc f) d c h = elim (Option-cases (eat (bytes "(") (ws c))) [
    | inl e ↦
        rw (e, unit)
          (Ensures-weaken (comparison-Below f64 mode (ws c))
            λ p h₁. (h₁.0, omega (arith, h₁.1, length-ws c)))
    | inr (c₁, e) ↦
        let shorter : length c₁.rest + 1 ≤ length c.rest =
          omega (arith, length-eat (bytes "(") (ws c) c₁ e, length-ws c) in
        rw (e, unit)
          (Ensures-if (leb max_depth d) (λ _. fails cc)
            λ _.
              Ensures-bind (expr-Below f64 mode f (d + 1) c₁ (omega (arith, shorter))) λ (n, c₂) h₁.
                Ensures-weaken (close-Below mode n (ws c₂) h₁.0)
                  λ p h₂. (h₂.0, omega (arith, h₁.1, h₂.1, length-ws c₂, shorter)))
  ]

finish-IsChecked :
    (mode : Mode) (n : Node) (c : Cursor)
    → IsChecked mode n
    → Ensures (IsChecked mode) InFuel (finish n c)
unfolding finish
finish-IsChecked mode n c h = Ensures-if (ltb 0 (length c.rest)) (λ _. fails cc) (λ _. returns h)

parse-Ensures :
    (f64 : F64) (s : Text) (mode : Mode) → Ensures (IsChecked mode) InFuel (parse f64 s mode)
unfolding parse
parse-Ensures f64 s mode =
    Ensures-if (ltb max_len (length s)) (λ _. fails cc)
      λ _.
        Ensures-bind
          (expr-Below f64 mode (3 * length s + 3) 0 (record { rest = s; at = 0 }) (omega arith))
          λ (n, c) h. finish-IsChecked mode n (ws c) h.0

-- The parser answers every text in either mode: the fuel that `parse` hands to the grammar, three
-- units for each byte and three more, never runs out.
pub parse-ne-out_of_fuel : (f64 : F64) (s : Text) (mode : Mode) → parse f64 s mode ≢ err out_of_fuel
parse-ne-out_of_fuel f64 s mode e = Ensures-err (parse-Ensures f64 s mode) e refl

-- In every comparison of an accepted expression the left side is the caller's id or a column with
-- an identifier for its name; the right side is a literal, null, the caller's id or, in a rule and
-- never in a filter, such a column; null stands with `=` and `!=` alone, and a pattern is no column.
pub parse-IsChecked :
    (f64 : F64) (s : Text) (mode : Mode) (n : Node) → parse f64 s mode ≡ ok n → IsChecked mode n
parse-IsChecked f64 s mode n e = Ensures-ok (parse-Ensures f64 s mode) e
