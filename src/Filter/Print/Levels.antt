-- ===== src/Filter/Print/Levels.antt =====
-- What the parser of src/filter.rs makes of a printed text, on each level of the grammar.
use rockbase.Prelude.{
  ℕ, zero, suc, ◌+◌, ◌*◌, ◌≤◌, ◌≡◌, refl, ◌∙◌, true, [], ◌∷◌, ◌++◌, append_assoc, Text, arith,
  length, length-append,
}
use rockbase.Env.{F64}
use rockbase.Filter.{Mode, Node}
use rockbase.Filter.Scan.{Cursor, Scan}
use rockbase.Filter.Parser.{expr, expr_loop, conj, conj_loop, unit}
use rockbase.Filter.Print.{unit_text, conj_text, is_or, is_compound, wrap, print, extra, nest}
use rockbase.Filter.Print.Leaves.{is_stop, from, Reads}
use rockbase.Filter.Print.Grammar.{is_bar, conj_loop-end, expr_loop-end, unit-nested}

module _ (f64 : F64) (mode : Mode) where
  -- a text that a loop takes for one more node, with the fuel that is left
  abbrev pub Goes : (ℕ → Node → Cursor → Scan Node) → Scan Node → ℕ → ℕ → Node → Text → Type 0
  Goes loop scan g spent n rest =
      (j : ℕ) × (left : ℕ) × (scan ≡ loop left n (from rest j)) × (g ≤ left + 3 * spent)

  pub record IsRead (n : Node) : Type 0 where
    pub as_unit :
        (g d i : ℕ) (rest : Text)
        → is_stop rest ≡ true
        → d + extra (is_compound n) (nest n) ≤ 32
        → 3 * length (unit_text n) + 1 ≤ g
        → Reads (unit f64 mode g d (from (unit_text n ++ rest) i)) n rest
    pub as_conj :
        (g d i : ℕ) (rest : Text)
        → is_stop rest ≡ true
        → d + extra (is_or n) (nest n) ≤ 32
        → 3 * length (conj_text n) + 2 ≤ g
        → Goes
            (λ left m c. conj_loop f64 mode left d m c)
            (conj f64 mode g d (from (conj_text n ++ rest) i))
            g
            (length (conj_text n))
            n
            rest
    pub as_expr :
        (g d i : ℕ) (rest : Text)
        → is_bar rest ≡ true
        → d + nest n ≤ 32
        → 3 * length (print n) + 3 ≤ g
        → Goes
            (λ left m c. expr_loop f64 mode left d m c)
            (expr f64 mode g d (from (print n ++ rest) i))
            g
            (length (print n))
            n
            rest

  -- a unit is a conjunction of one
  pub conj-unit :
      (n : Node) (s rest : Text) (g d i : ℕ)
      → 1 ≤ length s
      → ((f : ℕ) → g ≡ suc f → Reads (unit f64 mode f d (from (s ++ rest) i)) n rest)
      → 1 ≤ g
      → Goes
          (λ left m c. conj_loop f64 mode left d m c)
          (conj f64 mode g d (from (s ++ rest) i))
          g
          (length s)
          n
          rest
  unfolding conj
  conj-unit n s rest zero d i p u q = absurd (omega (arith, q))
  conj-unit n s rest (suc f) d i p u q =
      let (j, e) = u f refl in (j, f, rw (e, conj) refl, omega (arith, p))

  -- a conjunction is a disjunction of one
  pub expr-conj :
      (n : Node) (s rest : Text) (g d i : ℕ)
      → 1 ≤ length s
      → is_bar rest ≡ true
      → 3 * length s + 3 ≤ g
      → ((f : ℕ)
          → g ≡ suc f
          → Goes
              (λ left m c. conj_loop f64 mode left d m c)
              (conj f64 mode f d (from (s ++ rest) i))
              f
              (length s)
              n
              rest)
      → Goes
          (λ left m c. expr_loop f64 mode left d m c)
          (expr f64 mode g d (from (s ++ rest) i))
          g
          (length s)
          n
          rest
  unfolding expr
  expr-conj n s rest zero d i p b q u = absurd (omega (arith, q))
  expr-conj n s rest (suc f) d i p b q u =
      let (j, left, e, fuel) = u f refl in
      let last = conj_loop-end f64 mode left d n rest j b (omega (arith, fuel, q)) in
      (j, f, rw (e, last, expr) refl, omega (arith, p))

  -- parentheses
  pub unit-expr :
      (n : Node) (g d i : ℕ) (rest : Text)
      → d + suc (nest n) ≤ 32
      → 3 * length (wrap true (print n)) + 1 ≤ g
      → ((f e : ℕ) (k : ℕ) (more : Text)
          → is_bar more ≡ true
          → e + nest n ≤ 32
          → 3 * length (print n) + 3 ≤ f
          → Goes
              (λ left m c. expr_loop f64 mode left e m c)
              (expr f64 mode f e (from (print n ++ more) k))
              f
              (length (print n))
              n
              more)
      → Reads (unit f64 mode g d (from (wrap true (print n) ++ rest) i)) n rest
  unit-expr n zero d i rest deep q u = absurd (omega (arith, q))
  unit-expr n (suc f) d i rest deep q u =
      let size = length-append {0} (print n) (b')' ∷ []) in
      let (j, left, e, fuel) =
        u f (d + 1) (i + 1) (b')' ∷ rest) refl (omega (arith, deep)) (omega (arith, q, size)) in
      let last =
        expr_loop-end f64 mode left (d + 1) n (b')' ∷ rest) j refl (omega (arith, fuel, q, size)) in
      rw append_assoc (
        unit-nested f64 mode f d n (print n ++ b')' ∷ rest) rest i j (omega (arith, deep))
          (e ∙ last))
