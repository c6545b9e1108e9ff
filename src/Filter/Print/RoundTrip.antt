-- ===== src/Filter/Print/RoundTrip.antt =====
-- The parser of src/filter.rs reads back what is printed.
use rockbase.Prelude.{
  ℕ, zero, suc, ◌+◌, ◌*◌, ◌≤◌, ◌≡◌, refl, subst, ◌∙◌, true, false, [], ◌++◌, append_assoc,
  append-nil, Text, bytes, arith, ltb, length, length-append, ok,
}
use rockbase.Env.{F64}
use rockbase.Filter.{Mode, Op, Operand, Node, or, and, cmp, spelling}
use rockbase.Filter.Parser.{max_len, expr, expr_loop, conj, conj_loop, unit, finish, parse}
use rockbase.Filter.Print.{
  unit_text, conj_text, left_text, right_text, is_or, is_compound, wrap, print, larger, extra, nest,
  IsPrinted,
}
use rockbase.Filter.Print.Leaves.{is_stop, from, Reads, ws-stop}
use rockbase.Filter.Print.Grammar.{
  is_bar, bar-stop, conj_loop-end, expr_loop-end, conj_loop-more, expr_loop-more, unit-cmp,
}
use rockbase.Filter.Print.Levels.{Goes, IsRead, conj-unit, expr-conj, unit-expr}

larger-left : (m n : ℕ) → m ≤ larger m n
larger-left m n = ground arith

larger-right : (m n : ℕ) → n ≤ larger m n
larger-right m n = ground arith

module _ (f64 : F64) (mode : Mode) where
  print-nonempty : (n : Node) → 1 ≤ length (print n)
  unfolding print bytes spelling
  print-nonempty (cmp l op r) =
      let size = length-append {0} (left_text l) (spelling op ++ right_text r) in
      let more = length-append {0} (spelling op) (right_text r) in
      let one : 1 ≤ length (spelling op) = ground arith in omega (arith, size, more, one)
  print-nonempty (and a b) =
      omega (arith, length-append {0} (conj_text a) (bytes "&&" ++ unit_text b))
  print-nonempty (or a b) = omega (arith, length-append {0} (print a) (bytes "||" ++ conj_text b))

  IsRead-cmp :
      (l : Operand) (op : Op) (r : Operand) → IsPrinted (cmp l op r) → IsRead f64 mode (cmp l op r)
  unfolding print
  IsRead-cmp l op r (kl, kr) = record {
    as_unit = λ g d i rest h deep q. unit_of g d i rest h q;
    as_conj = λ g d i rest h deep q. conj_of g d i rest h q;
    as_expr = λ g d i rest h deep q.
        expr-conj f64 mode (cmp l op r) (print (cmp l op r)) rest g d i
          (print-nonempty (cmp l op r)) h q
          (λ f e. conj_of f d i rest (bar-stop rest h) (omega (arith, q, e)));
  }
    where
      unit_of :
          (g d i : ℕ) (rest : Text)
          → is_stop rest ≡ true
          → 3 * length (print (cmp l op r)) + 1 ≤ g
          → Reads (unit f64 mode g d (from (print (cmp l op r) ++ rest) i)) (cmp l op r) rest
      unit_of zero d i rest h q = absurd (omega (arith, q))
      unit_of (suc g) d i rest h q =
          rw (append_assoc, append_assoc) (unit-cmp f64 mode g d l op r rest i kl kr h)

      conj_of :
          (g d i : ℕ) (rest : Text)
          → is_stop rest ≡ true
          → 3 * length (print (cmp l op r)) + 2 ≤ g
          → Goes f64 mode
              (λ left m c. conj_loop f64 mode left d m c)
              (conj f64 mode g d (from (print (cmp l op r) ++ rest) i))
              g
              (length (print (cmp l op r)))
              (cmp l op r)
              rest
      conj_of g d i rest h q =
          conj-unit f64 mode (cmp l op r) (print (cmp l op r)) rest g d i
            (print-nonempty (cmp l op r)) (λ f e. unit_of f d i rest h (omega (arith, q, e)))
            (omega (arith, q))

  and_as_conj :
      (a b : Node)
      → IsRead f64 mode a
      → IsRead f64 mode b
      → (g d i : ℕ) (rest : Text) → is_stop rest ≡ true
      → d + nest (and a b) ≤ 32
      → 3 * length (print (and a b)) + 2 ≤ g
      → Goes f64 mode
          (λ left m c. conj_loop f64 mode left d m c)
          (conj f64 mode g d (from (print (and a b) ++ rest) i))
          g
          (length (print (and a b)))
          (and a b)
          rest
  unfolding print bytes nest
  and_as_conj a b ra rb g d i rest h deep q =
      let size = length-append {0} (conj_text a) (bytes "&&" ++ unit_text b) in
      let (j, left, e, fuel) =
        ra.as_conj g d i (bytes "&&" ++ (unit_text b ++ rest)) refl
          (omega
            (arith, deep, larger-left (extra (is_or a) (nest a)) (extra (is_compound b) (nest b))))
          (omega (arith, q, size)) in
      step j left e fuel size
    where
      step :
          (j left : ℕ)
          → conj f64 mode g d (from (conj_text a ++ (bytes "&&" ++ (unit_text b ++ rest))) i)
            ≡ conj_loop f64 mode left d a (from (bytes "&&" ++ (unit_text b ++ rest)) j)
          → g ≤ left + 3 * length (conj_text a)
          → length (conj_text a ++ (bytes "&&" ++ unit_text b))
            ≡ length (conj_text a) + length (bytes "&&" ++ unit_text b)
          → Goes f64 mode
              (λ left m c. conj_loop f64 mode left d m c)
              (conj f64 mode g d (from (print (and a b) ++ rest) i))
              g
              (length (print (and a b)))
              (and a b)
              rest
      step j zero e fuel size = absurd (omega (arith, fuel, q, size))
      step j (suc left) e fuel size =
          let (k, u) =
            rb.as_unit left d (j + 2) rest h
              (omega (
                arith,
                deep,
                larger-right (extra (is_or a) (nest a)) (extra (is_compound b) (nest b)),
              ))
              (omega (arith, fuel, q, size)) in
          let more = conj_loop-more f64 mode left d a b (unit_text b ++ rest) rest j k u in
          (k, left, rw (append_assoc, append_assoc) (e ∙ more), omega (arith, fuel, size))

  or_as_expr :
      (a b : Node)
      → IsRead f64 mode a
      → IsRead f64 mode b
      → (g d i : ℕ) (rest : Text) → is_bar rest ≡ true
      → d + nest (or a b) ≤ 32
      → 3 * length (print (or a b)) + 3 ≤ g
      → Goes f64 mode
          (λ left m c. expr_loop f64 mode left d m c)
          (expr f64 mode g d (from (print (or a b) ++ rest) i))
          g
          (length (print (or a b)))
          (or a b)
          rest
  unfolding print bytes nest
  or_as_expr a b ra rb g d i rest h deep q =
      let size = length-append {0} (print a) (bytes "||" ++ conj_text b) in
      let (j, left, e, fuel) =
        ra.as_expr g d i (bytes "||" ++ (conj_text b ++ rest)) refl
          (omega (arith, deep, larger-left (nest a) (extra (is_or b) (nest b))))
          (omega (arith, q, size)) in
      step j left e fuel size
    where
      step :
          (j left : ℕ)
          → expr f64 mode g d (from (print a ++ (bytes "||" ++ (conj_text b ++ rest))) i)
            ≡ expr_loop f64 mode left d a (from (bytes "||" ++ (conj_text b ++ rest)) j)
          → g ≤ left + 3 * length (print a)
          → length (print a ++ (bytes "||" ++ conj_text b))
            ≡ length (print a) + length (bytes "||" ++ conj_text b)
          → Goes f64 mode
              (λ left m c. expr_loop f64 mode left d m c)
              (expr f64 mode g d (from (print (or a b) ++ rest) i))
              g
              (length (print (or a b)))
              (or a b)
              rest
      step j zero e fuel size = absurd (omega (arith, fuel, q, size))
      step j (suc left) e fuel size =
          let (k, kept, c, spent) =
            rb.as_conj left d (j + 2) rest (bar-stop rest h)
              (omega (arith, deep, larger-right (nest a) (extra (is_or b) (nest b))))
              (omega (arith, fuel, q, size)) in
          let last =
            conj_loop-end f64 mode kept d b rest k h (omega (arith, spent, fuel, q, size)) in
          let more = expr_loop-more f64 mode left d a b (conj_text b ++ rest) rest j k (c ∙ last) in
          (k, left, rw (append_assoc, append_assoc) (e ∙ more), omega (arith, fuel, size))

  IsRead-and : (a b : Node) → IsRead f64 mode a → IsRead f64 mode b → IsRead f64 mode (and a b)
  IsRead-and a b ra rb = record {
    as_unit = λ g d i rest h deep q.
        unit-expr f64 mode (and a b) g d i rest deep q (λ f e k more. and_as_expr f e k more);
    as_conj = and_as_conj a b ra rb;
    as_expr = and_as_expr;
  }
    where
      and_as_expr :
          (g d i : ℕ) (rest : Text)
          → is_bar rest ≡ true
          → d + nest (and a b) ≤ 32
          → 3 * length (print (and a b)) + 3 ≤ g
          → Goes f64 mode
              (λ left m c. expr_loop f64 mode left d m c)
              (expr f64 mode g d (from (print (and a b) ++ rest) i))
              g
              (length (print (and a b)))
              (and a b)
              rest
      and_as_expr g d i rest h deep q =
          expr-conj f64 mode (and a b) (print (and a b)) rest g d i (print-nonempty (and a b)) h q
            (λ f e. and_as_conj a b ra rb f d i rest (bar-stop rest h) deep (omega (arith, q, e)))

  IsRead-or : (a b : Node) → IsRead f64 mode a → IsRead f64 mode b → IsRead f64 mode (or a b)
  IsRead-or a b ra rb = record {
    as_unit = or_as_unit;
    as_conj = λ g d i rest h deep q.
        conj-unit f64 mode (or a b) (wrap true (print (or a b))) rest g d i (omega arith)
          (λ f e. or_as_unit f d i rest h deep (omega (arith, q, e))) (omega (arith, q));
    as_expr = or_as_expr a b ra rb;
  }
    where
      or_as_unit :
          (g d i : ℕ) (rest : Text)
          → is_stop rest ≡ true
          → d + suc (nest (or a b)) ≤ 32
          → 3 * length (wrap true (print (or a b))) + 1 ≤ g
          → Reads (unit f64 mode g d (from (wrap true (print (or a b)) ++ rest) i)) (or a b) rest
      or_as_unit g d i rest h deep q =
          unit-expr f64 mode (or a b) g d i rest deep q
            (λ f e k more. or_as_expr a b ra rb f e k more)

  IsRead-all : (n : Node) → IsPrinted n → IsRead f64 mode n
  IsRead-all (or a b) (ka, kb) = IsRead-or a b (IsRead-all a ka) (IsRead-all b kb)
  IsRead-all (and a b) (ka, kb) = IsRead-and a b (IsRead-all a ka) (IsRead-all b kb)
  IsRead-all (cmp l op r) k = IsRead-cmp l op r k

  -- The parser reads back every expression as it was printed, with the binding of `&&` before `||`,
  -- the grouping of each to the left and the parentheses that ask for another: in either mode, for
  -- comparisons with texts, with the caller's id and with null, where the parentheses are 32 deep at
  -- most and the text has 2048 bytes at most.
  pub parse-print :
      (n : Node)
      → IsPrinted n
      → nest n ≤ 32
      → length (print n) ≤ 2048
      → parse f64 (print n) mode ≡ ok n
  unfolding parse finish
  parse-print n k deep short =
      let (j, left, e, fuel) =
        (IsRead-all n k).as_expr (3 * length (print n) + 3) 0 0 [] refl (omega (arith, deep))
          (omega arith) in
      let last = expr_loop-end f64 mode left 0 n [] j refl (omega (arith, fuel)) in
      let fits : ltb max_len (length (print n)) ≡ false = ground (arith, short) in
      let whole : expr f64 mode (3 * length (print n) + 3) 0 (from (print n) 0)
          ≡ ok (n, from [] j) =
        subst (λ s. expr f64 mode (3 * length (print n) + 3) 0 (from s 0) ≡ ok (n, from [] j))
          (append-nil (print n)) (e ∙ last) in
      rw (fits, whole, ws-stop [] j refl) refl
