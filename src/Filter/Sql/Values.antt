-- ===== src/Filter/Sql/Values.antt =====
-- src/filter.rs: values never reach the text of a fragment.
use rockbase.Prelude.{◌≡◌, refl, ap, ap₂, ◌∙◌, Text, ◌++◌, bytes}
use rockbase.Env.{F64}
use rockbase.Filter.{Op, spelling, like, not_like, Operand, col, auth, val, Node, or, and, cmp}
use rockbase.Filter.Sql.{
  column_sql, null_word, like_word, operand_sql, null_sql, like_sql, compare_sql, cmp_sql, paren,
  is_or, node_sql, to_sql,
}

-- Two operands that write the same: one column, a null each, or a bound value each.
abbrev pub SameOperand : Operand → Operand → Type 0
SameOperand (col f) (col g) = f ≡ g
SameOperand Operand.null Operand.null = Unit
SameOperand auth auth = Unit
SameOperand auth (val w) = Unit
SameOperand (val v) auth = Unit
SameOperand (val v) (val w) = Unit
SameOperand _ _ = ⊥

-- Expressions that differ in bound values alone.
abbrev pub SameShape : Node → Node → Type 0
SameShape (or a b) (or c d) = SameShape a c × SameShape b d
SameShape (and a b) (and c d) = SameShape a c × SameShape b d
SameShape (cmp l op r) (cmp l' op' r') = SameOperand l l' × (op ≡ op') × SameOperand r r'
SameShape _ _ = ⊥

operand_sql-SameOperand :
    (i j : Text) (o o' : Operand) → SameOperand o o' → (operand_sql i o).0 ≡ (operand_sql j o').0
unfolding operand_sql
operand_sql-SameOperand i j (col f) (col g) h = ap column_sql h
operand_sql-SameOperand i j (col f) auth h = absurd h
operand_sql-SameOperand i j (col f) (val w) h = absurd h
operand_sql-SameOperand i j (col f) Operand.null h = absurd h
operand_sql-SameOperand i j auth (col g) h = absurd h
operand_sql-SameOperand i j auth Operand.null h = absurd h
operand_sql-SameOperand i j (val v) (col g) h = absurd h
operand_sql-SameOperand i j (val v) Operand.null h = absurd h
operand_sql-SameOperand i j Operand.null (col g) h = absurd h
operand_sql-SameOperand i j Operand.null auth h = absurd h
operand_sql-SameOperand i j Operand.null (val w) h = absurd h
operand_sql-SameOperand i j _ _ h = refl

null_sql-congr :
    (i j : Text) (op : Op) (l l' : Operand)
    → SameOperand l l'
    → (null_sql i op l).0 ≡ (null_sql j op l').0
unfolding null_sql
null_sql-congr i j op l l' h =
    ap (λ s. bytes "(" ++ (s ++ (bytes " IS " ++ (null_word op ++ bytes "NULL)"))))
      (operand_sql-SameOperand i j l l' h)

like_sql-congr :
    (f64 : F64) (i j : Text) (op : Op) (l l' r r' : Operand)
    → SameOperand l l'
    → (like_sql f64 i op l r).0 ≡ (like_sql f64 j op l' r').0
unfolding like_sql
like_sql-congr f64 i j op l l' r r' h =
    ap (λ s. bytes "(" ++ (s ++ (bytes " " ++ (like_word op ++ bytes "LIKE ? ESCAPE '\\')"))))
      (operand_sql-SameOperand i j l l' h)

compare_sql-congr :
    (i j : Text) (op : Op) (l l' r r' : Operand)
    → SameOperand l l'
    → SameOperand r r'
    → (compare_sql i op l r).0 ≡ (compare_sql j op l' r').0
unfolding compare_sql
compare_sql-congr i j op l l' r r' h k =
    ap₂ (λ s t. bytes "(" ++ (s ++ (bytes " " ++ (spelling op ++ (bytes " " ++ (t ++ bytes ")"))))))
      (operand_sql-SameOperand i j l l' h) (operand_sql-SameOperand i j r r' k)

cmp_sql-congr :
    (f64 : F64) (i j : Text) (l l' : Operand) (op : Op) (r r' : Operand)
    → SameOperand l l'
    → SameOperand r r'
    → (cmp_sql f64 i l op r).0 ≡ (cmp_sql f64 j l' op r').0
unfolding cmp_sql
cmp_sql-congr f64 i j l l' op Operand.null Operand.null h k = null_sql-congr i j op l l' h
cmp_sql-congr f64 i j l l' op Operand.null (col g) h k = absurd k
cmp_sql-congr f64 i j l l' op Operand.null auth h k = absurd k
cmp_sql-congr f64 i j l l' op Operand.null (val v) h k = absurd k
cmp_sql-congr f64 i j l l' op (col g) Operand.null h k = absurd k
cmp_sql-congr f64 i j l l' op auth Operand.null h k = absurd k
cmp_sql-congr f64 i j l l' op (val v) Operand.null h k = absurd k
cmp_sql-congr f64 i j l l' like r r' h k = like_sql-congr f64 i j like l l' r r' h
cmp_sql-congr f64 i j l l' not_like r r' h k = like_sql-congr f64 i j not_like l l' r r' h
cmp_sql-congr f64 i j l l' op r r' h k = compare_sql-congr i j op l l' r r' h k

is_or-SameShape : (n m : Node) → SameShape n m → is_or n ≡ is_or m
is_or-SameShape (or a b) (or c d) h = refl
is_or-SameShape (or a b) (and c d) h = absurd h
is_or-SameShape (or a b) (cmp l op r) h = absurd h
is_or-SameShape (and a b) (or c d) h = absurd h
is_or-SameShape (cmp l op r) (or c d) h = absurd h
is_or-SameShape _ _ h = refl

node_sql-SameShape :
    (f64 : F64) (i j : Text) (n m : Node)
    → SameShape n m
    → (node_sql f64 i n).0 ≡ (node_sql f64 j m).0
unfolding node_sql
node_sql-SameShape f64 i j (or a b) (or c d) h =
    ap₂ (λ s t. s ++ (bytes " OR " ++ t)) (node_sql-SameShape f64 i j a c h.0)
      (node_sql-SameShape f64 i j b d h.1)
node_sql-SameShape f64 i j (or a b) (and c d) h = absurd h
node_sql-SameShape f64 i j (or a b) (cmp l op r) h = absurd h
node_sql-SameShape f64 i j (and a b) (or c d) h = absurd h
node_sql-SameShape f64 i j (and a b) (and c d) h = cc (
  node_sql-SameShape f64 i j a c h.0,
  node_sql-SameShape f64 i j b d h.1,
  is_or-SameShape a c h.0,
  is_or-SameShape b d h.1,
)
node_sql-SameShape f64 i j (and a b) (cmp l op r) h = absurd h
node_sql-SameShape f64 i j (cmp l op r) (or c d) h = absurd h
node_sql-SameShape f64 i j (cmp l op r) (and c d) h = absurd h
node_sql-SameShape f64 i j (cmp l op r) (cmp l' op' r') h =
    cmp_sql-congr f64 i j l l' op r r' h.0 h.2 ∙ ap (λ o. (cmp_sql f64 j l' o r').0) h.1

-- Two expressions that differ in bound values alone, for two callers, compile to one SQL text: no
-- literal and no caller's id reaches the text.
pub to_sql-SameShape :
    (f64 : F64) (i j : Text) (n m : Node) → SameShape n m → (to_sql f64 i n).0 ≡ (to_sql f64 j m).0
unfolding to_sql
to_sql-SameShape f64 i j n m h =
    ap₂ paren (is_or-SameShape n m h) (node_sql-SameShape f64 i j n m h)
