-- ===== src/Filter/Where/Splice.antt =====
-- A fragment that src/filter.rs compiles may stand behind an `AND`.
use rockbase.Prelude.{
  ◌≡◌, refl, ap, ◌∙◌, ◌↔◌, true, List, [], ◌∷◌, ◌++◌, append_assoc, append-nil, Text, arith, sym,
}
use rockbase.Json.{Fields}
use rockbase.Env.{F64, Serde}
use rockbase.Filter.{Op, Operand, Node, or, and, cmp}
use rockbase.Filter.Sql.{Fragment, cmp_sql, is_or, to_sql}
use rockbase.Filter.Eval.{eval, eval_cmp}
use rockbase.Filter.Where.{
  Truth, holds, denied, and3, or3, SqlToken, cond, kw_and, kw_or, close_paren, spell, Level, value,
  conjoin, read, where_value, wrapped, node_tokens, fragment_tokens, meaning,
}
use rockbase.Filter.Where.Spelling.{spell-fragment_tokens}

and3_assoc : (p q r : Truth) → and3 (and3 p q) r ≡ and3 p (and3 q r)
and3_assoc p q r = ground arith

or3_assoc : (p q r : Truth) → or3 (or3 p q) r ≡ or3 p (or3 q r)
or3_assoc p q r = ground arith

conjoin-conjoin : (p q : Truth) (l : Level) → conjoin q (conjoin p l) ≡ conjoin (and3 p q) l
conjoin-conjoin p q l = ap (λ t. record l { ands = t }) (and3_assoc l.ands p q)

module _ (v : Fragment → Truth) (f64 : F64) (id : Text) where
  -- How the reader takes an expression: as a conjunct, in parentheses if it is an OR, and bare
  -- at the start of a disjunct.
  record IsRead (n : Node) : Type 0 where
    as_conjunct :
        (l : Level) (up : List Level) (ts : List SqlToken)
        → read v l up (wrapped (is_or n) (node_tokens f64 id n) ++ ts)
          ≡ read v (conjoin (meaning v f64 id n) l) up ts
    as_disjunct :
        (o : Truth) (up : List Level) (ts : List SqlToken)
        → (l : Level) × (read v (record { ors = o; ands = holds }) up (node_tokens f64 id n ++ ts)
            ≡ read v l up ts)
          × (value l ≡ or3 o (meaning v f64 id n))

  IsRead-cmp : (l : Operand) (op : Op) (r : Operand) → IsRead (cmp l op r)
  unfolding wrapped node_tokens read meaning
  IsRead-cmp l op r = record {
    as_conjunct = λ k up ts. refl;
    as_disjunct = λ o up ts. (_, refl, refl);
  }

  and_as_conjunct :
      (a b : Node)
      → IsRead a
      → IsRead b
      → (l : Level) (up : List Level) (ts : List SqlToken)
      → read v l up (node_tokens f64 id (and a b) ++ ts)
        ≡ read v (conjoin (meaning v f64 id (and a b)) l) up ts
  unfolding node_tokens read meaning
  and_as_conjunct a b ra rb l up ts = rw append_assoc (
      ra.as_conjunct l up (kw_and ∷ (wrapped (is_or b) (node_tokens f64 id b) ++ ts))
      ∙ rb.as_conjunct (conjoin (meaning v f64 id a) l) up ts
      ∙ ap (λ k. read v k up ts) (conjoin-conjoin (meaning v f64 id a) (meaning v f64 id b) l))

  IsRead-and : (a b : Node) → IsRead a → IsRead b → IsRead (and a b)
  unfolding wrapped
  IsRead-and a b ra rb = record {
    as_conjunct = and_as_conjunct a b ra rb;
    as_disjunct =
        λ o up ts. (_, and_as_conjunct a b ra rb (record { ors = o; ands = holds }) up ts, refl);
  }

  or_as_disjunct :
      (a b : Node)
      → IsRead a
      → IsRead b
      → (o : Truth) (up : List Level) (ts : List SqlToken)
      → (l : Level) × (read v
            (record { ors = o; ands = holds })
            up
            (node_tokens f64 id (or a b) ++ ts)
          ≡ read v l up ts)
        × (value l ≡ or3 o (meaning v f64 id (or a b)))
  unfolding node_tokens read meaning
  or_as_disjunct a b ra rb o up ts =
      let (l₁, e₁, h₁) = ra.as_disjunct o up (kw_or ∷ (node_tokens f64 id b ++ ts)) in
      let (l₂, e₂, h₂) = rb.as_disjunct (value l₁) up ts in
      (
        l₂,
        rw append_assoc (e₁ ∙ e₂),
        h₂
            ∙ ap (λ t. or3 t (meaning v f64 id b)) h₁
            ∙ or3_assoc o (meaning v f64 id a) (meaning v f64 id b),
      )

  IsRead-or : (a b : Node) → IsRead a → IsRead b → IsRead (or a b)
  unfolding wrapped read
  IsRead-or a b ra rb = record {
    as_conjunct = λ l up ts.
        let (k, e, h) = or_as_disjunct a b ra rb denied (l ∷ up) (close_paren ∷ ts) in
        rw append_assoc (e ∙ ap (λ t. read v (conjoin t l) up ts) h);
    as_disjunct = or_as_disjunct a b ra rb;
  }

  IsRead-all : (n : Node) → IsRead n
  IsRead-all (or a b) = IsRead-or a b (IsRead-all a) (IsRead-all b)
  IsRead-all (and a b) = IsRead-and a b (IsRead-all a) (IsRead-all b)
  IsRead-all (cmp l op r) = IsRead-cmp l op r

-- a compiled expression is read as one conjunct
pub read-fragment_tokens :
    (v : Fragment → Truth) (f64 : F64) (id : Text) (n : Node) (l : Level) (up : List Level)
    (ts : List SqlToken)
    → read v l up (fragment_tokens f64 id n ++ ts) ≡ read v (conjoin (meaning v f64 id n) l) up ts
unfolding fragment_tokens
read-fragment_tokens v f64 id n = (IsRead-all v f64 id n).as_conjunct

-- The SQL text and binds of every compiled expression are those of one fixed list of tokens,
-- `fragment_tokens`, whose conditions are the expression's comparisons. Behind any condition and an
-- `AND`, those tokens read as the conjunction of that condition and the expression's own tree, whatever
-- the conditions are worth: no disjunct of the expression escapes the condition.
pub to_sql-splice :
    (v : Fragment → Truth) (f64 : F64) (id : Text) (n : Node) (g : Fragment)
    → (spell (fragment_tokens f64 id n) ≡ to_sql f64 id n)
      × (where_value v (cond g ∷ kw_and ∷ fragment_tokens f64 id n)
          ≡ and3 (v g) (meaning v f64 id n))
unfolding where_value fragment_tokens
to_sql-splice v f64 id n g = (
  spell-fragment_tokens f64 id n,
  rw (← append-nil (fragment_tokens f64 id n)) ((IsRead-all v f64 id n).as_conjunct _ [] []),
)

-- the SQL backend keeps a row for a comparison exactly when `eval` is true of it
abbrev pub Agrees : (Fragment → Truth) → F64 → Serde → Text → Fields → Node → Type 0
Agrees v f64 serde id m (or a b) = Agrees v f64 serde id m a × Agrees v f64 serde id m b
Agrees v f64 serde id m (and a b) = Agrees v f64 serde id m a × Agrees v f64 serde id m b
Agrees v f64 serde id m (cmp l op r) =
    (v (cmp_sql f64 id l op r) ≡ holds) ↔ (eval_cmp f64 serde id m l op r ≡ true)

meaning-eval :
    (v : Fragment → Truth) (f64 : F64) (serde : Serde) (id : Text) (m : Fields) (n : Node)
    → Agrees v f64 serde id m n
    → (meaning v f64 id n ≡ holds) ↔ (eval f64 serde id m n ≡ true)
unfolding meaning eval
meaning-eval v f64 serde id m (or a b) h =
    ground (arith, meaning-eval v f64 serde id m a h.0, meaning-eval v f64 serde id m b h.1)
meaning-eval v f64 serde id m (and a b) h =
    ground (arith, meaning-eval v f64 serde id m a h.0, meaning-eval v f64 serde id m b h.1)
meaning-eval v f64 serde id m (cmp l op r) h = h

and3-holds_iff : (p q : Truth) → (and3 p q ≡ holds) ↔ ((p ≡ holds) × (q ≡ holds))
and3-holds_iff p q = ground arith

-- Where SQLite and `eval` agree on each comparison of an expression, they agree on the whole: the
-- clause `g AND fragment`, whose fragment is spelled by the expression's own fixed list of tokens, keeps
-- a row exactly when `g` does and `eval` is true of the record, the unknown values of SQL and its
-- precedence of AND over OR included.
pub to_sql-eval :
    (v : Fragment → Truth) (f64 : F64) (serde : Serde) (id : Text) (m : Fields) (n : Node)
    (g : Fragment)
    → Agrees v f64 serde id m n
    → (spell (fragment_tokens f64 id n) ≡ to_sql f64 id n)
      × ((where_value v (cond g ∷ kw_and ∷ fragment_tokens f64 id n) ≡ holds)
          ↔ ((v g ≡ holds) × (eval f64 serde id m n ≡ true)))
to_sql-eval v f64 serde id m n g h =
    let (spelled, valued) = to_sql-splice v f64 id n g in
    let (to, from) = meaning-eval v f64 serde id m n h in
    let (split, join) = and3-holds_iff (v g) (meaning v f64 id n) in
    (
      spelled,
      (λ e. let (p, q) = split (sym valued ∙ e) in (p, to q), λ (p, q). valued ∙ join (p, from q)),
    )
