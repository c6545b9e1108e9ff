-- ===== src/Filter/Where/Clause.antt =====
-- A clause that grows by conditions in parentheses, as src/records.rs makes one for a list.
use rockbase.Prelude.{
  ◌≡◌, refl, ap, ap₂, sym, ◌∙◌, List, [], ◌∷◌, ◌++◌, append_assoc, append-nil, Text, bytes,
}
use rockbase.Env.{F64}
use rockbase.Filter.{Node}
use rockbase.Filter.Sql.{Fragment, to_sql}
use rockbase.Filter.Where.{
  Truth, and3, SqlToken, cond, kw_and, open_paren, close_paren, spell, fresh, conjoin, read,
  where_value, fragment_tokens, meaning,
}
use rockbase.Filter.Where.Spelling.{spell-append, spell-fragment_tokens}
use rockbase.Filter.Where.Splice.{read-fragment_tokens}

-- Tokens that spell a fragment and that the reader takes for one truth value, whatever comes behind.
pub record Reads (v : Fragment → Truth) (p : Fragment) (ts : List SqlToken) (t : Truth)
    : Type 0 where
  pub spells : spell ts ≡ p
  pub reads : (us : List SqlToken) → read v fresh [] (ts ++ us) ≡ read v (conjoin t fresh) [] us

pub Reads-cond : (v : Fragment → Truth) (p : Fragment) → Reads v p (cond p ∷ []) (v p)
unfolding read spell
Reads-cond v (s, b) = record { spells = simp append-nil; reads = λ us. refl }

abbrev pub appended : Fragment → Fragment → Fragment
appended (sql, binds) (frag, more) = (sql ++ (bytes " AND (" ++ (frag ++ bytes ")")), binds ++ more)

abbrev joined : Fragment → Fragment → Fragment
joined p q = (p.0 ++ (bytes " AND (" ++ q.0), p.1 ++ q.1)

spell-bracketed :
    (f64 : F64) (id : Text) (n : Node)
    → spell (fragment_tokens f64 id n ++ close_paren ∷ [])
      ≡ ((to_sql f64 id n).0 ++ bytes ")", (to_sql f64 id n).1 ++ [])
unfolding spell bytes
spell-bracketed f64 id n =
    spell-append (fragment_tokens f64 id n) (close_paren ∷ [])
    ∙ ap (λ (q : Fragment). (q.0 ++ bytes ")", q.1 ++ [])) (spell-fragment_tokens f64 id n)

-- the tokens of one more condition, in parentheses
abbrev pub bracketed : F64 → Text → Node → List SqlToken
bracketed f64 id n = kw_and ∷ open_paren ∷ (fragment_tokens f64 id n ++ close_paren ∷ [])

-- one more condition, a compiled expression in parentheses
pub Reads-appended :
    (v : Fragment → Truth) (f64 : F64) (id : Text) (n : Node) (p : Fragment) (ts : List SqlToken)
    (t : Truth)
    → Reads v p ts t
    → Reads v
        (appended p (to_sql f64 id n))
        (ts ++ bracketed f64 id n)
        (and3 t (meaning v f64 id n))
unfolding read spell bytes
Reads-appended v f64 id n p ts t r = record {
  spells =
      spell-append ts (bracketed f64 id n)
      ∙ ap₂ joined r.spells (spell-bracketed f64 id n)
      ∙ ap (λ b. (p.0 ++ (bytes " AND (" ++ ((to_sql f64 id n).0 ++ bytes ")")), p.1 ++ b))
          (append-nil (to_sql f64 id n).1);
  reads = λ us.
      let more = kw_and ∷ open_paren ∷ (fragment_tokens f64 id n ++ close_paren ∷ us) in
      rw (append_assoc, append_assoc)
        (r.reads more
          ∙ read-fragment_tokens v f64 id n fresh (conjoin t fresh ∷ []) (close_paren ∷ us));
}

pub Reads-where_value :
    (v : Fragment → Truth) (p : Fragment) (ts : List SqlToken) (t : Truth)
    → Reads v p ts t
    → where_value v ts ≡ t
unfolding where_value read
Reads-where_value v p ts t r = ap (read v fresh []) (sym (append-nil ts)) ∙ r.reads []
