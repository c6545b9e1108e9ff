-- ===== src/Filter/Where/Spelling.antt =====
-- The tokens of a compiled expression spell the SQL that src/filter.rs emits.
use rockbase.Prelude.{
  ◌≡◌, refl, ◌∙◌, Bool, true, false, List, [], ◌∷◌, ◌++◌, append_assoc, append-nil, Text,
}
use rockbase.Env.{F64}
use rockbase.Filter.{Node, or, and, cmp}
use rockbase.Filter.Sql.{Fragment, paren, is_or, node_sql, to_sql}
use rockbase.Filter.Where.{
  SqlToken, cond, kw_and, kw_or, open_paren, close_paren, spell, wrapped, node_tokens,
  fragment_tokens,
}

-- text and binds, one behind the other
abbrev pub join : Fragment → Fragment → Fragment
join p q = (p.0 ++ q.0, p.1 ++ q.1)

pub spell-append : (ts us : List SqlToken) → spell (ts ++ us) ≡ join (spell ts) (spell us)
unfolding spell
spell-append [] us = refl
spell-append (cond (s, b) ∷ ts) us = simp (spell-append ts us, append_assoc)
spell-append (kw_and ∷ ts) us = simp (spell-append ts us, append_assoc)
spell-append (kw_or ∷ ts) us = simp (spell-append ts us, append_assoc)
spell-append (open_paren ∷ ts) us = simp (spell-append ts us, append_assoc)
spell-append (close_paren ∷ ts) us = simp (spell-append ts us, append_assoc)

spell-wrapped :
    (b : Bool) (ts : List SqlToken) → spell (wrapped b ts) ≡ (paren b (spell ts).0, (spell ts).1)
unfolding spell wrapped paren
spell-wrapped true ts = simp (spell-append, append-nil)
spell-wrapped false ts = refl

spell-node_tokens :
    (f64 : F64) (id : Text) (n : Node) → spell (node_tokens f64 id n) ≡ node_sql f64 id n
unfolding spell node_tokens node_sql
spell-node_tokens f64 id (or a b) =
    spell-append (node_tokens f64 id a) (kw_or ∷ node_tokens f64 id b)
    ∙ cc (spell-node_tokens f64 id a, spell-node_tokens f64 id b)
spell-node_tokens f64 id (and a b) =
    let left = wrapped (is_or a) (node_tokens f64 id a) in
    let right = wrapped (is_or b) (node_tokens f64 id b) in
    spell-append left (kw_and ∷ right)
    ∙ cc (
      spell-wrapped (is_or a) (node_tokens f64 id a),
      spell-wrapped (is_or b) (node_tokens f64 id b),
      spell-node_tokens f64 id a,
      spell-node_tokens f64 id b,
    )
spell-node_tokens f64 id (cmp l op r) = simp append-nil

pub spell-fragment_tokens :
    (f64 : F64) (id : Text) (n : Node) → spell (fragment_tokens f64 id n) ≡ to_sql f64 id n
unfolding fragment_tokens to_sql
spell-fragment_tokens f64 id n = simp (spell-wrapped, spell-node_tokens)
