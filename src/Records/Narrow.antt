-- ===== src/Records/Narrow.antt =====
-- What the WHERE clause of a list in src/records.rs lets through.
use rockbase.Prelude.{
  ℕ, zero, suc, ◌+◌, ◌-◌, ◌*◌, ◌%◌, ◌^◌, ◌≤◌, ◌<◌, ◌≡◌, subst, Option, none, some, List, [], ◌∷◌,
  ◌++◌, append-nil, Text, arith, Result, ok, err, ◌>>=◌, >>=-eq-ok, ok-injective,
}
use rockbase.Env.{F64}
use rockbase.Filter.{Node, filter, rule}
use rockbase.Filter.Scan.{ParseError}
use rockbase.Filter.Parser.{parse}
use rockbase.Filter.Sql.{Fragment, to_sql, compile}
use rockbase.Filter.Where.{Truth, holds, and3, SqlToken, cond, spell, where_value, meaning}
use rockbase.Filter.Where.Clause.{bracketed, Reads, Reads-cond, Reads-appended, Reads-where_value}
use rockbase.Rules.{auth_id, compile_rule, compiled}
use rockbase.Auth.{Who}
use rockbase.Records.Listing.{
  filtered, ruled, ListParams, in_collection, and_where, with_filter, with_rule, list_where, or_one,
  clamped, page_of, per_page_of, offset_of,
}

-- what an expression means, no condition at all where it does not parse
abbrev pub parsed_meaning : (Fragment → Truth) → F64 → Text → Result ParseError Node → Truth
parsed_meaning v f64 id (ok n) = meaning v f64 id n
parsed_meaning v f64 id (err e) = holds

abbrev pub filter_meaning : (Fragment → Truth) → F64 → Option Text → Truth
filter_meaning v f64 none = holds
filter_meaning v f64 (some f) = parsed_meaning v f64 [] (parse f64 f filter)

abbrev pub rule_meaning : (Fragment → Truth) → F64 → Text → Option Text → Truth
rule_meaning v f64 id none = holds
rule_meaning v f64 id (some r) = parsed_meaning v f64 id (parse f64 r rule)

-- The tokens of the clause of a list: the collection, then each of the caller's filter and the stored
-- rule that there is, behind an `AND` and in parentheses of its own.
abbrev pub parsed_tokens : F64 → Text → Result ParseError Node → List SqlToken
parsed_tokens f64 id (ok n) = bracketed f64 id n
parsed_tokens f64 id (err e) = []

abbrev pub filter_tokens : F64 → Option Text → List SqlToken
filter_tokens f64 none = []
filter_tokens f64 (some f) = parsed_tokens f64 [] (parse f64 f filter)

abbrev pub rule_tokens : F64 → Text → Option Text → List SqlToken
rule_tokens f64 id none = []
rule_tokens f64 id (some r) = parsed_tokens f64 id (parse f64 r rule)

abbrev pub list_tokens : F64 → Who → Text → Option Text → Option Text → List SqlToken
list_tokens f64 w name f r =
    cond (in_collection name) ∷ (filter_tokens f64 f ++ rule_tokens f64 (auth_id w) r)

and3-right_unit : (t : Truth) → t ≡ and3 t holds
and3-right_unit t = ground arith

unchanged-Reads :
    (v : Fragment → Truth) (base p : Fragment) (ts : List SqlToken) (t : Truth)
    → base ≡ p
    → Reads v base ts t
    → Reads v p (ts ++ []) (and3 t holds)
unchanged-Reads v base p ts t e r =
    rw append-nil (subst (Reads v p ts) (and3-right_unit t) (subst (λ q. Reads v q ts t) e r))

filtered-Reads :
    (v : Fragment → Truth) (f64 : F64) (base p : Fragment) (ts : List SqlToken) (t : Truth)
    (x : Result ParseError Node)
    → Reads v base ts t
    → filtered base (x >>= λ n. ok (to_sql f64 [] n)) ≡ ok p
    → Reads v p (ts ++ parsed_tokens f64 [] x) (and3 t (parsed_meaning v f64 [] x))
unfolding and_where
filtered-Reads v f64 base p ts t (ok n) r h =
    subst (λ q. Reads v q (ts ++ bracketed f64 [] n) (and3 t (meaning v f64 [] n))) (ok-injective h)
      (Reads-appended v f64 [] n base ts t r)
filtered-Reads v f64 base p ts t (err e) r h = cc

ruled-Reads :
    (v : Fragment → Truth) (f64 : F64) (w : Who) (base p : Fragment) (ts : List SqlToken)
    (t : Truth) (x : Result ParseError Node)
    → Reads v base ts t
    → ruled w base (compiled f64 (auth_id w) x) ≡ ok p
    → Reads v p
        (ts ++ parsed_tokens f64 (auth_id w) x)
        (and3 t (parsed_meaning v f64 (auth_id w) x))
unfolding and_where
ruled-Reads v f64 w base p ts t (ok n) r h =
    subst
      (λ q. Reads v q (ts ++ bracketed f64 (auth_id w) n) (and3 t (meaning v f64 (auth_id w) n)))
      (ok-injective h) (Reads-appended v f64 (auth_id w) n base ts t r)
ruled-Reads v f64 w base p ts t (err e) r h = cc

with_filter-Reads :
    (v : Fragment → Truth) (f64 : F64) (base p : Fragment) (ts : List SqlToken) (t : Truth)
    (f : Option Text)
    → Reads v base ts t
    → with_filter f64 base f ≡ ok p
    → Reads v p (ts ++ filter_tokens f64 f) (and3 t (filter_meaning v f64 f))
unfolding with_filter compile
with_filter-Reads v f64 base p ts t none r h = unchanged-Reads v base p ts t (ok-injective h) r
with_filter-Reads v f64 base p ts t (some f) r h =
    filtered-Reads v f64 base p ts t (parse f64 f filter) r h

with_rule-Reads :
    (v : Fragment → Truth) (f64 : F64) (w : Who) (base p : Fragment) (ts : List SqlToken)
    (t : Truth) (r : Option Text)
    → Reads v base ts t
    → with_rule f64 w base r ≡ ok p
    → Reads v p (ts ++ rule_tokens f64 (auth_id w) r) (and3 t (rule_meaning v f64 (auth_id w) r))
unfolding with_rule compile_rule
with_rule-Reads v f64 w base p ts t none r h = unchanged-Reads v base p ts t (ok-injective h) r
with_rule-Reads v f64 w base p ts t (some x) r h =
    ruled-Reads v f64 w base p ts t (parse f64 x rule) r h

-- The WHERE clause of a list is spelled by one fixed list of tokens, `list_tokens`: the collection,
-- and behind an `AND` and in parentheses each the caller's filter and the stored rule, by their
-- comparisons. Whatever the comparisons are worth, it reads in SQL as the conjunction of the three. So
-- a filter can only narrow what the rule allows, however it is written.
pub list_where-narrows :
    (v : Fragment → Truth) (f64 : F64) (w : Who) (name : Text) (f r : Option Text) (p : Fragment)
    → list_where f64 w name f r ≡ ok p
    → (spell (list_tokens f64 w name f r) ≡ p)
      × (where_value v (list_tokens f64 w name f r)
          ≡ and3
              (and3 (v (in_collection name)) (filter_meaning v f64 f))
              (rule_meaning v f64 (auth_id w) r))
unfolding list_where
list_where-narrows v f64 w name f r p h =
    let base = in_collection name in
    let (q, e, h₁) = >>=-eq-ok (with_filter f64 base f) (λ q. with_rule f64 w q r) h in
    let first = with_filter-Reads v f64 base q _ _ f (Reads-cond v base) e in
    let reads = with_rule-Reads v f64 w q p _ _ r first h₁ in
    (reads.spells, Reads-where_value v p _ _ reads)

clamped-bounds : (o : Option ℕ) → (1 ≤ clamped o) × (clamped o ≤ 500)
clamped-bounds none = omega arith
clamped-bounds (some n) = ground arith

or_one-next : (o : Option ℕ) (n : ℕ) → o ≡ some n → 1 ≤ n → or_one o ≡ n
or_one-next o n h positive = rw h (ground (arith, positive))

offset-next :
    (n m p : ℕ)
    → m ≡ n
    → 1 ≤ n
    → n * p < 2 ^ 32
    → ((or_one (some (n + 1)) - 1) * p) % 2 ^ 32 ≡ ((m - 1) * p) % 2 ^ 32 + p
offset-next zero m p e h small = absurd (omega (arith, h))
offset-next (suc k) m p e h small =
    let first : or_one (some (suc k + 1)) - 1 ≡ suc k = ground arith in
    let second : m - 1 ≡ k = omega (arith, e) in
    let step : suc k * p ≡ k * p + p = omega arith in
    rw (first, second) (omega (arith, step, small))

-- Pages follow one another: between 1 and 500 records to a page, and the next page starts where this
-- one ends, as long as the end of this page is a number of 32 bits.
pub offset_of-next :
    (q : ListParams) (n : ℕ)
    → q.page ≡ some n
    → 1 ≤ n
    → n * per_page_of q < 2 ^ 32
    → (1 ≤ per_page_of q)
      × (per_page_of q ≤ 500)
      × (offset_of (record q { page = some (n + 1) }) ≡ offset_of q + per_page_of q)
unfolding offset_of page_of per_page_of
offset_of-next q n h positive small =
    let (low, high) = clamped-bounds q.per_page in
    (
      low,
      high,
      offset-next n (page_of q) (clamped q.per_page) (or_one-next q.page n h positive) positive
          small,
    )
