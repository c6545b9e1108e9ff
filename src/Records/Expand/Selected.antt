-- ===== src/Records/Expand/Selected.antt =====
-- The rows that the statement of `expand_records` in src/records.rs yields, against the gate of a view.
use rockbase.Prelude.{
  ◌≡◌, refl, sym, ◌∙◌, subst, inl, inr, true, Option, none, some, List, [], ◌∷◌, ◌++◌, Text, bytes,
  All, ok, arith, Option-cases, Result-cases,
}
use rockbase.Json.{Json}
use rockbase.Env.{F64}
use rockbase.Filter.{Node, rule}
use rockbase.Filter.Parser.{parse}
use rockbase.Filter.Sql.{Fragment, to_sql}
use rockbase.Filter.Where.{Truth, holds, and3, spell, where_value, meaning}
use rockbase.Rules.{auth_id, check_rule, compile_rule}
use rockbase.Auth.{Who}
use rockbase.Db.{Db, Row, Col, Host, find_row, get_collection}
use rockbase.Records.{record_json}
use rockbase.Records.Gate.{fetch_record, gate_allows, enforce, gate_record}
use rockbase.Records.Expand.{target_gate, related_query, selected}
use rockbase.Records.View.{record_view, record_view-found}
use rockbase.Records.Expand.Statements.{
  is_in, has_id, compiled_node, among, query_tokens, gate_tokens, select, exists,
  spell-query_tokens, spell-gate_tokens, worth, query-value, gate-value,
}

-- How SQLite runs the two statements on records, with `v` for what a condition is worth on a row: a
-- row that the SELECT yields stands in the table and makes the WHERE clause hold; the EXISTS finds a
-- row that does; the condition on an id holds of the row with that id, and the one on a
-- collection of its rows only.
pub record Runs (host : Host) (db : Db) (v : Row → Fragment → Truth) : Type 0 where
  pub selects :
      (id target : Text) (ids : List Text) (n : Option Node) (rows : List Row)
      → host.sqlite.select_rows
          (select ++ (spell (query_tokens host.f64 id target ids n)).0)
          (spell (query_tokens host.f64 id target ids n)).1
          db.records
        ≡ some rows
      → All
          (λ r.
            (find_row r.collection r.id db.records ≡ some r)
            × (where_value (v r) (query_tokens host.f64 id target ids n) ≡ holds))
          rows
  pub finds :
      (id : Text) (r : Row) (n : Node)
      → find_row r.collection r.id db.records ≡ some r
      → where_value (v r) (gate_tokens host.f64 id r n) ≡ holds
      → host.sqlite.select_exists
          (exists ++ ((spell (gate_tokens host.f64 id r n)).0 ++ bytes ")"))
          (spell (gate_tokens host.f64 id r n)).1
          db.records
        ≡ some true
  pub of_collection : (r : Row) (target : Text) → v r (is_in target) ≡ holds → r.collection ≡ target
  pub at_id : (r : Row) → v r (has_id r.id) ≡ holds

and3-holds : (a b c : Truth) → and3 (and3 a b) c ≡ holds → (a ≡ holds) × (c ≡ holds)
and3-holds a b c h = ground (arith, h)

-- a gate that compiles is the tree of its rule
compile_rule-node :
    (f64 : F64) (r id : Text) (p : Fragment)
    → compile_rule f64 r id ≡ some p
    → (n : Node) × (p ≡ to_sql f64 id n)
unfolding compile_rule
compile_rule-node f64 r id p h = elim (Result-cases (parse f64 r rule)) [
  | inl (n, e) ↦ (n, cc (h, e))
  | inr (x, e) ↦ cc (h, e)
]

All-map :
    {A : Type 0} {P Q : A → Type 0} → ((x : A) → P x → Q x) → (xs : List A) → All P xs → All Q xs
All-map f [] h = tt
All-map f (x ∷ xs) (h, hs) = (f x h, All-map f xs hs)

-- what a record of a collection shows to whoever may read it
abbrev pub row_json : Host → Text → Row → Json
row_json host target r = record_json host.serde target r.id r.data_text r.created r.updated

-- a row of the collection whose GET answers with it
abbrev pub IsSeen : Host → Db → Who → Text → Row → Type 0
IsSeen host db w target r = record_view host db w target r.id none ≡ ok (row_json host target r)

module _ (host : Host) (db : Db) (v : Row → Fragment → Truth) (runs : Runs host db v) where
  -- the gate of a view lets through what the statement of an expansion yields
  gate_allows-worth :
      (id : Text) (r : Row) (n : Node)
      → find_row r.collection r.id db.records ≡ some r
      → v r (is_in r.collection) ≡ holds
      → meaning (v r) host.f64 id n ≡ holds
      → gate_allows host db r.collection r.id (to_sql host.f64 id n) ≡ true
  unfolding gate_allows
  gate_allows-worth id r n found inside h =
      let (sql, binds) = spell-gate_tokens host.f64 id r n in
      let value = gate-value (v r) host.f64 id r n in
      let there : where_value (v r) (gate_tokens host.f64 id r n) ≡ holds =
        rw (value, inside, runs.at_id r, h) refl in
      rw (sql, binds, runs.finds id r n found there) refl

  gate_record-worth :
      (w : Who) (r : Option Text) (gate : Option Fragment)
      → target_gate host.f64 w r ≡ some gate
      → (n : Option Node) × (gate ≡ compiled_node host.f64 (auth_id w) n)
        × ((row : Row)
            → find_row row.collection row.id db.records ≡ some row
            → v row (is_in row.collection) ≡ holds
            → worth (v row) host.f64 (auth_id w) n ≡ holds
            → gate_record host db w r row.collection row.id ≡ ok tt)
  unfolding target_gate gate_record enforce
  gate_record-worth w r gate h = elim (Result-cases (check_rule w r)) [
    | inr (x, e) ↦ cc (h, e)
    | inl (none, e) ↦ (none, cc (h, e), λ row found inside good. rw (e, gate_record) refl)
    | inl (some expr, e) ↦ elim (Option-cases (compile_rule host.f64 expr (auth_id w))) [
      | inl c ↦ cc (h, e, c)
      | inr (p, c) ↦
          let (n, q) = compile_rule-node host.f64 expr (auth_id w) p c in
          (
            some n,
            cc (h, e, c, q),
            λ row found inside good.
                rw
                  (
                    e,
                    c,
                    q,
                    gate_allows-worth (auth_id w) row n found inside good,
                    gate_record,
                    enforce,
                  )
                  refl,
          )
    ]
  ]

  pub record_view-selected :
      (w : Who) (col : Col) (target : Text) (ids : List Text) (gate : Option Fragment)
      (rows : List Row)
      → get_collection host.serde db target ≡ some col
      → target_gate host.f64 w col.rules.view ≡ some gate
      → selected host db (related_query target ids gate) ≡ some rows
      → All (IsSeen host db w target) rows
  unfolding fetch_record
  record_view-selected w col target ids gate rows c g h =
      let (n, e, lets) = gate_record-worth w col.rules.view gate g in
      let tokens = query_tokens host.f64 (auth_id w) target ids n in
      let sql : related_query target ids gate ≡ (select ++ (spell tokens).0, (spell tokens).1) =
        rw e (spell-query_tokens host.f64 (auth_id w) target ids n) in
      All-map
        (λ r (found, good).
          let (inside, met) =
            and3-holds (v r (is_in target)) (v r (among ids)) _
              (sym (query-value (v r) host.f64 (auth_id w) target ids n) ∙ good) in
          let here = runs.of_collection r target inside in
          let gated = lets r found (subst (λ t. v r (is_in t) ≡ holds) (sym here) inside) met in
          let c' : get_collection host.serde db r.collection ≡ some col = cc (c, here) in
          subst (λ t. IsSeen host db w t r) here
            (record_view-found host db w r.collection r.id col r c' found gated))
        rows (runs.selects (auth_id w) target ids n rows (cc (h, sql)))
