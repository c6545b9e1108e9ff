-- ===== src/Records/Allowed.antt =====
-- Who may write, by the cores of src/records.rs.
use rockbase.Prelude.{
  ◌≡◌, refl, ◌⊎◌, inl, inr, true, Option, none, some, [], ◌∷◌, Text, Result, ok, err, Option-cases,
}
use rockbase.Json.{Json, Fields, as_object}
use rockbase.Auth.{Who, admin, user, guest}
use rockbase.Filter.{Node, rule}
use rockbase.Filter.Scan.{ParseError}
use rockbase.Filter.Parser.{parse}
use rockbase.Filter.Sql.{Fragment}
use rockbase.Filter.Eval.{eval}
use rockbase.Rules.{auth_id, check_rule, compile_rule, eval_rule_mem, evaluated}
use rockbase.Db.{Db, Col, Host, get_collection}
use rockbase.Records.{Effect}
use rockbase.Records.Gate.{gate_allows, enforce, gate_record, gate_body}
use rockbase.Records.Create.{create_core}
use rockbase.Records.Update.{update_core}
use rockbase.Records.Delete.{delete_core}
use rockbase.Records.Steps.{
  ensure-eq-ok, create_core-Created, update_core-Updated, delete_core-Deleted,
}

-- An admin, a public rule, or a rule with a property.
abbrev pub IsAllowed : Who → Option Text → (Text → Type 0) → Type 0
IsAllowed w r P = (w ≡ admin) ⊎ ((r ≡ some []) ⊎ ((expr : Text) × (r ≡ some expr) × P expr))

-- the rule parses, and is true of a body
abbrev pub HoldsOf : Host → Who → Fields → Text → Type 0
HoldsOf host w m expr =
    (n : Node) × (parse host.f64 expr rule ≡ ok n)
    × (eval host.f64 host.serde (auth_id w) m n ≡ true)

-- the rule compiles, and its statement finds the record
abbrev pub FindsRecord : Host → Db → Text → Text → Who → Text → Type 0
FindsRecord host db name id w expr =
    (p : Fragment) × (compile_rule host.f64 expr (auth_id w) ≡ some p)
    × (gate_allows host db name id p ≡ true)

evaluated-true :
    (host : Host) (w : Who) (m : Fields) (x : Result ParseError Node)
    → evaluated host.f64 host.serde (auth_id w) m x ≡ true
    → (n : Node) × (x ≡ ok n) × (eval host.f64 host.serde (auth_id w) m n ≡ true)
evaluated-true host w m (ok n) h = (n, refl, h)
evaluated-true host w m (err e) h = cc

eval_rule_mem-HoldsOf :
    (host : Host) (w : Who) (m : Fields) (expr : Text)
    → eval_rule_mem host.f64 host.serde expr (auth_id w) m ≡ true
    → HoldsOf host w m expr
unfolding eval_rule_mem
eval_rule_mem-HoldsOf host w m expr h = evaluated-true host w m (parse host.f64 expr rule) h

gate_body-IsAllowed :
    (host : Host) (w : Who) (r : Option Text) (m : Fields)
    → gate_body host w r m ≡ ok tt
    → IsAllowed w r (HoldsOf host w m)
unfolding gate_body check_rule
gate_body-IsAllowed host admin r m h = inl refl
gate_body-IsAllowed host (user col id) none m h = cc
gate_body-IsAllowed host guest none m h = cc
gate_body-IsAllowed host (user col id) (some []) m h = inr (inl refl)
gate_body-IsAllowed host guest (some []) m h = inr (inl refl)
gate_body-IsAllowed host (user col id) (some (c ∷ s)) m h =
    inr (inr (c ∷ s, refl, eval_rule_mem-HoldsOf host (user col id) m (c ∷ s) (ensure-eq-ok _ _ h)))
gate_body-IsAllowed host guest (some (c ∷ s)) m h =
    inr (inr (c ∷ s, refl, eval_rule_mem-HoldsOf host guest m (c ∷ s) (ensure-eq-ok _ _ h)))

enforce-FindsRecord :
    (host : Host) (db : Db) (w : Who) (name id expr : Text)
    → enforce host db w name id (compile_rule host.f64 expr (auth_id w)) ≡ ok tt
    → FindsRecord host db name id w expr
unfolding enforce
enforce-FindsRecord host db w name id expr h =
    elim (Option-cases (compile_rule host.f64 expr (auth_id w))) [
      | inl e ↦ cc (h, e)
      | inr (p, e) ↦ (p, e, ensure-eq-ok (gate_allows host db name id p) _ (rw (e, enforce) at h))
    ]

pub gate_record-IsAllowed :
    (host : Host) (db : Db) (w : Who) (r : Option Text) (name id : Text)
    → gate_record host db w r name id ≡ ok tt
    → IsAllowed w r (FindsRecord host db name id w)
unfolding gate_record check_rule
gate_record-IsAllowed host db admin r name id h = inl refl
gate_record-IsAllowed host db (user col i) none name id h = cc
gate_record-IsAllowed host db guest none name id h = cc
gate_record-IsAllowed host db (user col i) (some []) name id h = inr (inl refl)
gate_record-IsAllowed host db guest (some []) name id h = inr (inl refl)
gate_record-IsAllowed host db (user col i) (some (c ∷ s)) name id h =
    inr (inr (c ∷ s, refl, enforce-FindsRecord host db (user col i) name id (c ∷ s) h))
gate_record-IsAllowed host db guest (some (c ∷ s)) name id h =
    inr (inr (c ∷ s, refl, enforce-FindsRecord host db guest name id (c ∷ s) h))

-- A create succeeds only for an admin, under a public create rule, or where the rule parses and is
-- true of the body with the caller's id in place of the token.
pub create_core-IsAllowed :
    (host : Host) (db : Db) (w : Who) (name : Text) (body : Json) (id ts : Text) (out : Effect × Db)
    → create_core host db w name body id ts ≡ ok out
    → (col : Col) × (m : Fields) × (get_collection host.serde db name ≡ some col)
      × (as_object body ≡ some m)
      × IsAllowed w col.rules.create (HoldsOf host w m)
create_core-IsAllowed host db w name body id ts out h =
    let c = create_core-Created host db w name body id ts out h in
    (
      c.col,
      c.data_map,
      c.found,
      c.object,
      gate_body-IsAllowed host w c.col.rules.create c.data_map c.gated,
    )

-- An update succeeds only for an admin, under a public update rule, or where the rule compiles and
-- its statement finds the record as it was before the update.
pub update_core-IsAllowed :
    (host : Host) (db : Db) (w : Who) (name id : Text) (body : Json) (ts : Text) (out : Effect × Db)
    → update_core host db w name id body ts ≡ ok out
    → (col : Col) × (get_collection host.serde db name ≡ some col)
      × IsAllowed w col.rules.update (FindsRecord host db name id w)
update_core-IsAllowed host db w name id body ts out h =
    let u = update_core-Updated host db w name id body ts out h in
    (u.col, u.found, gate_record-IsAllowed host db w u.col.rules.update name id u.gated)

-- A delete succeeds only for an admin, under a public delete rule, or where the rule compiles and its
-- statement finds the record.
pub delete_core-IsAllowed :
    (host : Host) (db : Db) (w : Who) (name id : Text) (out : Effect × Db)
    → delete_core host db w name id ≡ ok out
    → (col : Col) × (get_collection host.serde db name ≡ some col)
      × IsAllowed w col.rules.delete (FindsRecord host db name id w)
delete_core-IsAllowed host db w name id out h =
    let d = delete_core-Deleted host db w name id out h in
    (d.col, d.found, gate_record-IsAllowed host db w d.col.rules.delete name id d.gated)
