-- ===== src/Collections/Sound.antt =====
-- The rules that src/collections.rs lets into the table, through every request.
use rockbase.Prelude.{
  ◌≡◌, refl, ap, subst, inl, inr, true, Option, none, some, [], Text, bytes, same, ok, ◌>>=◌,
  >>=-eq-ok, ok-injective, Option-cases, Bool-cases, All,
}
use rockbase.Json.{Json, as_str, is_null}
use rockbase.Env.{F64}
use rockbase.Rules.{Rules, own, authed, defaults, compile_rule, compiled}
use rockbase.Rules.Defaults.{parse-own, parse-authed}
use rockbase.Db.{CollectionRow, Host}
use rockbase.Records.{key}
use rockbase.Auth.{Who}
use rockbase.Auth.Tokens.{only_admin}
use rockbase.Collections.{
  rule_ok, read_text, read_value, read_rule, read_rules, RulePatch, apply_rules, chosen, compiles,
}
use rockbase.Collections.Handlers.{
  Catalog, check_collection, row_of, type_or_base, new_collection, new_schema, check_fixed,
  changes_of, collection_patch,
}

-- NULL, the empty rule, or an expression that compiles
abbrev pub IsRule : F64 → Option Text → Type 0
IsRule f64 none = Unit
IsRule f64 (some s) = rule_ok f64 s ≡ true

abbrev pub IsSoundRow : F64 → CollectionRow → Type 0
IsSoundRow f64 c =
    IsRule f64 c.rules.list
    × IsRule f64 c.rules.view
    × IsRule f64 c.rules.create
    × IsRule f64 c.rules.update
    × IsRule f64 c.rules.delete

abbrev pub IsSound : F64 → Catalog → Type 0
IsSound f64 s = All (IsSoundRow f64) s.db.collections

abbrev pub IsRead : F64 → Option (Option Text) → Type 0
IsRead f64 none = Unit
IsRead f64 (some r) = IsRule f64 r

read_text-IsRead :
    (f64 : F64) (k : Text) (v : Json) (o : Option (Option Text))
    → read_text f64 k v ≡ ok o
    → IsRead f64 o
unfolding read_text
read_text-IsRead f64 k v o h = elim (Option-cases (as_str v)) [
  | inl e ↦ cc (h, e)
  | inr (s, e) ↦ elim (Bool-cases (rule_ok f64 s)) [
    | inl sound ↦ let kept : some (some s) ≡ o = cc (h, e, sound) in subst (IsRead f64) kept sound
    | inr bad ↦ cc (h, e, bad)
  ]
]

read_value-IsRead :
    (f64 : F64) (k : Text) (v : Json) (o : Option (Option Text))
    → read_value f64 k v ≡ ok o
    → IsRead f64 o
unfolding read_value
read_value-IsRead f64 k v o h = elim (Bool-cases (is_null v)) [
  | inl e ↦ subst (IsRead f64) (ok-injective (rw (e, read_value) at h)) tt
  | inr e ↦ read_text-IsRead f64 k v o (rw (e, read_value) at h)
]

read_rule-IsRead :
    (f64 : F64) (body : Json) (k : Text) (o : Option (Option Text))
    → read_rule f64 body k ≡ ok o
    → IsRead f64 o
unfolding read_rule
read_rule-IsRead f64 body k o h = elim (Option-cases (key k body)) [
  | inl e ↦ subst (IsRead f64) (ok-injective (rw (e, read_rule) at h)) tt
  | inr (v, e) ↦ read_value-IsRead f64 k v o (rw (e, read_rule) at h)
]

chosen-IsRule :
    (f64 : F64) (o : Option (Option Text)) (r : Option Text)
    → IsRead f64 o
    → IsRule f64 r
    → IsRule f64 (chosen o r)
chosen-IsRule f64 none r h k = k
chosen-IsRule f64 (some x) r h k = h

abbrev pub IsReadPatch : F64 → RulePatch → Type 0
IsReadPatch f64 p =
    IsRead f64 p.list
    × IsRead f64 p.view
    × IsRead f64 p.create
    × IsRead f64 p.update
    × IsRead f64 p.delete

read_rules-IsReadPatch :
    (f64 : F64) (body : Json) (p : RulePatch) → read_rules f64 body ≡ ok p → IsReadPatch f64 p
unfolding read_rules
read_rules-IsReadPatch f64 body p h =
    let (l, e₁, h₁) = >>=-eq-ok _ _ h in
    let (v, e₂, h₂) = >>=-eq-ok _ _ h₁ in
    let (c, e₃, h₃) = >>=-eq-ok _ _ h₂ in
    let (u, e₄, h₄) = >>=-eq-ok _ _ h₃ in
    let (d, e₅, h₅) = >>=-eq-ok _ _ h₄ in
    subst (IsReadPatch f64) (ok-injective h₅) (
      read_rule-IsRead f64 body (bytes "listRule") l e₁,
      read_rule-IsRead f64 body (bytes "viewRule") v e₂,
      read_rule-IsRead f64 body (bytes "createRule") c e₃,
      read_rule-IsRead f64 body (bytes "updateRule") u e₄,
      read_rule-IsRead f64 body (bytes "deleteRule") d e₅,
    )

abbrev pub IsSoundRules : F64 → Rules → Type 0
IsSoundRules f64 r =
    IsRule f64 r.list
    × IsRule f64 r.view
    × IsRule f64 r.create
    × IsRule f64 r.update
    × IsRule f64 r.delete

pub apply_rules-IsSoundRules :
    (f64 : F64) (p : RulePatch) (r : Rules)
    → IsReadPatch f64 p
    → IsSoundRules f64 r
    → IsSoundRules f64 (apply_rules p r)
unfolding apply_rules
apply_rules-IsSoundRules f64 p r (a, b, c, d, e) (v, w, x, y, z) = (
  chosen-IsRule f64 p.list r.list a v,
  chosen-IsRule f64 p.view r.view b w,
  chosen-IsRule f64 p.create r.create c x,
  chosen-IsRule f64 p.update r.update d y,
  chosen-IsRule f64 p.delete r.delete e z,
)

own-IsRule : (f64 : F64) → IsRule f64 (some own)
unfolding rule_ok compile_rule own bytes
own-IsRule f64 = ap (λ r. compiles (compiled f64 [] r)) (parse-own f64)

authed-IsRule : (f64 : F64) → IsRule f64 (some authed)
unfolding rule_ok compile_rule authed bytes
authed-IsRule f64 = ap (λ r. compiles (compiled f64 [] r)) (parse-authed f64)

defaults-IsSoundRules : (f64 : F64) (ty : Text) → IsSoundRules f64 (defaults ty)
unfolding defaults rule_ok
defaults-IsSoundRules f64 ty = elim (Bool-cases (same ty (bytes "auth"))) [
  | inl e ↦ rw (e, defaults) (tt, tt, refl, own-IsRule f64, own-IsRule f64)
  | inr e ↦ rw (e, defaults) (refl, refl, authed-IsRule f64, authed-IsRule f64, authed-IsRule f64)
]

row_of-IsSoundRow :
    (host : Host) (body : Json) (c : CollectionRow)
    → row_of host body ≡ ok c
    → IsSoundRow host.f64 c
unfolding row_of
row_of-IsSoundRow host body c h =
    let (p, e, h₁) = >>=-eq-ok (read_rules host.f64 body) _ h in
    subst (IsSoundRow host.f64) (ok-injective h₁) (
      apply_rules-IsSoundRules host.f64 p _ (read_rules-IsReadPatch host.f64 body p e)
        (defaults-IsSoundRules host.f64 (type_or_base body)))

pub new_collection-IsSoundRow :
    (host : Host) (w : Who) (body : Json) (c : CollectionRow)
    → new_collection host w body ≡ ok c
    → IsSoundRow host.f64 c
unfolding new_collection
new_collection-IsSoundRow host w body c h =
    let (_, _, h₁) =
      >>=-eq-ok (only_admin w) (λ _. check_collection body >>= λ _. row_of host body) h in
    let (_, _, h₂) = >>=-eq-ok (check_collection body) (λ _. row_of host body) h₁ in
    row_of-IsSoundRow host body c h₂

pub collection_patch-IsReadPatch :
    (host : Host) (w : Who) (body : Json) (p : RulePatch) (schema : Option Text)
    → collection_patch host w body ≡ ok (p, schema)
    → IsReadPatch host.f64 p
unfolding collection_patch changes_of
collection_patch-IsReadPatch host w body p schema h =
    let (_, _, h₁) =
      >>=-eq-ok (only_admin w) (λ _. check_fixed body >>= λ _. changes_of host body) h in
    let (_, _, h₂) = >>=-eq-ok (check_fixed body) (λ _. changes_of host body) h₁ in
    let (q, e, h₃) =
      >>=-eq-ok (read_rules host.f64 body)
        (λ q. new_schema host.serde (key (bytes "schema") body) >>= λ s. ok (q, s)) h₂ in
    let (_, _, h₄) =
      >>=-eq-ok (new_schema host.serde (key (bytes "schema") body)) (λ s. ok (q, s)) h₃ in
    subst (IsReadPatch host.f64) (ap (λ (x : RulePatch × Option Text). x.0) (ok-injective h₄))
      (read_rules-IsReadPatch host.f64 body q e)
