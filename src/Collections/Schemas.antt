-- ===== src/Collections/Schemas.antt =====
-- The schemas that src/collections.rs accepts, and what src/records.rs then lets a client write.
use rockbase.Prelude.{
  ◌≡◌, refl, ap, sym, ◌∙◌, subst, inl, inr, Bool, true, false, ◌&&◌, ◌||◌, not, none, List, [], ◌∷◌,
  Text, bytes, same, same_iff, arith, ok, ok_or, ensure, ◌>>=◌, >>=-eq-ok, ok-injective,
  Option-cases, Bool-cases, All,
}
use rockbase.Ident.{ident_ok}
use rockbase.Json.{Json, Fields, get, as_array}
use rockbase.Records.{key, str_of, str_or_empty, reserved_fields, epoch_field, verified_field}
use rockbase.Records.Gate.{target_of}
use rockbase.Records.Steps.{ensure-eq-ok}
use rockbase.Records.Validate.{
  is_named, field_def, is_pseudo, is_defined, check_value, check_known, check_required, validate,
}
use rockbase.Collections.{
  is_one_of, field_types, name_of, type_text, check_field, check_fields, schema_ok,
}

-- A field of an accepted schema.
pub record IsField (f : Json) : Type 0 where
  pub named : ident_ok (name_of f) ≡ true
  pub typed : is_one_of field_types (type_text f) ≡ true
  pub targets : (not (same (type_text f) (bytes "relation")) || ident_ok (target_of f)) ≡ true
  pub free : is_one_of reserved_fields (name_of f) ≡ false

check_field-IsField : (f : Json) → check_field f ≡ ok tt → IsField f
unfolding check_field
check_field-IsField f h =
    let named : (ident_ok (name_of f) && is_one_of field_types (type_text f)) ≡ true =
      ground arith in
    let rest : ((not (same (type_text f) (bytes "relation")) || ident_ok (target_of f)) ≡ true)
        × (not (is_one_of reserved_fields (name_of f)) ≡ true) =
      ground arith in
    record {
      named = ground (arith, named);
      typed = ground (arith, named);
      targets = rest.0;
      free = ground (arith, rest);
    }

check_fields-All : (fs : List Json) → check_fields fs ≡ ok tt → All IsField fs
unfolding check_fields
check_fields-All [] h = tt
check_fields-All (f ∷ fs) h =
    let (_, e, h₁) = >>=-eq-ok (check_field f) (λ _. check_fields fs) h in
    (check_field-IsField f e, check_fields-All fs h₁)

is_named-name_of : (k : Text) (f : Json) → is_named k f ≡ true → name_of f ≡ k
unfolding is_named name_of str_or_empty
is_named-name_of k f h = elim (Option-cases (str_of (key (bytes "name") f))) [
  | inl e ↦ cc (h, e)
  | inr (n, e) ↦
      let named : same n k ≡ true = rw (e, is_named) at h in
      rw (e, name_of, str_or_empty) ((same_iff n k).0 named)
]

-- a reserved name has no definition in an accepted schema
field_def-reserved :
    (fs : List Json) (k : Text)
    → All IsField fs
    → is_one_of reserved_fields k ≡ true
    → field_def fs k ≡ none
unfolding field_def is_named name_of str_or_empty
field_def-reserved [] k h r = refl
field_def-reserved (f ∷ fs) k (h, hs) r = elim (Bool-cases (is_named k f)) [
  | inl e ↦
      let clash : is_one_of reserved_fields (name_of f) ≡ true =
        ap (is_one_of reserved_fields) (is_named-name_of k f e) ∙ r in
      cc (clash, h.free)
  | inr e ↦ rw (e, field_def) (field_def-reserved fs k hs r)
]

-- a reserved name is no name that is not
reserved-ne :
    (k p : Text)
    → is_one_of reserved_fields k ≡ true
    → is_one_of reserved_fields p ≡ false
    → same k p ≡ false
reserved-ne k p h n = elim (Bool-cases (same k p)) [
  | inl e ↦
      let clash : is_one_of reserved_fields p ≡ true =
        ap (is_one_of reserved_fields) (sym ((same_iff k p).0 e)) ∙ h in
      cc (clash, n)
  | inr e ↦ e
]

is_pseudo-reserved : (k : Text) → is_one_of reserved_fields k ≡ true → is_pseudo k ≡ false
unfolding is_one_of reserved_fields epoch_field verified_field is_pseudo bytes same
is_pseudo-reserved k h =
    rw
      (
        reserved-ne k (bytes "email") h refl,
        reserved-ne k (bytes "password") h refl,
        reserved-ne k (bytes "oldPassword") h refl,
        reserved-ne k (bytes "revokeTokens") h refl,
        is_pseudo,
      )
      refl

check_known-reserved :
    (fs : List Json) (is_auth : Bool) (m : Fields) (k : Text)
    → All IsField fs
    → is_one_of reserved_fields k ≡ true
    → check_known fs is_auth m ≡ ok tt
    → get k m ≡ none
unfolding check_known get
check_known-reserved fs is_auth Fields.end k h r c = refl
check_known-reserved fs is_auth (Fields.field j v m) k h r c =
    let (_, e₁, c₁) =
      >>=-eq-ok (ensure (is_defined (field_def fs j) || (is_auth && is_pseudo j)) _)
        (λ _. check_value (field_def fs j) j v >>= λ _. check_known fs is_auth m) c in
    let (_, _, c₂) =
      >>=-eq-ok (check_value (field_def fs j) j v) (λ _. check_known fs is_auth m) c₁ in
    let known = ensure-eq-ok (is_defined (field_def fs j) || (is_auth && is_pseudo j)) _ e₁ in
    elim (Bool-cases (same j k)) [
      | inl e ↦
          let at_j : is_one_of reserved_fields j ≡ true =
            ap (is_one_of reserved_fields) ((same_iff j k).0 e) ∙ r in
          absurd (ground (arith, known, field_def-reserved fs j h at_j, is_pseudo-reserved j at_j))
      | inr e ↦ rw (e, get) (check_known-reserved fs is_auth m k h r c₂)
    ]

-- Under a schema that the collection handlers accept, a body that passes validation, for a create or
-- an update, names none of the reserved fields: no client writes `password_hash`, `token_epoch`,
-- `verified` or a system column through it.
pub validate-reserved :
    (schema : Json) (fs : List Json) (m : Fields) (is_auth partial : Bool) (k : Text)
    → schema_ok schema ≡ ok fs
    → validate fs m is_auth partial ≡ ok tt
    → is_one_of reserved_fields k ≡ true
    → get k m ≡ none
unfolding schema_ok validate
validate-reserved schema fs m is_auth partial k accepted valid r =
    let (gs, _, h₁) =
      >>=-eq-ok (ok_or (as_array schema) _) (λ gs. check_fields gs >>= λ _. ok gs) accepted in
    let (_, e₂, h₂) = >>=-eq-ok (check_fields gs) (λ _. ok gs) h₁ in
    let (_, known, _) =
      >>=-eq-ok (check_known fs is_auth m) (λ _. check_required fs partial m) valid in
    check_known-reserved fs is_auth m k
      (subst (All IsField) (ok-injective h₂) (check_fields-All gs e₂)) r known
