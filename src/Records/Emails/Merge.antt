-- ===== src/Records/Emails/Merge.antt =====
-- The email of the data that an update in src/records.rs leaves.
use rockbase.Prelude.{
  ◌≡◌, refl, ◌∙◌, inl, inr, Bool, true, false, ◌||◌, Option, none, some, Text, bytes, same,
  same_iff, arith, ok, Option-cases, Bool-cases, Result-cases, >>=-eq-ok, if◌then◌else◌, ltb,
  length,
}
use rockbase.Json.{Json, Fields, get, insert, remove, contains_key, get-insert, get-remove}
use rockbase.Env.{Bcrypt}
use rockbase.Db.{Host, map_or_empty}
use rockbase.Records.{epoch_field, str_or_empty, hashed, hash_password}
use rockbase.Records.Update.{merge, merged, wants_revoke, bump_epoch, patched, int_or_zero}
use rockbase.Prelude.Int.{int_succ}
use rockbase.Http.{Reply}

-- an object as a parser gives it, where no key comes twice
abbrev pub IsMap : Fields → Type 0
IsMap Fields.end = Unit
IsMap (Fields.field k v m) = (get k m ≡ none) × IsMap m

abbrev pub or_else : Option Json → Option Json → Option Json
or_else none o = o
or_else (some v) o = some v

get-merge_map :
    (k : Text) (patch m : Fields)
    → IsMap patch
    → get k (merge patch m) ≡ or_else (get k patch) (get k m)
unfolding merge get
get-merge_map k Fields.end m h = refl
get-merge_map k (Fields.field j v patch) m (once, h) =
    ground (arith, get-merge_map k patch (insert j v m) h, get-insert j k v m, once, same_iff j k)

pub hash_password-email :
    (bcrypt : Bcrypt) (m m' : Fields)
    → hash_password bcrypt m ≡ ok m'
    → get (bytes "email") m' ≡ get (bytes "email") m
unfolding hash_password hashed bytes same
hash_password-email bcrypt m m' h = elim (Option-cases (get (bytes "password") m)) [
  | inl e ↦ cc (h, e)
  | inr (pw, e) ↦ elim (Bool-cases (ltb (length (str_or_empty (some pw))) 8)) [
    | inl f ↦ cc (h, e, f)
    | inr f ↦ elim (Result-cases (bcrypt.hash (str_or_empty (some pw)))) [
      | inr (x, g) ↦ cc (h, e, f, g)
      | inl (s, g) ↦ cc (
        h,
        e,
        f,
        g,
        get-insert (bytes "password_hash") (bytes "email") (Json.str s)
            (remove (bytes "password") m),
        get-remove (bytes "password") (bytes "email") m,
      )
    ]
  ]
]

bumped-email :
    (b : Bool) (x m : Fields)
    → ◌≡◌ {A = Reply Fields} (ok (if b then bump_epoch x else x)) (ok m)
    → get (bytes "email") m ≡ get (bytes "email") x
unfolding bump_epoch epoch_field bytes same
bumped-email true x m h = cc (
  h,
  get-insert epoch_field (bytes "email") (Json.int (int_succ (int_or_zero (get epoch_field x)))) x,
)
bumped-email false x m h = cc (h)

-- the email of a patch, or else that of the record
pub patched-email :
    (host : Host) (data_text : Text) (patch m : Fields)
    → IsMap patch
    → patched host data_text patch ≡ ok m
    → get (bytes "email") m
      ≡ or_else
          (get (bytes "email") patch)
          (get (bytes "email") (map_or_empty (host.serde.from_str data_text)))
unfolding patched merged bytes same
patched-email host data_text patch m once h =
    let (x, e, h₁) = >>=-eq-ok _ _ h in
    bumped-email (wants_revoke patch || contains_key (bytes "password") patch) x m h₁
    ∙ hash_password-email host.bcrypt _ x e
    ∙ get-remove (bytes "revokeTokens") (bytes "email") _
    ∙ get-remove (bytes "oldPassword") (bytes "email") _
    ∙ get-merge_map (bytes "email") patch (map_or_empty (host.serde.from_str data_text)) once
